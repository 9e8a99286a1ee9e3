-- ===== src/Memory/Paging/Write.antt =====
-- A write to an entry of a lowest table: only the walk that ends there changes.
use boreal_os.Base.{
  ℕ, ◌≤◌, ◌<◌, ◌≡◌, ◌≢◌, sym, ◌∙◌, ap, inl, inr, Option-cases, List, [], ◌∷◌, arith, length,
}
use boreal_os.Base.Store.{store, store_ne}
use boreal_os.Memory.Paging.{Machine, entry_at, next_table}
use boreal_os.Memory.Paging.Tree.{
  Role, unused, child, height, height-child, IsTree, walk, next_table-role, AllSmall,
  used-of_height, walk-some, walk-none,
}
use boreal_os.Memory.Paging.Link.{used-aligned}

-- The role of the table that holds the last entry of a walk, and the index of that entry.
abbrev pub target : Role → List ℕ → Role
target r [] = r
target r (i ∷ []) = r
target r (i ∷ j ∷ is) = target (child r i) (j ∷ is)

abbrev pub last_index : List ℕ → ℕ
last_index [] = 0
last_index (i ∷ []) = i
last_index (i ∷ j ∷ is) = last_index (j ∷ is)

-- A write to entry `k` of a lowest table.
module _ {role : ℕ → Role} {pml4 : ℕ} {m : Machine} (tree : IsTree role pml4 m) (table k e : ℕ)
    (small : k < 512) (lowest : height (role table) ≡ 1) where
  abbrev pub written : Machine
  written = record m { words = store m.words (entry_at table k) e }

  pub table-used : role table ≢ unused
  table-used = used-of_height (role table) (omega arith)

  words-written :
      (u j : ℕ)
      → role u ≢ unused
      → j < 512
      → (u ≡ table → j ≢ k)
      → written.words (entry_at u j) ≡ m.words (entry_at u j)
  words-written u j used h other =
      let au = used-aligned tree u used in
      let at = used-aligned tree table table-used in
      store_ne m.words (entry_at table k) e (entry_at u j) (λ e. other (omega arith) (omega arith))

  pub next_table-written :
      (u j : ℕ)
      → role u ≢ unused
      → j < 512
      → (u ≡ table → j ≢ k)
      → next_table written u j ≡ next_table m u j
  unfolding next_table
  next_table-written u j used h other = rw (words-written u j used h other)

  pub higher : (u : ℕ) → 2 ≤ height (role u) → u ≢ table
  higher u h e = absurd (omega (arith, ap (λ u. height (role u)) e))

  pub written-IsTree : IsTree role pml4 written
  written-IsTree = record {
    valid = tree.valid;
    narrow = tree.narrow;
    top = tree.top;
    aligned = tree.aligned;
    fresh = tree.fresh;
    down = λ u j h d.
        rw
          (words-written u j (used-of_height (role u) (omega arith)) h
            (λ same. absurd (higher u d same)))
          (tree.down u j h d);
  }

  -- A walk that does not end at the entry ends where it did.
  pub walk-written :
      (u : ℕ) (is : List ℕ)
      → AllSmall is
      → length is ≡ height (role u)
      → 0 < length is
      → (target (role u) is ≡ role table → last_index is ≢ k)
      → walk written u is ≡ walk m u is
  walk-written u [] hs e pos off = absurd (omega arith)
  walk-written u (i ∷ []) (h, _) e pos off =
      let next =
        next_table-written u i (used-of_height (role u) (omega arith)) h
          (λ same. off (ap role same)) in
      elim (Option-cases (next_table m u i)) [
        | inl e' ↦ walk-none written u i [] (next ∙ e') ∙ sym (walk-none m u i [] e')
        | inr (w, e') ↦
            walk-some written u i [] (next ∙ e') ∙ unfold walk in sym (walk-some m u i [] e')
      ]
  walk-written u (i ∷ j ∷ is) (h, hs) e pos off =
      let deep : 2 ≤ height (role u) = omega arith in
      let next =
        next_table-written u i (used-of_height (role u) (omega arith)) h
          (λ same. absurd (higher u deep same)) in
      elim (Option-cases (next_table m u i)) [
        | inl e' ↦ walk-none written u i (j ∷ is) (next ∙ e') ∙ sym (walk-none m u i (j ∷ is) e')
        | inr (w, e') ↦
            let r = next_table-role tree u i w h deep e' in
            walk-some written u i (j ∷ is) (next ∙ e')
            ∙ walk-written w (j ∷ is) hs (omega (arith, height-child (role u) i deep, ap height r))
                (omega arith) (λ at. off (ap (λ r. target r (j ∷ is)) (sym r) ∙ at))
            ∙ sym (walk-some m u i (j ∷ is) e')
      ]
