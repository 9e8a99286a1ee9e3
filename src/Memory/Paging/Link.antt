-- ===== src/Memory/Paging/Link.antt =====
-- A fresh frame is cleared and linked into the tree: no walk ends anywhere else than before.
use boreal_os.Base.{
  ℕ, zero, suc, ◌+◌, ◌*◌, ◌%◌, ◌≤◌, ◌<◌, ◌≡◌, ◌≢◌, refl, sym, ◌∙◌, ap, subst, ◌⊎◌, inl, inr, true,
  false, ◌==◌, if◌then◌else◌, Option-cases, none, some, List, [], ◌∷◌, bit_and, bit_or, arith,
  length,
}
use native.Mathlib.Decide.{ℕ_discrete, dec_lt}
use boreal_os.Base.Store.{Store, store, store_self, store_ne}
use boreal_os.Memory.Pmm.{page_size, allocated_at, allocate_pages, take_run}
use boreal_os.Memory.Pmm.Alloc.{Granted}
use boreal_os.Memory.Paging.{
  Machine, entry_at, is_present, pointer_mask, directory_flags, clear_words, next_table,
}
use boreal_os.Memory.Paging.Entries.{IsFrame, is_present-zero, directory-present, directory-pointer}
use boreal_os.Memory.Paging.Tree.{
  Role, unused, root, child, height, height-child, IsTree, walk, next_table-role, AllSmall,
  child-used, used-of_height, walk-some, walk-none, walk_empty,
}

pub clear_words-outside :
    (left address a : ℕ) (w : Store)
    → (a < address) ⊎ (address + 8 * left ≤ a)
    → clear_words left address w a ≡ w a
unfolding clear_words
clear_words-outside zero address a w h = refl
clear_words-outside (suc left) address a w h =
    clear_words-outside left (address + 8) a _ (omega arith) ∙ store_ne w address 0 a (omega arith)

clear_words-inside :
    (left address k : ℕ) (w : Store) → k < left → clear_words left address w (address + 8 * k) ≡ 0
unfolding clear_words
clear_words-inside zero address k w h = absurd (omega arith)
clear_words-inside (suc left) address zero w h =
    let e : address + 8 * 0 ≡ address = omega arith in
    rw e (clear_words-outside left (address + 8) address _ (omega arith) ∙ store_self w address 0)
clear_words-inside (suc left) address (suc k) w h =
    let e : address + 8 * suc k ≡ address + 8 + 8 * k = omega arith in
    rw e (clear_words-inside left (address + 8) k _ (omega arith))

-- The role of a frame that is used decides its alignment, and two such frames do not overlap.
module _ {role : ℕ → Role} {pml4 : ℕ} {m : Machine} (tree : IsTree role pml4 m) where
  pub used-aligned : (u : ℕ) → role u ≢ unused → u % page_size ≡ 0
  used-aligned u ne = elim (ℕ_discrete (u % page_size) 0) [
    | yes e ↦ e
    | no e ↦ absurd (ne (tree.aligned u e))
  ]

root-used : root ≢ unused
root-used e = cc

-- A fresh frame is linked in at entry `i` of table `t`.
module _ {role : ℕ → Role} {pml4 : ℕ} {m : Machine} (tree : IsTree role pml4 m) (t i : ℕ)
    (small : i < 512) (deep : 2 ≤ height (role t))
    (g : Granted m.pmm 1 (allocate_pages m.pmm 1)) where
  abbrev pub frame : ℕ
  frame = g.start * page_size

  abbrev pub linked : Machine
  linked = record {
    pmm = g.after;
    words = store (clear_words 512 frame m.words) (entry_at t i) (bit_or frame directory_flags);
  }

  abbrev pub role' : ℕ → Role
  role' u = if frame == u then child (role t) i else role u

  pub frame-IsFrame : IsFrame frame
  frame-IsFrame = omega (arith, g.within, tree.narrow)

  frame-unused : role frame ≡ unused
  frame-unused = tree.fresh g.start (ground (arith, g.run g.start (omega arith) (omega arith)))

  used-ne : (u : ℕ) → role u ≢ unused → frame ≢ u
  used-ne u ne e = ne (rw (← e) frame-unused)

  t-used : role t ≢ unused
  t-used e = absurd (omega (arith, ap height e))

  pub keeps : (u : ℕ) → role u ≢ unused → role' u ≡ role u
  keeps u ne = ground (arith, used-ne u ne)

  -- The words of the tables that were there, and of the new one.
  words-old :
      (u j : ℕ)
      → role u ≢ unused
      → j < 512
      → (u ≡ t → j ≢ i)
      → linked.words (entry_at u j) ≡ m.words (entry_at u j)
  words-old u j used h other =
      let au = used-aligned tree u used in
      let at = used-aligned tree t t-used in
      let apart = used-ne u used in
      store_ne (clear_words 512 frame m.words) (entry_at t i) _ (entry_at u j)
        (λ e. other (omega arith) (omega arith))
      ∙ clear_words-outside 512 frame (entry_at u j) m.words (omega arith)

  words-new : (j : ℕ) → j < 512 → linked.words (entry_at frame j) ≡ 0
  words-new j h =
      let at = used-aligned tree t t-used in
      let apart = used-ne t t-used in
      store_ne (clear_words 512 frame m.words) (entry_at t i) _ (entry_at frame j) (omega arith)
      ∙ clear_words-inside 512 frame j m.words h

  words-link : linked.words (entry_at t i) ≡ bit_or frame directory_flags
  words-link = store_self (clear_words 512 frame m.words) (entry_at t i) _

  pub same_entry : (u j : ℕ) → ((u ≡ t) × (j ≡ i)) ⊎ (u ≡ t → j ≢ i)
  same_entry u j = elim (ℕ_discrete u t) [
    | yes eu ↦ elim (ℕ_discrete j i) [ yes ej ↦ inl (eu, ej) | no ne ↦ inr (λ _. ne) ]
    | no ne ↦ inr (λ eu. absurd (ne eu))
  ]

  pub next_table-link : next_table linked t i ≡ some frame
  unfolding next_table
  next_table-link =
      rw (words-link, directory-present frame frame-IsFrame, directory-pointer frame frame-IsFrame)

  next_table-new : (j : ℕ) → j < 512 → next_table linked frame j ≡ none
  unfolding next_table
  next_table-new j h = rw (words-new j h, is_present-zero)

  pub next_table-old :
      (u j : ℕ)
      → role u ≢ unused
      → j < 512
      → (u ≡ t → j ≢ i)
      → next_table linked u j ≡ next_table m u j
  unfolding next_table
  next_table-old u j used h other = rw (words-old u j used h other)

  linked-fresh : (p : ℕ) → allocated_at g.after p ≡ false → role' (p * page_size) ≡ unused
  linked-fresh p h = ground (arith, g.taken.marked p, tree.fresh p)

  other-role : (u : ℕ) → frame ≢ u → role' u ≡ role u
  other-role u ne = ground arith

  linked-down_old :
      (u j : ℕ)
      → j < 512
      → 2 ≤ height (role u)
      → (linked.words (entry_at u j) ≡ 0)
        ⊎ ((is_present (linked.words (entry_at u j)) ≡ true)
            × (role' (bit_and (linked.words (entry_at u j)) pointer_mask) ≡ child (role u) j))
  linked-down_old u j h d = elim (same_entry u j) [
    | inl (eu, ej) ↦ inr (
      rw (eu, ej, words-link) (directory-present frame frame-IsFrame),
      rw (eu, ej, words-link, directory-pointer frame frame-IsFrame) (ground arith),
    )
    | inr other ↦
        rw (words-old u j (used-of_height (role u) (omega arith)) h other)
          (elim (tree.down u j h d) [
            | inl e ↦ inl e
            | inr (p, r) ↦ inr (p, keeps _ (λ e. child-used (role u) j d (sym r ∙ e)) ∙ r)
          ])
  ]

  linked-down :
      (u j : ℕ)
      → j < 512
      → 2 ≤ height (role' u)
      → (linked.words (entry_at u j) ≡ 0)
        ⊎ ((is_present (linked.words (entry_at u j)) ≡ true)
            × (role' (bit_and (linked.words (entry_at u j)) pointer_mask) ≡ child (role' u) j))
  linked-down u j h d = elim (ℕ_discrete frame u) [
    | yes e ↦ inl (subst (λ f. linked.words (entry_at f j) ≡ 0) e (words-new j h))
    | no ne ↦
        let same = other-role u ne in
        let d' : 2 ≤ height (role u) = subst (λ r. 2 ≤ height r) same d in
        subst
          (λ r.
            (linked.words (entry_at u j) ≡ 0)
            ⊎ ((is_present (linked.words (entry_at u j)) ≡ true)
                × (role' (bit_and (linked.words (entry_at u j)) pointer_mask) ≡ child r j)))
          (sym same) (linked-down_old u j h d')
  ]

  pub linked-IsTree : IsTree role' pml4 linked
  linked-IsTree = record {
    valid = g.valid;
    narrow = rw g.exact (unfold take_run in tree.narrow);
    top = keeps pml4 (λ e. root-used (sym tree.top ∙ e)) ∙ tree.top;
    aligned = λ u ne. ground (arith, tree.aligned u ne);
    fresh = linked-fresh;
    down = linked-down;
  }

  -- From a table of the old tree every full walk ends where it did.
  module _ (empty : m.words (entry_at t i) ≡ 0) where
    pub next_table-empty : next_table m t i ≡ none
    unfolding next_table
    next_table-empty = rw (empty, is_present-zero)

    walk-frame : (is : List ℕ) → AllSmall is → 0 < length is → walk linked frame is ≡ none
    walk-frame [] hs pos = absurd (omega arith)
    walk-frame (k ∷ is) (h, hs) pos = walk-none linked frame k is (next_table-new k h)

    -- A walk through the new entry found nothing before, and finds nothing now.
    walk-linked_here :
        (is : List ℕ) → AllSmall is → 0 < length is → walk linked t (i ∷ is) ≡ walk m t (i ∷ is)
    walk-linked_here is hs pos =
        walk-some linked t i is next_table-link
        ∙ walk-frame is hs pos
        ∙ sym (walk-none m t i is next_table-empty)

    pub walk-linked :
        (u : ℕ) (is : List ℕ)
        → AllSmall is
        → length is ≡ height (role u)
        → 0 < length is
        → walk linked u is ≡ walk m u is
    walk-linked u [] hs e pos = absurd (omega arith)
    walk-linked u (j ∷ is) (h, hs) e pos = elim (same_entry u j) [
      | inl (eu, ej) ↦
          rw (eu, ej) (walk-linked_here is hs (omega (arith, ap (λ u. height (role u)) eu)))
      | inr other ↦
          let used = used-of_height (role u) (omega arith) in
          let next = next_table-old u j used h other in
          elim (Option-cases (next_table m u j)) [
            | inl e' ↦ walk-none linked u j is (next ∙ e') ∙ sym (walk-none m u j is e')
            | inr (w, e') ↦
                walk-some linked u j is (next ∙ e')
                ∙ elim (dec_lt 0 (length is)) [
                  | yes more ↦
                      let r = next_table-role tree u j w h (omega arith) e' in
                      walk-linked w is hs
                        (omega (arith, height-child (role u) j (omega arith), ap height r)) more
                  | no last ↦ walk_empty linked m w is last
                ]
                ∙ sym (walk-some m u j is e')
          ]
    ]
