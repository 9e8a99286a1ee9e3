-- ===== src/Memory/Paging/Shape.antt =====
-- Clearing an entry of a tree of tables: a walk changes only if it passes that entry, and a walk that
-- passes it into a table without entries ends nowhere in any case.
use boreal_os.Base.{
  ℕ, zero, suc, ◌+◌, ◌%◌, ◌≤◌, ◌<◌, ◌≡◌, ◌≢◌, refl, sym, ◌∙◌, ap, ◌⊎◌, inl, inr, true, false,
  Bool-cases, Option-cases, none, some, List, [], ◌∷◌, length, arith,
}
use native.Mathlib.Decide.{ℕ_discrete}
use boreal_os.Memory.Pmm.{page_size}
use boreal_os.Memory.Paging.{Machine, entry_at, is_present, next_table, is_table_empty}
use boreal_os.Memory.Paging.Tree.{
  Role, unused, root, child, height, IsTree, next_table-role, walk, walk-some, walk-none, AllSmall,
  used-of_height, height-child,
}
use boreal_os.Memory.Paging.Unmap.{IsCleared, next_table-IsCleared}

-- The part of `IsTree` that is kept when entries are cleared.
pub record IsShaped (role : ℕ → Role) (pml4 : ℕ) (m : Machine) : Type 0 where
  pub top : role pml4 ≡ root
  pub aligned : (t : ℕ) → t % page_size ≢ 0 → role t ≡ unused
  pub leads :
      (t i u : ℕ)
      → i < 512
      → 2 ≤ height (role t)
      → next_table m t i ≡ some u
      → role u ≡ child (role t) i

pub IsTree-IsShaped :
    {role : ℕ → Role} {pml4 : ℕ} {m : Machine} → IsTree role pml4 m → IsShaped role pml4 m
IsTree-IsShaped tree = record {
  top = tree.top;
  aligned = tree.aligned;
  leads = next_table-role tree;
}

pub some-none : (a : ℕ) → ¬ (some a ≡ none)
some-none a e = cc

-- A walk passes entry `i` of table `t`.
abbrev pub Passes : Machine → ℕ → ℕ → ℕ → List ℕ → Type 0
Passes m t i x [] = ⊥
Passes m t i x (j ∷ js) =
    ((x ≡ t) × (j ≡ i)) ⊎ ((u : ℕ) × (next_table m x j ≡ some u) × Passes m t i u js)

-- A walk after clearing, or where it ends at once.
pub walk-IsCleared :
    (m t : Machine) (x : ℕ) (js : List ℕ)
    → IsCleared m t
    → (walk t x js ≡ walk m x js) ⊎ (walk t x js ≡ none)
walk-IsCleared m t x [] f = inl (unfold walk in refl)
walk-IsCleared m t x (j ∷ js) f = elim (next_table-IsCleared m t x j f) [
  | inr gone ↦ inr (walk-none t x j js gone)
  | inl same ↦ elim (Option-cases (next_table m x j)) [
    | inl e ↦ inr (walk-none t x j js (same ∙ e))
    | inr (u, e) ↦ elim (walk-IsCleared m t u js f) [
      | inl rest ↦ inl (walk-some t x j js (same ∙ e) ∙ rest ∙ sym (walk-some m x j js e))
      | inr gone ↦ inr (walk-some t x j js (same ∙ e) ∙ gone)
    ]
  ]
]

module _ {role : ℕ → Role} {pml4 : ℕ} (m t : Machine) (shape : IsShaped role pml4 m) (table i : ℕ)
    (used : role table ≢ unused) (small : i < 512)
    (kept : (a : ℕ) → entry_at table i ≢ a → t.words a ≡ m.words a) where
  used-aligned : (x : ℕ) → role x ≢ unused → x % page_size ≡ 0
  used-aligned x ne = elim (ℕ_discrete (x % page_size) 0) [
    | yes e ↦ e
    | no e ↦ absurd (ne (shape.aligned x e))
  ]

  next-apart :
      (x j : ℕ)
      → role x ≢ unused
      → j < 512
      → ¬ ((x ≡ table) × (j ≡ i))
      → next_table t x j ≡ next_table m x j
  unfolding next_table
  next-apart x j ux sj ne =
      let a = used-aligned x ux in
      let b = used-aligned table used in
      rw (kept (entry_at x j) (λ e. ne (omega arith, omega arith))) refl

  -- One step of a walk, and what is known of the rest.
  first_step :
      (x j : ℕ) (js : List ℕ)
      → role x ≢ unused
      → j < 512
      → ((u : ℕ) → next_table m x j ≡ some u → (walk t u js ≡ walk m u js) ⊎ Passes m table i u js)
      → (walk t x (j ∷ js) ≡ walk m x (j ∷ js)) ⊎ Passes m table i x (j ∷ js)
  first_step x j js ux sj rest = elim (ℕ_discrete x table) [
    | no a ↦ further x j js rest (next-apart x j ux sj (λ e. a e.0))
    | yes a ↦ elim (ℕ_discrete j i) [
      | yes b ↦ inr (inl (a, b))
      | no b ↦ further x j js rest (next-apart x j ux sj (λ e. b e.1))
    ]
  ]
    where
      further :
          (x j : ℕ) (js : List ℕ)
          → ((u : ℕ)
              → next_table m x j ≡ some u
              → (walk t u js ≡ walk m u js) ⊎ Passes m table i u js)
          → next_table t x j ≡ next_table m x j
          → (walk t x (j ∷ js) ≡ walk m x (j ∷ js)) ⊎ Passes m table i x (j ∷ js)
      further x j js rest same = elim (Option-cases (next_table m x j)) [
        | inl e ↦ inl (walk-none t x j js (same ∙ e) ∙ sym (walk-none m x j js e))
        | inr (u, e) ↦ elim (rest u e) [
          | inl w ↦ inl (walk-some t x j js (same ∙ e) ∙ w ∙ sym (walk-some m x j js e))
          | inr p ↦ inr (inr (u, e, p))
        ]
      ]

  -- A walk that does not pass the changed entry is as before.
  pub walk-apart :
      (x : ℕ) (js : List ℕ)
      → AllSmall js
      → length js ≡ height (role x)
      → (walk t x js ≡ walk m x js) ⊎ Passes m table i x js
  walk-apart x [] all len = inl (unfold walk in refl)
  walk-apart x (j ∷ []) (sj, all) len =
      first_step x j [] (used-of_height (role x) (omega arith)) sj
        (λ u e. inl (unfold walk in refl))
  walk-apart x (j ∷ k ∷ ks) (sj, all) len =
      let deep : 2 ≤ height (role x) = omega arith in
      first_step x j (k ∷ ks) (used-of_height (role x) (omega arith)) sj (λ u e.
        walk-apart u (k ∷ ks) all
          (omega (arith, height-child (role x) j deep, ap height (shape.leads x j u sj deep e))))

pub IsShaped-IsCleared :
    {role : ℕ → Role} {pml4 : ℕ} (m t : Machine)
    → IsCleared m t
    → IsShaped role pml4 m
    → IsShaped role pml4 t
IsShaped-IsCleared {role} {pml4} m t f shape = record {
  top = shape.top;
  aligned = shape.aligned;
  leads = leads_after;
}
  where
    leads_after :
        (x i u : ℕ)
        → i < 512
        → 2 ≤ height (role x)
        → next_table t x i ≡ some u
        → role u ≡ child (role x) i
    leads_after x i u si deep e = elim (next_table-IsCleared m t x i f) [
      | inl same ↦ shape.leads x i u si deep (sym same ∙ e)
      | inr gone ↦ absurd (some-none u (sym e ∙ gone))
    ]

-- A table in which no entry is present, as far as `left` entries from `index` on are concerned.
pub is_table_empty-next :
    (left index table : ℕ) (m : Machine)
    → is_table_empty left index table m ≡ true
    → (j : ℕ) → index ≤ j
    → j < index + left
    → next_table m table j ≡ none
unfolding is_table_empty next_table
is_table_empty-next zero index table m e j low high = absurd (omega arith)
is_table_empty-next (suc left) index table m e j low high =
    elim (Bool-cases (is_present (m.words (entry_at table index)))) [
      | inl p ↦ absurd (ground (arith, e, p))
      | inr p ↦ elim (ℕ_discrete index j) [
        | yes here ↦
            (let q : is_present (m.words (entry_at table j)) ≡ false = rw (← here) p in rw q refl)
        | no ne ↦
            is_table_empty-next left (index + 1) table m (ground (arith, e, p)) j (omega arith)
              (omega arith)
      ]
    ]

module _ {role : ℕ → Role} {pml4 : ℕ} (m : Machine) (shape : IsShaped role pml4 m) (table i : ℕ)
    (deep : 2 ≤ height (role table))
    (dead : (u j : ℕ) → next_table m table i ≡ some u → j < 512 → next_table m u j ≡ none) where
  ends_here : (js : List ℕ) → AllSmall js → 1 ≤ length js → walk m table (i ∷ js) ≡ none
  ends_here [] all len = absurd (omega arith)
  ends_here (k ∷ ks) (sk, all) len = elim (Option-cases (next_table m table i)) [
    | inl e ↦ walk-none m table i (k ∷ ks) e
    | inr (u, e) ↦ walk-some m table i (k ∷ ks) e ∙ walk-none m u k ks (dead u k e sk)
  ]

  passed :
      (x j : ℕ) (js : List ℕ)
      → AllSmall js
      → length (j ∷ js) ≡ height (role x)
      → x ≡ table
      → j ≡ i
      → walk m x (j ∷ js) ≡ none
  passed x j js all len a b =
      ap (λ y. walk m y (j ∷ js)) a
      ∙ ap (λ k. walk m table (k ∷ js)) b
      ∙ ends_here js all (omega (arith, len, deep, ap (λ y. height (role y)) a))

  -- A walk that passes an entry that leads to a table without entries ends nowhere.
  pub Passes-none :
      (x : ℕ) (js : List ℕ)
      → AllSmall js
      → length js ≡ height (role x)
      → Passes m table i x js
      → walk m x js ≡ none
  Passes-none x [] all len p = absurd p
  Passes-none x (j ∷ js) (sj, all) len (inl (a, b)) = passed x j js all len a b
  Passes-none x (j ∷ []) (sj, all) len (inr (u, e, p)) = absurd p
  Passes-none x (j ∷ k ∷ ks) (sj, all) len (inr (u, e, p)) =
      let far : 2 ≤ height (role x) = omega arith in
      walk-some m x j (k ∷ ks) e
      ∙ Passes-none u (k ∷ ks) all
          (omega (arith, height-child (role x) j far, ap height (shape.leads x j u sj far e))) p
