-- ===== src/Memory/Paging/Keeps.antt =====
-- The steps of `UnmapPage` that free a table: the walks over all four levels end where they did.
use boreal_os.Base.{
  ℕ, ◌≤◌, ◌<◌, ◌≡◌, ◌≢◌, refl, sym, ◌∙◌, ap, subst, ◌⊎◌, inl, inr, Bool, true, false, not,
  if◌then◌else◌, Bool-cases, Option-cases, none, some, List, [], ◌∷◌, length, Outcome, ok, ◌>>=◌,
  returned_parts, arith,
}
use boreal_os.Base.Store.{store, store_ne}
use boreal_os.Memory.Paging.{Machine, entry_at, next_table, is_table_empty, release_table}
use boreal_os.Memory.Paging.Tree.{
  Role, height, walk, AllSmall, walk-some, walk-none, used-of_height,
}
use boreal_os.Memory.Paging.Unmap.{
  IsCleared, IsCleared_trans, release-words, release-IsCleared, stop_or_go, same_state,
  next_table-IsCleared,
}
use boreal_os.Memory.Paging.Shape.{
  IsShaped, IsShaped-IsCleared, walk-apart, walk-IsCleared, Passes-none, is_table_empty-next,
  some-none,
}

-- The walks over all four levels end where they did.
abbrev pub Keeps : ℕ → Machine → Machine → Type 0
Keeps pml4 m t = (js : List ℕ) → AllSmall js → length js ≡ 4 → walk t pml4 js ≡ walk m pml4 js

next_table-words :
    (m t : Machine) (x j : ℕ) → t.words ≡ m.words → next_table t x j ≡ next_table m x j
unfolding next_table
next_table-words m t x j e = rw e refl

walk-words : (m t : Machine) → t.words ≡ m.words → (x : ℕ) (js : List ℕ) → walk t x js ≡ walk m x js
walk-words m t e x [] = unfold walk in refl
walk-words m t e x (j ∷ js) = elim (Option-cases (next_table m x j)) [
  | inl f ↦ walk-none t x j js (next_table-words m t x j e ∙ f) ∙ sym (walk-none m x j js f)
  | inr (u, f) ↦
      walk-some t x j js (next_table-words m t x j e ∙ f)
      ∙ walk-words m t e u js
      ∙ sym (walk-some m x j js f)
]

release-full :
    (allowed : Bool) (table parent index : ℕ) (m t : Machine) (gone : Bool)
    → release_table allowed table parent index m ≡ ok (t, gone)
    → is_table_empty 512 0 table m ≡ false
    → t.words ≡ m.words
unfolding release_table
release-full allowed table parent index m t gone e full = ground (arith, e, full)

store_keeps :
    (m t : Machine) (parent index a : ℕ)
    → t.words ≡ store m.words (entry_at parent index) 0
    → entry_at parent index ≢ a
    → t.words a ≡ m.words a
store_keeps m t parent index a e ne =
    ap (λ w. w a) e ∙ store_ne m.words (entry_at parent index) 0 a ne

module _ {role : ℕ → Role} {pml4 : ℕ} (m : Machine) (shape : IsShaped role pml4 m) where
  module _ (allowed : Bool) (table parent index : ℕ) (t : Machine) (gone : Bool)
      (deep : 2 ≤ height (role parent)) (small : index < 512)
      (leads : (next_table m parent index ≡ some table) ⊎ (next_table m parent index ≡ none))
      (e : release_table allowed table parent index m ≡ ok (t, gone)) where
    leads-table : (u : ℕ) → next_table m parent index ≡ some u → u ≡ table
    leads-table u f = elim leads [ inl g ↦ cc | inr g ↦ absurd (some-none u (sym f ∙ g)) ]

    dead :
        is_table_empty 512 0 table m ≡ true
        → (u j : ℕ) → next_table m parent index ≡ some u
        → j < 512
        → next_table m u j ≡ none
    dead empty u j f sj =
        ap (λ x. next_table m x j) (leads-table u f)
        ∙ is_table_empty-next 512 0 table m empty j (omega arith) (omega arith)

    release-Keeps : Keeps pml4 m t
    release-Keeps js all len = elim (release-words allowed table parent index m t gone e) [
      | inl same ↦ walk-words m t same pml4 js
      | inr wrote ↦ elim (Bool-cases (is_table_empty 512 0 table m)) [
        | inr full ↦
            walk-words m t (release-full allowed table parent index m t gone e full) pml4 js
        | inl empty ↦
            elim (walk-apart m t shape parent index
              (used-of_height (role parent) (omega (arith, deep))) small
              (λ a ne. store_keeps m t parent index a wrote ne) pml4 js all
              (len ∙ sym (ap height shape.top))) [
                | inl same ↦ same
                | inr p ↦
                    (let none_before =
                        Passes-none m shape parent index deep (dead empty) pml4 js all
                          (len ∙ sym (ap height shape.top)) p in
                      elim (walk-IsCleared m t pml4 js
                        (release-IsCleared allowed table parent index m t gone e)) [
                          | inl same ↦ same
                          | inr gone_after ↦ gone_after ∙ sym none_before
                        ])
              ]
      ]
    ]

-- The steps of `UnmapPage` after the entry of the page is cleared, from a state `m` on.
module _ {role : ℕ → Role} {pml4 : ℕ} (m : Machine) (shape : IsShaped role pml4 m) where
  -- One step in a later state.
  step-Keeps :
      (allowed : Bool) (table parent index : ℕ) (u t : Machine) (gone : Bool)
      → 2 ≤ height (role parent)
      → index < 512
      → next_table m parent index ≡ some table
      → IsCleared m u
      → release_table allowed table parent index u ≡ ok (t, gone)
      → Keeps pml4 u t
  step-Keeps allowed table parent index u t gone deep small leads c e =
      release-Keeps u (IsShaped-IsCleared m u c shape) allowed table parent index t gone deep small
        (elim (next_table-IsCleared m u parent index c) [
          | inl same ↦ inl (same ∙ leads)
          | inr missing ↦ inr missing
        ])
        e

  Keeps-trans : (u t w : Machine) → Keeps pml4 u t → Keeps pml4 t w → Keeps pml4 u w
  Keeps-trans u t w f g js all len = g js all len ∙ f js all len

  pub chain-Keeps :
      (allowed : Bool) (table parent index : ℕ) (u t : Machine) (more : Machine → Outcome Machine)
      → 2 ≤ height (role parent)
      → index < 512
      → next_table m parent index ≡ some table
      → IsCleared m u
      → ((w : Machine) → IsCleared m w → more w ≡ ok t → Keeps pml4 w t)
      → (release_table allowed table parent index u >>= λ r. if not r.1 then ok r.0 else more r.0)
        ≡ ok t
      → Keeps pml4 u t
  chain-Keeps allowed table parent index u t more deep small leads c h e =
      let ((w, gone), first, rest) =
        returned_parts (release_table allowed table parent index u) _ {value = t} e in
      let k = step-Keeps allowed table parent index u w gone deep small leads c first in
      let d =
        IsCleared_trans m u w c (release-IsCleared allowed table parent index u w gone first) in
      elim (stop_or_go gone w t (more w) rest) [
        | inl same ↦ subst (λ x. Keeps pml4 u x) same k
        | inr go ↦ Keeps-trans u w t k (h w d go)
      ]

  pub last-Keeps :
      (allowed : Bool) (table parent index : ℕ) (u t : Machine)
      → 2 ≤ height (role parent)
      → index < 512
      → next_table m parent index ≡ some table
      → IsCleared m u
      → (release_table allowed table parent index u >>= λ r. ok r.0) ≡ ok t
      → Keeps pml4 u t
  last-Keeps allowed table parent index u t deep small leads c e =
      let ((w, gone), first, rest) =
        returned_parts (release_table allowed table parent index u) _ {value = t} e in
      subst (λ x. Keeps pml4 u x) (same_state w t rest)
        (step-Keeps allowed table parent index u w gone deep small leads c first)
