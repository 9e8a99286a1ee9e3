-- ===== src/Memory/Paging/Unmap.antt =====
-- `UnmapPage` only ever clears entries: the page is gone afterwards, and no page moves.
use boreal_os.Base.{
  ℕ, ◌≡◌, refl, ◌∙◌, ap, subst, ◌⊎◌, inl, inr, Bool, true, false, not, ltb, ◌&&◌, if◌then◌else◌,
  Bool-cases, Option, none, some, Outcome, ok, ◌>>=◌, returned_parts, arith,
}
use native.Mathlib.Decide.{ℕ_discrete}
use boreal_os.Base.Store.{store, store_self, store_ne}
use boreal_os.Memory.Paging.{
  Machine, entry_at, pml4_index, pdp_index, pd_index, pt_index, next_table, or_zero,
  get_physical_address, is_table_empty, found, clear_entry, release_table, unmap_page,
}
use boreal_os.Memory.Paging.Entries.{is_present-zero}

-- `t` is `m` with some words cleared.
abbrev pub IsCleared : Machine → Machine → Type 0
IsCleared m t = (a : ℕ) → (t.words a ≡ m.words a) ⊎ (t.words a ≡ 0)

pub IsCleared_trans : (m t u : Machine) → IsCleared m t → IsCleared t u → IsCleared m u
IsCleared_trans m t u f g a = elim (g a) [
  | inr gone ↦ inr gone
  | inl same ↦ elim (f a) [ inr gone ↦ inr (same ∙ gone) | inl before ↦ inl (same ∙ before) ]
]

stays-cleared : (m t : Machine) (a : ℕ) → IsCleared m t → m.words a ≡ 0 → t.words a ≡ 0
stays-cleared m t a f e = elim (f a) [ inl same ↦ same ∙ e | inr gone ↦ gone ]

pub clear_entry-IsCleared :
    (table index : ℕ) (m : Machine) → IsCleared m (clear_entry table index m)
clear_entry-IsCleared table index m a = elim (ℕ_discrete (entry_at table index) a) [
  | yes here ↦ inr (rw (← here) (store_self m.words (entry_at table index) 0))
  | no ne ↦ inl (store_ne m.words (entry_at table index) 0 a ne)
]

pub next_table-zero :
    (m : Machine) (table index : ℕ)
    → m.words (entry_at table index) ≡ 0
    → next_table m table index ≡ none
unfolding next_table
next_table-zero m table index e = rw (e, is_present-zero) refl

pub next_table-IsCleared :
    (m t : Machine) (table index : ℕ)
    → IsCleared m t
    → (next_table t table index ≡ next_table m table index) ⊎ (next_table t table index ≡ none)
next_table-IsCleared m t table index f = elim (f (entry_at table index)) [
  | inr gone ↦ inr (next_table-zero t table index gone)
  | inl same ↦ inl (unfold next_table in rw same refl)
]

-- A chain of steps of which each is as before or finds nothing any more.
or_zero-cleared :
    (x y : Option ℕ) (f g : ℕ → ℕ)
    → (x ≡ y) ⊎ (x ≡ none)
    → ((a : ℕ) → (f a ≡ g a) ⊎ (f a ≡ 0))
    → (or_zero x f ≡ or_zero y g) ⊎ (or_zero x f ≡ 0)
or_zero-cleared x y f g (inr gone) h = inr (rw gone refl)
or_zero-cleared x none f g (inl same) h = inl (rw same refl)
or_zero-cleared x (some a) f g (inl same) h = rw same (h a)

physical-IsCleared :
    (m t : Machine) (pml4 u : ℕ)
    → IsCleared m t
    → (get_physical_address pml4 u t ≡ get_physical_address pml4 u m)
      ⊎ (get_physical_address pml4 u t ≡ 0)
unfolding get_physical_address
physical-IsCleared m t pml4 u f =
    or_zero-cleared _ _ _ _ (next_table-IsCleared m t pml4 (pml4_index u) f) λ pdp.
      or_zero-cleared _ _ _ _ (next_table-IsCleared m t pdp (pdp_index u) f) λ pd.
        or_zero-cleared _ _ _ _ (next_table-IsCleared m t pd (pd_index u) f) λ pt.
          or_zero-cleared _ _ _ _ (next_table-IsCleared m t pt (pt_index u) f) λ page. inl refl

-- A step that led to `a` leads there still, or nowhere.
or_zero-step :
    (x y : Option ℕ) (a : ℕ) (f : ℕ → ℕ)
    → (x ≡ y) ⊎ (x ≡ none)
    → y ≡ some a
    → f a ≡ 0
    → or_zero x f ≡ 0
or_zero-step x y a f (inr gone) e z = rw gone refl
or_zero-step x y a f (inl same) e z = rw (same, e) z

physical-gone :
    (m t : Machine) (pml4 v pdp pd pt : ℕ)
    → IsCleared m t
    → next_table m pml4 (pml4_index v) ≡ some pdp
    → next_table m pdp (pdp_index v) ≡ some pd
    → next_table m pd (pd_index v) ≡ some pt
    → t.words (entry_at pt (pt_index v)) ≡ 0
    → get_physical_address pml4 v t ≡ 0
unfolding get_physical_address
physical-gone m t pml4 v pdp pd pt f a b c z =
    or_zero-step _ _ pdp _ (next_table-IsCleared m t pml4 (pml4_index v) f) a (
      or_zero-step _ _ pd _ (next_table-IsCleared m t pdp (pdp_index v) f) b (
        or_zero-step _ _ pt _ (next_table-IsCleared m t pd (pd_index v) f) c
          (rw (next_table-zero t pt (pt_index v) z) refl)))

-- A step that may free a table writes at most the entry that led to it.
pub release-words :
    (allowed : Bool) (table parent index : ℕ) (m t : Machine) (gone : Bool)
    → release_table allowed table parent index m ≡ ok (t, gone)
    → (t.words ≡ m.words) ⊎ (t.words ≡ store m.words (entry_at parent index) 0)
unfolding release_table
release-words allowed table parent index m t gone e =
    elim (Bool-cases (is_table_empty 512 0 table m && allowed)) [
      | inr kept ↦ inl (by_cases kept)
      | inl freed ↦ inr (by_free freed)
    ]
  where
    by_cases : (is_table_empty 512 0 table m && allowed) ≡ false → t.words ≡ m.words
    by_cases kept = ground (arith, e, kept)

    by_free :
        (is_table_empty 512 0 table m && allowed) ≡ true
        → t.words ≡ store m.words (entry_at parent index) 0
    by_free freed = ground (arith, e, freed)

pub release-IsCleared :
    (allowed : Bool) (table parent index : ℕ) (m t : Machine) (gone : Bool)
    → release_table allowed table parent index m ≡ ok (t, gone)
    → IsCleared m t
release-IsCleared allowed table parent index m t gone e a =
    elim (release-words allowed table parent index m t gone e) [
      | inl same ↦ inl (ap (λ w. w a) same)
      | inr cleared ↦ elim (clear_entry-IsCleared parent index m a) [
        | inl kept ↦ inl (ap (λ w. w a) cleared ∙ kept)
        | inr at_entry ↦ inr (ap (λ w. w a) cleared ∙ at_entry)
      ]
    ]

found-some : (r : Option ℕ) (a : ℕ) → found r ≡ ok a → r ≡ some a
found-some none a e = cc
found-some (some b) a e = cc

-- The steps after the entry of the page is cleared.
abbrev pub release_all : ℕ → ℕ → ℕ → ℕ → ℕ → Machine → Outcome Machine
release_all pml4 v pdp pd pt m = do
  (m, gone) ← release_table true pt pd (pd_index v) m
  if not gone then ok m else do
    (m, gone) ← release_table true pd pdp (pdp_index v) m
    if not gone
        then ok m
        else do (m, gone) ← release_table (ltb (pml4_index v) 256) pdp pml4 (pml4_index v) m; ok m

-- What `UnmapPage` has read and cleared when it returns.
pub record IsUnmapped (pml4 v : ℕ) (m t : Machine) : Type 0 where
  pub pdp : ℕ
  pub pd : ℕ
  pub pt : ℕ
  pub to_pdp : next_table m pml4 (pml4_index v) ≡ some pdp
  pub to_pd : next_table m pdp (pdp_index v) ≡ some pd
  pub to_pt : next_table m pd (pd_index v) ≡ some pt
  pub freed : release_all pml4 v pdp pd pt (clear_entry pt (pt_index v) m) ≡ ok t
  cleared : IsCleared (clear_entry pt (pt_index v) m) t

pub same_state : (m t : Machine) → ok m ≡ ok t → m ≡ t
same_state m t e = cc

pub stop_or_go :
    (gone : Bool) (m t : Machine) (more : Outcome Machine)
    → (if not gone then ok m else more) ≡ ok t
    → (m ≡ t) ⊎ (more ≡ ok t)
stop_or_go true m t more e = inr e
stop_or_go false m t more e = inl (same_state m t e)

-- One step, and what comes after it where the table was freed.
release-chain :
    (allowed : Bool) (table parent index : ℕ) (m t : Machine) (more : Machine → Outcome Machine)
    → ((u : Machine) → more u ≡ ok t → IsCleared u t)
    → (release_table allowed table parent index m >>= λ r. if not r.1 then ok r.0 else more r.0)
      ≡ ok t
    → IsCleared m t
release-chain allowed table parent index m t more h e =
    let ((u, gone), first, rest) =
      returned_parts (release_table allowed table parent index m) _ {value = t} e in
    let c = release-IsCleared allowed table parent index m u gone first in
    elim (stop_or_go gone u t (more u) rest) [
      | inl same ↦ subst (λ x. IsCleared m x) same c
      | inr go ↦ IsCleared_trans m u t c (h u go)
    ]

last-IsCleared :
    (allowed : Bool) (table parent index : ℕ) (m t : Machine)
    → (release_table allowed table parent index m >>= λ r. ok r.0) ≡ ok t
    → IsCleared m t
last-IsCleared allowed table parent index m t e =
    let ((u, gone), first, rest) =
      returned_parts (release_table allowed table parent index m) _ {value = t} e in
    subst (λ x. IsCleared m x) (same_state u t rest)
      (release-IsCleared allowed table parent index m u gone first)

release_all-IsCleared :
    (pml4 v pdp pd pt : ℕ) (m t : Machine) → release_all pml4 v pdp pd pt m ≡ ok t → IsCleared m t
release_all-IsCleared pml4 v pdp pd pt m t e =
    release-chain true pt pd (pd_index v) m t _
      (λ u e1.
        release-chain true pd pdp (pdp_index v) u t _
          (λ w e2. last-IsCleared (ltb (pml4_index v) 256) pdp pml4 (pml4_index v) w t e2) e1)
      e

pub unmap_page-IsUnmapped :
    (pml4 v : ℕ) (m t : Machine) → unmap_page pml4 v m ≡ ok t → IsUnmapped pml4 v m t
unfolding unmap_page
unmap_page-IsUnmapped pml4 v m t e =
    let (pdp, a, e1) = returned_parts (found (next_table m pml4 (pml4_index v))) _ {value = t} e in
    let (pd, b, e2) = returned_parts (found (next_table m pdp (pdp_index v))) _ {value = t} e1 in
    let (pt, c, e3) = returned_parts (found (next_table m pd (pd_index v))) _ {value = t} e2 in
    let (page, d, e4) = returned_parts (found (next_table m pt (pt_index v))) _ {value = t} e3 in
    record {
      pdp = pdp;
      pd = pd;
      pt = pt;
      to_pdp = found-some _ pdp a;
      to_pd = found-some _ pd b;
      to_pt = found-some _ pt c;
      freed = e4;
      cleared = release_all-IsCleared pml4 v pdp pd pt (clear_entry pt (pt_index v) m) t e4;
    }

-- When `UnmapPage` returns, the page is not mapped any more, and every other address leads where it led
-- before, or nowhere.
pub unmap_page_lem :
    (pml4 v : ℕ) (m t : Machine)
    → unmap_page pml4 v m ≡ ok t
    → (get_physical_address pml4 v t ≡ 0)
      × ((u : ℕ)
          → (get_physical_address pml4 u t ≡ get_physical_address pml4 u m)
            ⊎ (get_physical_address pml4 u t ≡ 0))
unmap_page_lem pml4 v m t e =
    let h = unmap_page-IsUnmapped pml4 v m t e in
    let at_page = store_self m.words (entry_at h.pt (pt_index v)) 0 in
    let all =
      IsCleared_trans m (clear_entry h.pt (pt_index v) m) t
        (clear_entry-IsCleared h.pt (pt_index v) m) h.cleared in
    (
      physical-gone m t pml4 v h.pdp h.pd h.pt all h.to_pdp h.to_pd h.to_pt
          (stays-cleared (clear_entry h.pt (pt_index v) m) t _ h.cleared at_page),
      λ u. physical-IsCleared m t pml4 u all,
    )
