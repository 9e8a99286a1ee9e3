-- ===== src/Memory/Paging/Release.antt =====
-- `UnmapPage` frees only tables without entries, so the pages it is not called for stay where they are.
use boreal_os.Base.{ℕ, ◌≤◌, ◌≡◌, refl, sym, ◌∙◌, ap, inl, inr, true, ltb, some, bit_or, ok, arith}
use boreal_os.Base.Store.{store_ne}
use boreal_os.Memory.Paging.{
  Machine, entry_at, pml4_index, pdp_index, pd_index, pt_index, next_table, or_zero,
  get_physical_address, clear_entry, unmap_page, page_offset,
}
use boreal_os.Memory.Paging.Entries.{indices}
use boreal_os.Memory.Paging.Tree.{
  Role, pdp, pd, pt, child, height, walk, path, AllSmall, used-of_height, get_physical_address-walk,
}
use boreal_os.Memory.Paging.Descend.{path-small}
use boreal_os.Memory.Paging.Map.{SamePage, part}
use boreal_os.Memory.Paging.Unmap.{
  clear_entry-IsCleared, IsUnmapped, unmap_page-IsUnmapped, unmap_page_lem,
}
use boreal_os.Memory.Paging.Shape.{IsShaped, Passes, walk-apart}
use boreal_os.Memory.Paging.Keeps.{Keeps, chain-Keeps, last-Keeps}

module _ {role : ℕ → Role} {pml4 : ℕ} (m : Machine) (shape : IsShaped role pml4 m) where
  root_deep : 2 ≤ height (role pml4)
  root_deep = omega (arith, ap height shape.top)

  -- The roles of the tables on the path of `u`.
  role_pdp : (u x : ℕ) → next_table m pml4 (pml4_index u) ≡ some x → role x ≡ pdp (pml4_index u)
  role_pdp u x e =
      shape.leads pml4 (pml4_index u) x (path-small u).0 root_deep e
      ∙ ap (λ r. child r (pml4_index u)) shape.top

  role_pd :
      (u x y : ℕ)
      → role x ≡ pdp (pml4_index u)
      → next_table m x (pdp_index u) ≡ some y
      → role y ≡ pd (pml4_index u) (pdp_index u)
  role_pd u x y r e =
      shape.leads x (pdp_index u) y (path-small u).1.0 (omega (arith, ap height r)) e
      ∙ ap (λ r. child r (pdp_index u)) r

  role_pt :
      (u y z : ℕ)
      → role y ≡ pd (pml4_index u) (pdp_index u)
      → next_table m y (pd_index u) ≡ some z
      → role z ≡ pt (pml4_index u) (pdp_index u) (pd_index u)
  role_pt u y z r e =
      shape.leads y (pd_index u) z (path-small u).1.1.0 (omega (arith, ap height r)) e
      ∙ ap (λ r. child r (pd_index u)) r

  pt_height :
      (v x table : ℕ)
      → role table ≡ pt (pml4_index v) (pdp_index v) (pd_index v)
      → x ≡ table
      → height (role x) ≡ 1
  pt_height v x table r a = ap (λ y. height (role y)) a ∙ ap height r

  -- The path of `u` leads through the entry of the page of `v` only if it is the path of `v`.
  Passes-same :
      (u v table : ℕ)
      → role table ≡ pt (pml4_index v) (pdp_index v) (pd_index v)
      → Passes m table (pt_index v) pml4 (path u)
      → SamePage u v
  Passes-same u v table r (inl (a, b)) =
      absurd (omega (arith, root_deep, pt_height v pml4 table r a))
  Passes-same u v table r (inr (x, e, inl (a, b))) =
      absurd (omega (arith, ap height (role_pdp u x e), pt_height v x table r a))
  Passes-same u v table r (inr (x, e, inr (y, f, inl (a, b)))) =
      absurd (omega (arith, ap height (role_pd u x y (role_pdp u x e) f), pt_height v y table r a))
  Passes-same u v table r (inr (x, e, inr (y, f, inr (z, g, inl (a, b))))) =
      let rz = role_pt u y z (role_pd u x y (role_pdp u x e) f) g in
      let same = sym rz ∙ ap role a ∙ r in
      let iu = indices u in
      let iv = indices v in
      let e4 = ap (part 0) same in
      let e3 = ap (part 1) same in let e2 = ap (part 2) same in omega arith
  Passes-same u v table r (inr (x, e, inr (y, f, inr (z, g, inr (w, k, p))))) = absurd p

  module _ (v : ℕ) (t : Machine) (h : IsUnmapped pml4 v m t) where
    small : AllSmall (path v)
    small = path-small v

    is_pdp : role h.pdp ≡ pdp (pml4_index v)
    is_pdp = role_pdp v h.pdp h.to_pdp

    pdp_deep : 2 ≤ height (role h.pdp)
    pdp_deep = omega (arith, ap height is_pdp)

    is_pd : role h.pd ≡ pd (pml4_index v) (pdp_index v)
    is_pd = role_pd v h.pdp h.pd is_pdp h.to_pd

    pd_deep : 2 ≤ height (role h.pd)
    pd_deep = omega (arith, ap height is_pd)

    is_pt : role h.pt ≡ pt (pml4_index v) (pdp_index v) (pd_index v)
    is_pt = role_pt v h.pd h.pt is_pd h.to_pt

    freed-Keeps : Keeps pml4 (clear_entry h.pt (pt_index v) m) t
    freed-Keeps =
        chain-Keeps m shape true h.pt h.pd (pd_index v) (clear_entry h.pt (pt_index v) m) t _
          pd_deep small.1.1.0 h.to_pt (clear_entry-IsCleared h.pt (pt_index v) m)
          (λ u c e.
            chain-Keeps m shape true h.pd h.pdp (pdp_index v) u t _ pdp_deep small.1.0 h.to_pd c
              (λ w d f.
                last-Keeps m shape (ltb (pml4_index v) 256) h.pdp pml4 (pml4_index v) w t root_deep
                  small.0 h.to_pdp d f)
              e)
          h.freed

    others-kept : (u : ℕ) → ¬ SamePage u v → walk t pml4 (path u) ≡ walk m pml4 (path u)
    others-kept u ne =
        freed-Keeps (path u) (path-small u) refl
        ∙ elim (walk-apart m (clear_entry h.pt (pt_index v) m) shape h.pt (pt_index v)
            (used-of_height (role h.pt) (omega (arith, ap height is_pt))) small.1.1.1.0
            (λ a n. store_ne m.words (entry_at h.pt (pt_index v)) 0 a n) pml4 (path u)
            (path-small u) (sym (ap height shape.top))) [
              | inl same ↦ same
              | inr p ↦ absurd (ne (Passes-same u v h.pt is_pt p))
            ]

-- When `UnmapPage` returns in a state whose tables form a tree, the page is not mapped any more, and
-- every other page leads where it led before.
pub unmap_page-others :
    (role : ℕ → Role) (pml4 v : ℕ) (m t : Machine)
    → IsShaped role pml4 m
    → unmap_page pml4 v m ≡ ok t
    → (get_physical_address pml4 v t ≡ 0)
      × ((u : ℕ) → ¬ SamePage u v → get_physical_address pml4 u t ≡ get_physical_address pml4 u m)
unmap_page-others role pml4 v m t shape e = (
  (unmap_page_lem pml4 v m t e).0,
  λ u ne.
      get_physical_address-walk pml4 u t
      ∙ ap (λ x. or_zero x (λ page. bit_or page (page_offset u)))
          (others-kept m shape v t (unmap_page-IsUnmapped pml4 v m t e) u ne)
      ∙ sym (get_physical_address-walk pml4 u m),
)
