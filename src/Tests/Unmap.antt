-- ===== src/Tests/Unmap.antt =====
-- Two pages mapped by the first and the second entry of one table; the second one is unmapped.
use native.Mathlib.Decide.{ℕ_discrete}
use boreal_os.Base.{
  ℕ, ◌≢◌, ◌<◌, ◌≤◌, arith, sym, ◌∙◌, ap, some, ◌+◌, ◌*◌, ◌≡◌, refl, ◌==◌, if◌then◌else◌, ok,
}
use boreal_os.Base.Store.{store}
use boreal_os.Memory.Paging.{
  Machine, pml4_index, pdp_index, pd_index, pt_index, is_present, next_table, is_table_empty,
  clear_entry, release_table, unmap_page, get_physical_address,
}
use boreal_os.Memory.Paging.Tree.{Role, unused, root, pdp, pd, pt, child, height}
use boreal_os.Memory.Paging.Map.{SamePage}
use boreal_os.Memory.Paging.Shape.{IsShaped, some-none}
use boreal_os.Memory.Paging.Unmap.{next_table-zero}
use boreal_os.Memory.Paging.Release.{unmap_page-others}
use boreal_os.Tests.Pmm.{one_taken}

abbrev pml4 : ℕ
pml4 = 256 * 4096

abbrev two_pages : Machine
two_pages = record {
  pmm = one_taken;
  words = λ a.
      if a == pml4
      then 300 * 4096 + 7
      else if a == 300 * 4096
      then 301 * 4096 + 7
      else if a == 301 * 4096
      then 302 * 4096 + 7
      else if a == 302 * 4096
      then 0x5007
      else if a == 302 * 4096 + 8
      then 0x6007
      else 0;
}

abbrev one_page : Machine
one_page = clear_entry (302 * 4096) 1 two_pages

unmaps : unmap_page pml4 0x1000 two_pages ≡ ok one_page
unfolding unmap_page next_table pml4_index pdp_index pd_index pt_index is_present release_table
    is_table_empty store
unmaps = refl

unfoldable role : ℕ → Role
role t =
    if t == pml4
    then root
    else if t == 300 * 4096
    then pdp 0
    else if t == 301 * 4096
    then pd 0 0
    else if t == 302 * 4096
    then pt 0 0 0
    else unused

same_some : (a b : ℕ) → some a ≡ some b → a ≡ b
same_some a b e = cc

-- A table with one entry, the first.
one_entry :
    (t below : ℕ)
    → next_table two_pages t 0 ≡ some below
    → ((i : ℕ) → i < 512 → i ≢ 0 → two_pages.words (t + 8 * i) ≡ 0)
    → (i u : ℕ) → i < 512
    → next_table two_pages t i ≡ some u
    → (i ≡ 0) × (u ≡ below)
one_entry t below first rest i u si e = elim (ℕ_discrete i 0) [
  | yes a ↦ (a, same_some u below (sym e ∙ ap (λ k. next_table two_pages t k) a ∙ first))
  | no a ↦ absurd (some-none u (sym e ∙ next_table-zero two_pages t i (rest i si a)))
]

leads_first :
    (t below i u : ℕ)
    → next_table two_pages t 0 ≡ some below
    → ((i : ℕ) → i < 512 → i ≢ 0 → two_pages.words (t + 8 * i) ≡ 0)
    → role below ≡ child (role t) 0
    → i < 512
    → next_table two_pages t i ≡ some u
    → role u ≡ child (role t) i
leads_first t below i u first rest r si e =
    let (a, b) = one_entry t below first rest i u si e in rw (a, b) r

-- Where the tables above the last one lead.
first_entry :
    (t i u : ℕ)
    → i < 512
    → 2 ≤ height (role t)
    → next_table two_pages t i ≡ some u
    → role u ≡ child (role t) i
unfolding role next_table is_present
first_entry t i u si deep e = elim (ℕ_discrete t pml4) [
  | yes a ↦
      leads_first t (300 * 4096) i u (rw a refl) (λ k sk nk. ground (arith, a)) (rw a refl) si e
  | no a ↦ elim (ℕ_discrete t (300 * 4096)) [
    | yes b ↦
        leads_first t (301 * 4096) i u (rw b refl) (λ k sk nk. ground (arith, b)) (rw b refl) si e
    | no b ↦ elim (ℕ_discrete t (301 * 4096)) [
      | yes c ↦
          leads_first t (302 * 4096) i u (rw c refl) (λ k sk nk. ground (arith, c)) (rw c refl) si e
      | no c ↦ absurd (ground (arith, deep))
    ]
  ]
]

two_pages-IsShaped : IsShaped role pml4 two_pages
unfolding role
two_pages-IsShaped = record { top = refl; aligned = λ t h. ground arith; leads = first_entry }

unmap_page_example :
    (get_physical_address pml4 0x1000 one_page ≡ 0)
    × ((u : ℕ)
        → ¬ SamePage u 0x1000
        → get_physical_address pml4 u one_page ≡ get_physical_address pml4 u two_pages)
unmap_page_example = unmap_page-others role pml4 0x1000 two_pages one_page two_pages-IsShaped unmaps
