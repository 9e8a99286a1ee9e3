-- ===== src/Memory/Paging/Tree.antt =====
-- The tables of a state as a tree: every frame has one role, and an entry leads to the table whose
-- role it stands for. A walk through the tree ends at the role that spells its indices.
use boreal_os.Base.{
  ℕ, ◌+◌, ◌*◌, ◌%◌, ◌^◌, ◌≤◌, ◌<◌, ◌≡◌, ◌≢◌, refl, ap, ◌⊎◌, true, false, Option, none, some, List,
  [], ◌∷◌, bit_and, bit_or, length, arith,
}
use boreal_os.Memory.Pmm.{Pmm, page_size, allocated_at}
use boreal_os.Memory.Pmm
use boreal_os.Memory.Paging.{
  Machine, entry_at, is_present, pointer_mask, next_table, or_zero, get_physical_address,
  pml4_index, pdp_index, pd_index, pt_index, page_offset,
}
use boreal_os.Memory.Paging.Entries.{is_present-zero}

-- What a frame is to the tree: the indices that lead to it, from the root.
pub data Role : Type 0 where
  unused : Role
  root : Role
  pdp : (i : ℕ) → Role
  pd : (i j : ℕ) → Role
  pt : (i j k : ℕ) → Role

abbrev pub child : Role → ℕ → Role
child unused i = unused
child root i = pdp i
child (pdp i) j = pd i j
child (pd i j) k = pt i j k
child (pt i j k) l = unused

-- The number of walk steps from a table down to a page.
abbrev pub height : Role → ℕ
height unused = 0
height root = 4
height (pdp i) = 3
height (pd i j) = 2
height (pt i j k) = 1

pub record IsTree (role : ℕ → Role) (pml4 : ℕ) (m : Machine) : Type 0 where
  pub valid : Pmm.IsValid m.pmm
  pub narrow : m.pmm.frame_count * page_size ≤ 2 ^ 52
  pub top : role pml4 ≡ root
  pub aligned : (t : ℕ) → t % page_size ≢ 0 → role t ≡ unused
  pub fresh : (p : ℕ) → allocated_at m.pmm p ≡ false → role (p * page_size) ≡ unused
  pub down :
      (t i : ℕ)
      → i < 512
      → 2 ≤ height (role t)
      → (m.words (entry_at t i) ≡ 0)
        ⊎ ((is_present (m.words (entry_at t i)) ≡ true)
            × (role (bit_and (m.words (entry_at t i)) pointer_mask) ≡ child (role t) i))

-- The walk of the hardware along a list of indices.
unfoldable pub walk : Machine → ℕ → List ℕ → Option ℕ
walk m t [] = some t
walk m t (i ∷ is) = elim (next_table m t i) [ none ↦ none | some u ↦ walk m u is ]

abbrev pub path : ℕ → List ℕ
path v = pml4_index v ∷ pdp_index v ∷ pd_index v ∷ pt_index v ∷ []

-- `GetPhysicalAddress` is the walk, with 0 for a missing entry.
pub get_physical_address-walk :
    (pml4 v : ℕ) (m : Machine)
    → get_physical_address pml4 v m
      ≡ or_zero (walk m pml4 (path v)) (λ page. bit_or page (page_offset v))
unfolding get_physical_address walk
get_physical_address-walk pml4 v m = ground arith

-- A step from a table of the tree stays in the tree.
module _ {role : ℕ → Role} {pml4 : ℕ} {m : Machine} (tree : IsTree role pml4 m) where
  pub next_table-role :
      (t i u : ℕ)
      → i < 512
      → 2 ≤ height (role t)
      → next_table m t i ≡ some u
      → role u ≡ child (role t) i
  unfolding next_table
  next_table-role t i u h deep e = ground (arith, tree.down t i h deep, is_present-zero)

pub height-child : (r : Role) (i : ℕ) → 2 ≤ height r → height (child r i) + 1 ≡ height r
height-child unused i h = absurd (omega arith)
height-child root i h = refl
height-child (pdp j) i h = refl
height-child (pd j k) i h = refl
height-child (pt j k l) i h = absurd (omega arith)

abbrev pub AllSmall : List ℕ → Type 0
AllSmall [] = Unit
AllSmall (i ∷ is) = (i < 512) × AllSmall is

pub child-used : (r : Role) (i : ℕ) → 2 ≤ height r → child r i ≢ unused
child-used r i h e = absurd (omega (arith, height-child r i h, ap height e))

pub used-of_height : (r : Role) → 1 ≤ height r → r ≢ unused
used-of_height r h e = absurd (omega (arith, ap height e))

module _ (m : Machine) (t i : ℕ) (is : List ℕ) where
  pub walk-some : {u : ℕ} → next_table m t i ≡ some u → walk m t (i ∷ is) ≡ walk m u is
  unfolding walk
  walk-some e = rw (e, walk)

  pub walk-none : next_table m t i ≡ none → walk m t (i ∷ is) ≡ none
  unfolding walk
  walk-none e = rw (e, walk)

pub walk_empty :
    (m n : Machine) (t : ℕ) (is : List ℕ) → ¬ (0 < length is) → walk m t is ≡ walk n t is
unfolding walk
walk_empty m n t [] h = refl
walk_empty m n t (i ∷ is) h = absurd (omega arith)
