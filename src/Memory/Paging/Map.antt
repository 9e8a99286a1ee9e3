-- ===== src/Memory/Paging/Map.antt =====
-- `MapPage`: afterwards the page is found at its physical address, and every other page where it was.
use boreal_os.Base.{
  ℕ, ◌+◌, ◌/◌, ◌%◌, ◌^◌, ◌<◌, ◌≡◌, ap, ◌==◌, if◌then◌else◌, bit_and, bit_or, Outcome, ok,
}
use boreal_os.Memory.Pmm.{page_size}
use boreal_os.Memory.Paging.{
  Machine, present, pointer_mask, descend, get_physical_address, pt_index,
}
use boreal_os.Memory.Paging.Entries.{IsFrame, IsFlags}
use boreal_os.Memory.Paging.Tree.{Role, unused, root, pdp, pd, pt, height, IsTree}
use boreal_os.Memory.Paging.Write.{written}
use boreal_os.Memory.Paging.Descend.{Descended, path-small}

-- The indices in a role.
abbrev pub part : ℕ → Role → ℕ
part n unused = 0
part n root = 0
part n (pdp i) = i
part n (pd i j) = if n == 0 then i else j
part n (pt i j k) = if n == 0 then i else if n == 1 then j else k

-- Two addresses lie in the same page of the 48-bit space.
abbrev pub SamePage : ℕ → ℕ → Type 0
SamePage v w = v / page_size % 2 ^ 36 ≡ w / page_size % 2 ^ 36

-- The state after `MapPage`: the page leads to the physical page, every other page where it led.
pub record Mapped (pml4 v p : ℕ) (m : Machine) (o : Outcome Machine) : Type 0 where
  pub after : Machine
  pub returns : o ≡ ok after
  pub roles : ℕ → Role
  pub tree : IsTree roles pml4 after
  pub was_free : get_physical_address pml4 v m ≡ 0
  pub here : (w : ℕ) → SamePage v w → get_physical_address pml4 w after ≡ p + w % page_size
  pub elsewhere :
      (w : ℕ) → ¬ SamePage v w → get_physical_address pml4 w after ≡ get_physical_address pml4 w m

module _ {role : ℕ → Role} {pml4 : ℕ} {m : Machine} (tree : IsTree role pml4 m) (v p flags : ℕ)
    (v_aligned : v % page_size ≡ 0) (p_frame : IsFrame p) (clear : IsFlags flags)
    (d : Descended role pml4 v m (descend pml4 v m)) where
  abbrev i1 : ℕ
  i1 = pt_index v

  i1_small : i1 < 512
  i1_small = (path-small v).1.1.1.0

  abbrev entry : ℕ
  entry = bit_or (bit_and p pointer_mask) (bit_or flags present)

  lowest_height : height (d.roles d.table) ≡ 1
  lowest_height = ap height d.lowest

  abbrev done : Machine
  done = written d.tree d.table i1 entry i1_small lowest_height
