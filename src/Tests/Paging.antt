-- ===== src/Tests/Paging.antt =====
-- An empty address space in frame 256 of the machine of Tests/Pmm, and a page mapped into it.
use boreal_os.Base.{ℕ, ◌*◌, ◌≡◌, true, ◌==◌, if◌then◌else◌, arith}
use boreal_os.Memory.Pmm.{page_size, take_run, allocated_at}
use boreal_os.Memory.Paging.{Machine, find_available_range}
use boreal_os.Memory.Paging.Range.{page_at, Ranged, find_available_range_lem}
use boreal_os.Memory.Paging.Copy.{reserve_higher_half_pml4_slots}
use boreal_os.Memory.Paging.Copy.Slot.{IsHeld}
use boreal_os.Memory.Paging.Copy.Reserve.{Reserved, reserve_higher_half_pml4_slots_lem}
use boreal_os.Memory.Paging.Tree.{Role, root, unused}
use boreal_os.Tests.Pmm.{one_taken, one_taken-IsValid, one_taken-mark}

abbrev pml4 : ℕ
pml4 = 256 * page_size

abbrev empty : Machine
empty = record { pmm = one_taken; words = λ a. 0 }

abbrev role : ℕ → Role
role u = if u == pml4 then root else unused

taken : (p : ℕ) → p ≡ 256 → allocated_at one_taken p ≡ true
taken p e = rw e one_taken-mark

empty-IsHeld : IsHeld 256 empty
unfolding take_run
empty-IsHeld = record { valid = one_taken-IsValid; narrow = omega arith; taken = one_taken-mark }

reserve_higher_half_pml4_slots_example :
    Reserved 256 256 512 empty (reserve_higher_half_pml4_slots (256 * page_size) empty)
reserve_higher_half_pml4_slots_example = reserve_higher_half_pml4_slots_lem 256 empty empty-IsHeld

find_available_range_example :
    Ranged pml4 0x7000 4 2 empty (find_available_range 5 pml4 0x7000 (page_at 0x7000 4) 2 empty)
find_available_range_example =
    find_available_range_lem 5 pml4 0x7000 4 2 empty (omega arith) (omega arith) (omega arith)
