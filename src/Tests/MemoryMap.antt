-- ===== src/Tests/MemoryMap.antt =====
-- A memory map with one usable MiB above the first.
use boreal_os.Base.{ℕ, ◌≡◌, ◌≢◌, refl, List, [], ◌∷◌, arith, ◌≤◌, ◌*◌, ◌%◌}
use boreal_os.Base.Store.{Store}
use boreal_os.Utility.Math.{align_up, align_down}
use boreal_os.Utility.Math.Align.{align_bounds}
use boreal_os.Memory.Pmm.Init.{
  Entry, place, valid_regions, bitmap_bytes, is_valid_entry, end_address, region_start, region_end,
  region_size,
}
use boreal_os.Memory.Pmm.Init.SetUp.{IsSetUp, set_up-IsSetUp, set_up-room, built, base_of}

abbrev map : List Entry
map = record { base = 0x100000; length = 0x100000; kind = 0 } ∷ []

abbrev blank : Store
blank a = 0

room : base_of map ≢ 0
unfolding place valid_regions bitmap_bytes is_valid_entry end_address region_start region_end
    region_size align_up align_down
room = omega arith

set_up_example : IsSetUp map (built map blank)
set_up_example =
    set_up-IsSetUp map blank (built map blank) (λ a. omega arith)
      ((λ e. record { starts = refl; measures = refl; reaches = omega arith }), tt) ((λ e. tt), tt)
      (set_up-room map blank room)

align_bounds_example :
    (5000 ≤ align_up 5000 4096)
    × ((m : ℕ) → 5000 ≤ m * 4096 → align_up 5000 4096 ≤ m * 4096)
    × (align_up 5000 4096 % 4096 ≡ 0)
    × (align_down 5000 4096 ≤ 5000)
    × ((m : ℕ) → m * 4096 ≤ 5000 → m * 4096 ≤ align_down 5000 4096)
    × (align_down 5000 4096 % 4096 ≡ 0)
align_bounds_example = align_bounds 52 12 refl 5000 (omega arith)
