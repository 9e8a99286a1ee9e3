-- ===== src/Memory/Pmm/Init/Entries.antt =====
-- The entries of the memory map: what the boot protocol promises of them, and what that says of
-- the regions that `Initialize` collects.
use boreal_os.Base.{
  ℕ, ◌+◌, ◌*◌, ◌%◌, ◌^◌, ◌≤◌, ◌≡◌, ◌⊎◌, inl, inr, Bool, true, false, ◌&&◌, ◌||◌, ltb, if◌then◌else◌,
  Bool-cases, List, [], ◌∷◌, arith, add64,
}
use boreal_os.Memory.Pmm.{page_size}
use boreal_os.Memory.Pmm.Init.{
  Entry, Region, usable_kind, is_valid_entry, valid_regions, end_address,
}
use boreal_os.Memory.Pmm.Init.Fill.{in_region, in_regions}
use boreal_os.Memory.Pmm.Init.Place.{
  IsWhole, AllWhole, ApartFrom, Separate, region_start-whole, region_end-whole,
}

-- What the boot protocol promises of its usable entries: whole pages below 2^52, that do not
-- overlap.
pub record IsRegular (e : Entry) : Type 0 where
  pub starts : e.base % page_size ≡ 0
  pub measures : e.length % page_size ≡ 0
  pub reaches : e.base + e.length ≤ 2 ^ 52

abbrev pub AllRegular : List Entry → Type 0
AllRegular [] = Unit
AllRegular (e ∷ es) = (e.kind ≡ usable_kind → IsRegular e) × AllRegular es

abbrev pub ApartFromEntries : Entry → List Entry → Type 0
ApartFromEntries e [] = Unit
ApartFromEntries e (f ∷ fs) =
    (f.kind ≡ usable_kind → (e.base + e.length ≤ f.base) ⊎ (f.base + f.length ≤ e.base))
    × ApartFromEntries e fs

abbrev pub NoOverlap : List Entry → Type 0
NoOverlap [] = Unit
NoOverlap (e ∷ es) = (e.kind ≡ usable_kind → ApartFromEntries e es) × NoOverlap es

-- The page lies whole in a usable entry.
abbrev pub InUsable : ℕ → List Entry → Type 0
InUsable q [] = ⊥
InUsable q (e ∷ es) =
    ((e.kind ≡ usable_kind)
      × (e.base ≤ q * page_size)
      × (q * page_size + page_size ≤ e.base + e.length))
    ⊎ InUsable q es

is_valid_entry-usable : (e : Entry) → is_valid_entry e ≡ true → e.kind ≡ usable_kind
unfolding is_valid_entry
is_valid_entry-usable e h = ground arith

-- The region that is collected for an entry.
abbrev region_of : Entry → Region
region_of e = record { addr = e.base; length = e.length }

entry-IsWhole :
    (e : Entry)
    → (e.kind ≡ usable_kind → IsRegular e)
    → is_valid_entry e ≡ true
    → IsWhole (region_of e)
entry-IsWhole e one valid =
    let g = one (is_valid_entry-usable e valid) in
    record { starts = g.starts; measures = g.measures; reaches = g.reaches }

pub valid_regions-AllWhole : (es : List Entry) → AllRegular es → AllWhole (valid_regions es)
unfolding valid_regions
valid_regions-AllWhole [] r = tt
valid_regions-AllWhole (e ∷ es) (one, all) = elim (Bool-cases (is_valid_entry e)) [
  | inl valid ↦ rw valid (entry-IsWhole e one valid, valid_regions-AllWhole es all)
  | inr other ↦ rw other (valid_regions-AllWhole es all)
]

valid_regions-ApartFrom :
    (e : Entry) (es : List Entry)
    → ApartFromEntries e es
    → ApartFrom (record { addr = e.base; length = e.length }) (valid_regions es)
unfolding valid_regions
valid_regions-ApartFrom e [] a = tt
valid_regions-ApartFrom e (f ∷ fs) (now, later) = elim (Bool-cases (is_valid_entry f)) [
  | inl valid ↦ rw valid (now (is_valid_entry-usable f valid), valid_regions-ApartFrom e fs later)
  | inr other ↦ rw other (valid_regions-ApartFrom e fs later)
]

pub valid_regions-Separate : (es : List Entry) → NoOverlap es → Separate (valid_regions es)
unfolding valid_regions
valid_regions-Separate [] n = tt
valid_regions-Separate (e ∷ es) (now, later) = elim (Bool-cases (is_valid_entry e)) [
  | inl valid ↦ rw valid (
    valid_regions-ApartFrom e es (now (is_valid_entry-usable e valid)),
    valid_regions-Separate es later,
  )
  | inr other ↦ rw other (valid_regions-Separate es later)
]

or_false : (b c : Bool) → b ≡ false → (b || c) ≡ true → c ≡ true
or_false true c h e = cc
or_false false c h e = e

next_top :
    (e : Entry) (top : ℕ)
    → top ≤ 2 ^ 52
    → (e.kind ≡ usable_kind → IsRegular e)
    → (if is_valid_entry e && ltb top (add64 e.base e.length) then add64 e.base e.length else top)
      ≤ 2 ^ 52
next_top e top h one = elim (Bool-cases (is_valid_entry e)) [
  | inl valid ↦ ground (arith, (entry-IsWhole e one valid).reaches)
  | inr other ↦ ground arith
]

-- A page of a collected region lies in the entry.
entry-InUsable :
    (q : ℕ) (e : Entry)
    → IsWhole (region_of e)
    → is_valid_entry e ≡ true
    → in_region (region_of e) q ≡ true
    → (e.kind ≡ usable_kind)
      × (e.base ≤ q * page_size)
      × (q * page_size + page_size ≤ e.base + e.length)
entry-InUsable q e w valid h = ground (
  arith,
  is_valid_entry-usable e valid,
  region_start-whole (region_of e) w,
  region_end-whole (region_of e) w,
  w.starts,
  w.measures,
)

pub valid_regions-InUsable :
    (q : ℕ) (es : List Entry)
    → AllRegular es
    → in_regions (valid_regions es) q ≡ true
    → InUsable q es
unfolding valid_regions
valid_regions-InUsable q [] r h = cc
valid_regions-InUsable q (e ∷ es) (one, all) h = elim (Bool-cases (is_valid_entry e)) [
  | inl valid ↦ elim (Bool-cases (in_region (region_of e) q)) [
    | inl here ↦ inl (entry-InUsable q e (entry-IsWhole e one valid) valid here)
    | inr later ↦ inr (valid_regions-InUsable q es all (or_false _ _ later (rw valid at h)))
  ]
  | inr other ↦ inr (valid_regions-InUsable q es all (rw other at h))
]

pub end_address-le :
    (top : ℕ) (es : List Entry) → top ≤ 2 ^ 52 → AllRegular es → end_address top es ≤ 2 ^ 52
unfolding end_address
end_address-le top [] h r = h
end_address-le top (e ∷ es) h (one, all) =
    end_address-le
      (if is_valid_entry e && ltb top (add64 e.base e.length) then add64 e.base e.length else top)
      es (next_top e top h one) all
