-- ===== src/Memory/Pmm/Init/Place.antt =====
-- The choice of the memory for the bitmaps: it is taken out of the regions.
use boreal_os.Base.{
  ℕ, ◌+◌, ◌-◌, ◌*◌, ◌%◌, ◌^◌, ◌≤◌, ◌<◌, ◌≡◌, ◌≢◌, refl, ◌∙◌, ◌⊎◌, inl, inr, true, List, [], ◌∷◌,
  arith,
}
use native.Mathlib.Decide.{dec_lt}
use boreal_os.Utility.Math.Align.{align_up-eq, align_down-eq}
use boreal_os.Memory.Pmm.{page_size}
use boreal_os.Memory.Pmm.Init.{Region, region_start, region_end, region_size, place}
use boreal_os.Memory.Pmm.Init.Fill.{in_regions, AllAligned}

-- A region of whole pages that fits the physical address space.
pub record IsWhole (r : Region) : Type 0 where
  pub starts : r.addr % page_size ≡ 0
  pub measures : r.length % page_size ≡ 0
  pub reaches : r.addr + r.length ≤ 2 ^ 52

abbrev pub AllWhole : List Region → Type 0
AllWhole [] = Unit
AllWhole (r ∷ rs) = IsWhole r × AllWhole rs

abbrev pub Apart : Region → Region → Type 0
Apart r s = (r.addr + r.length ≤ s.addr) ⊎ (s.addr + s.length ≤ r.addr)

abbrev pub ApartFrom : Region → List Region → Type 0
ApartFrom r [] = Unit
ApartFrom r (s ∷ ss) = Apart r s × ApartFrom r ss

abbrev pub Separate : List Region → Type 0
Separate [] = Unit
Separate (r ∷ rs) = ApartFrom r rs × Separate rs

module _ (r : Region) (whole : IsWhole r) where
  pub region_start-whole : region_start r ≡ r.addr
  unfolding region_start
  region_start-whole =
      align_up-eq 52 12 refl r.addr (omega (arith, whole.reaches)) ∙ omega (arith, whole.starts)

  pub region_end-whole : region_end r ≡ r.addr + r.length
  unfolding region_end
  region_end-whole =
      let e : (r.addr + r.length) % 2 ^ 64 ≡ r.addr + r.length = omega (arith, whole.reaches) in
      rw e (
        align_down-eq 52 12 refl (r.addr + r.length) (omega (arith, whole.reaches))
        ∙ omega (arith, whole.starts, whole.measures))

  region_size-whole : region_size r ≡ r.length
  unfolding region_size
  region_size-whole = ground (arith, region_start-whole, region_end-whole)

pub AllWhole-AllAligned : (rs : List Region) → AllWhole rs → AllAligned rs
AllWhole-AllAligned [] w = tt
AllWhole-AllAligned (r ∷ rs) (one, all) = (
  (
    omega (arith, region_start-whole r one, one.starts),
    omega (arith, region_end-whole r one, one.starts, one.measures),
  ),
  AllWhole-AllAligned rs all,
)

-- A range of addresses and the page `q` do not meet.
abbrev pub Clear : ℕ → ℕ → ℕ → Type 0
Clear start size q = (q * page_size + page_size ≤ start) ⊎ (start + size ≤ q * page_size)

-- A page of other regions does not meet a region that is apart from them.
page_apart :
    (r : Region) (rs : List Region) (q : ℕ)
    → IsWhole r
    → AllWhole rs
    → ApartFrom r rs
    → in_regions rs q ≡ true
    → Clear r.addr r.length q
page_apart r [] q w all apart h = cc
page_apart r (s ∷ rs) q w (one, all) (now, later) h = ground (
  arith,
  page_apart r rs q w all later,
  region_start-whole s one,
  region_end-whole s one,
  w.starts,
  w.measures,
  one.starts,
  one.measures,
)

-- The range of `need` bytes from `start` lies in a region of the list.
abbrev Holds : ℕ → ℕ → List Region → Type 0
Holds start need [] = ⊥
Holds start need (r ∷ rs) =
    ((r.addr ≤ start) × (start + need ≤ r.addr + r.length)) ⊎ Holds start need rs

Holds-apart :
    (r : Region) (rs : List Region) (start need : ℕ)
    → ApartFrom r rs
    → Holds start need rs
    → (r.addr + r.length ≤ start) ⊎ (start + need ≤ r.addr)
Holds-apart r [] start need apart h = elim h [ ]
Holds-apart r (s ∷ rs) start need (now, later) (inl h) = omega arith
Holds-apart r (s ∷ rs) start need (now, later) (inr h) = Holds-apart r rs start need later h

-- What `place` gives when it finds room.
pub record IsPlaced (need : ℕ) (rs : List Region) (start : ℕ) (left : List Region) : Type 0 where
  pub whole : AllWhole left
  pub aligned : start % page_size ≡ 0
  pub holds : Holds start need rs
  pub kept : (q : ℕ) → in_regions left q ≡ true → in_regions rs q ≡ true
  pub clear : (q : ℕ) → in_regions left q ≡ true → Clear start need q

module _ (need : ℕ) (pages : need % page_size ≡ 0) where
  -- The first region has room.
  place_here :
      (r : Region) (rs : List Region)
      → AllWhole (r ∷ rs)
      → Separate (r ∷ rs)
      → need ≤ r.length
      → IsPlaced need
          (r ∷ rs)
          r.addr
          (record { addr = r.addr + need; length = r.length - need } ∷ rs)
  place_here r rs (one, all) (apart, sep) room = record {
    whole = (shorter, all);
    aligned = one.starts;
    holds = inl (omega arith);
    kept = λ q h. ground (
      arith,
      region_start-whole r one,
      region_end-whole r one,
      region_start-whole _ shorter,
      region_end-whole _ shorter,
    );
    clear = λ q h. ground (
      arith,
      page_apart r rs q one all apart,
      region_start-whole _ shorter,
      region_end-whole _ shorter,
    );
  }
    where
      shorter : IsWhole (record { addr = r.addr + need; length = r.length - need })
      shorter = record {
        starts = omega (arith, one.starts);
        measures = omega (arith, one.measures);
        reaches = omega (arith, one.reaches);
      }

  -- Another region has room.
  place_later :
      (r : Region) (rs : List Region) (start : ℕ) (left : List Region)
      → AllWhole (r ∷ rs)
      → Separate (r ∷ rs)
      → IsPlaced need rs start left
      → IsPlaced need (r ∷ rs) start (r ∷ left)
  place_later r rs start left (one, all) (apart, sep) p = record {
    whole = (one, p.whole);
    aligned = p.aligned;
    holds = inr p.holds;
    kept = λ q h. ground (arith, p.kept q);
    clear = λ q h. ground (
      arith,
      p.clear q,
      Holds-apart r rs start need apart p.holds,
      region_start-whole r one,
      region_end-whole r one,
      one.starts,
      one.measures,
      p.aligned,
    );
  }

  place_fits :
      (r : Region) (rs : List Region)
      → AllWhole (r ∷ rs)
      → need ≤ r.length
      → place need (r ∷ rs)
        ≡ (r.addr, record { addr = r.addr + need; length = r.length - need } ∷ rs)
  unfolding place
  place_fits r rs (one, all) room =
      ground (arith, region_start-whole r one, region_size-whole r one, one.reaches)

  place_skips :
      (r : Region) (rs : List Region)
      → AllWhole (r ∷ rs)
      → r.length < need
      → place need (r ∷ rs) ≡ ((place need rs).0, r ∷ (place need rs).1)
  unfolding place
  place_skips r rs (one, all) room = ground (arith, region_size-whole r one)

  -- Where room is found, it is taken out of the regions, whose pages then stay clear of it.
  pub place-IsPlaced :
      (rs : List Region)
      → AllWhole rs
      → Separate rs
      → (place need rs).0 ≢ 0
      → IsPlaced need rs (place need rs).0 (place need rs).1
  place-IsPlaced [] w s ne = absurd (ne (unfold place in refl))
  place-IsPlaced (r ∷ rs) w s ne = elim (dec_lt r.length need) [
    | yes short ↦ rw (place_skips r rs w short) (
        place_later r rs (place need rs).0 (place need rs).1 w s
          (place-IsPlaced rs w.1 s.1 (rw (place_skips r rs w short) at ne)))
    | no room ↦
        let fits : need ≤ r.length = omega arith in
        rw (place_fits r rs w fits) (place_here r rs w s fits)
  ]
