-- ===== src/Firmware/Acpi/Entries.antt =====
-- The two walks over the entries agree, and end, where no entry has length 0.
use boreal_os.Base.{
  ℕ, zero, suc, ◌+◌, ◌-◌, ◌≤◌, ◌<◌, ◌≡◌, refl, ◌∙◌, ap, true, false, ltb, ◌==◌, ==_iff, Bool-cases,
  if◌then◌else◌, Option, some, arith, inl, inr,
}
use native.Mathlib.Decide.{ℕ_discrete}
use boreal_os.Base.Store.{Store}
use boreal_os.Firmware.Acpi.{
  read_u32, madt_size, count_loop, find_madt_entry_count, find_loop, find_madt_entry,
}

-- An index is found just if it lies below the count, at an entry of the type inside the table.
pub record Agree (count : Option ℕ) (before : ℕ) (find : ℕ → Option ℕ) (first end type : ℕ)
    (m : Store) : Type 0 where
  pub found : ℕ
  pub counted : count ≡ some (before + found)
  pub beyond : (index : ℕ) → found ≤ index → find index ≡ some 0
  pub inside :
      (index : ℕ)
      → index < found
      → (a : ℕ) × (find index ≡ some a) × (first ≤ a) × (a < end) × (m a ≡ type)

-- The addresses where the entries of a walk that begins at `first` stand, one behind the other.
pub data EntryAt (m : Store) (first : ℕ) : ℕ → Type 0 where
  first_entry : EntryAt m first first
  following : {a : ℕ} → EntryAt m first a → EntryAt m first (a + m (a + 1))

-- One round of either walk.
module _ (fuel current end type : ℕ) (m : Store) where
  count-over :
      (before : ℕ)
      → ltb current end ≡ false
      → count_loop (suc fuel) current end type before m ≡ some before
  unfolding count_loop
  count-over before over = rw (over, count_loop) refl

  find-over :
      (index : ℕ) → ltb current end ≡ false → find_loop (suc fuel) current end type index m ≡ some 0
  unfolding find_loop
  find-over index over = rw (over, find_loop) refl

  module _ (more : ltb current end ≡ true) where
    abbrev next : ℕ
    next = current + m (current + 1)

    count-more :
        (before : ℕ)
        → count_loop (suc fuel) current end type before m
          ≡ count_loop fuel next end type (if m current == type then before + 1 else before) m
    unfolding count_loop
    count-more before = rw (more, count_loop) refl

    find-miss :
        (index : ℕ)
        → (m current == type) ≡ false
        → find_loop (suc fuel) current end type index m ≡ find_loop fuel next end type index m
    unfolding find_loop
    find-miss index miss = rw (more, miss, find_loop) refl

    find-hit : (m current == type) ≡ true → find_loop (suc fuel) current end type 0 m ≡ some current
    unfolding find_loop
    find-hit hit = rw (more, hit, find_loop) refl

    find-later :
        (index : ℕ)
        → (m current == type) ≡ true
        → 0 < index
        → find_loop (suc fuel) current end type index m ≡ find_loop fuel next end type (index - 1) m
    unfolding find_loop
    find-later index hit pos =
        let later : (index == 0) ≡ false = ground arith in rw (more, hit, later, find_loop) refl

module _ (first end type : ℕ) (m : Store)
    (advance : (a : ℕ) → EntryAt m first a → a < end → 0 < m (a + 1)) where
  walks-Agree :
      (fuel current before : ℕ)
      → EntryAt m first current
      → 0 < fuel
      → end < current + fuel
      → Agree
          (count_loop fuel current end type before m)
          before
          (λ index. find_loop fuel current end type index m)
          current
          end
          type
          m
  walks-Agree zero current before entry pos enough = absurd (omega arith)
  walks-Agree (suc fuel) current before entry pos enough = elim (Bool-cases (ltb current end)) [
    | inr over ↦ record {
      found = 0;
      counted = count-over fuel current end type m before over ∙ ap some (omega arith);
      beyond = λ index h. find-over fuel current end type m index over;
      inside = λ index h. absurd (omega arith);
    }
    | inl more ↦
        let lt : current < end = ground arith in
        let step = advance current entry lt in
        elim (Bool-cases (m current == type)) [
          | inr miss ↦
              let r =
                walks-Agree fuel (current + m (current + 1)) before (following entry) (omega arith)
                  (omega arith) in
              record {
                found = r.found;
                counted = count-more fuel current end type m more before ∙ rw miss r.counted;
                beyond =
                    λ index h. find-miss fuel current end type m more index miss ∙ r.beyond index h;
                inside = λ index h.
                    let (a, e, low, high, is_type) = r.inside index h in
                    (
                      a,
                      find-miss fuel current end type m more index miss ∙ e,
                      omega arith,
                      high,
                      is_type,
                    );
              }
          | inl hit ↦
              let r =
                walks-Agree fuel (current + m (current + 1)) (before + 1) (following entry)
                  (omega arith) (omega arith) in
              record {
                found = r.found + 1;
                counted =
                    count-more fuel current end type m more before
                    ∙ rw hit (r.counted ∙ ap some (omega arith));
                beyond = λ index h.
                    find-later fuel current end type m more index hit (omega arith)
                    ∙ r.beyond (index - 1) (omega arith);
                inside = λ index h. elim (ℕ_discrete index 0) [
                  | yes e ↦ rw e (
                    current,
                    find-hit fuel current end type m more hit,
                    omega arith,
                    lt,
                    (==_iff _ _).0 hit,
                  )
                  | no ne ↦
                      let (a, e, low, high, is_type) = r.inside (index - 1) (omega arith) in
                      (
                        a,
                        find-later fuel current end type m more index hit (omega arith) ∙ e,
                        omega arith,
                        high,
                        is_type,
                      )
                ];
              }
        ]
  ]

-- For a table in which no entry has length 0, both walks end, given fuel for its length and one round
-- more; and an index leads to an entry of the type inside the table just if it lies below the count.
pub find_madt_entry_lem :
    (fuel madt type : ℕ) (m : Store)
    → ((a : ℕ) → EntryAt m (madt + madt_size) a → a < madt + read_u32 (madt + 4) m → 0 < m (a + 1))
    → read_u32 (madt + 4) m < fuel
    → Agree
        (find_madt_entry_count fuel madt type m)
        0
        (λ index. find_madt_entry fuel madt type index m)
        (madt + madt_size)
        (madt + read_u32 (madt + 4) m)
        type
        m
unfolding find_madt_entry_count find_madt_entry
find_madt_entry_lem fuel madt type m advance enough =
    walks-Agree (madt + madt_size) (madt + read_u32 (madt + 4) m) type m advance fuel
      (madt + madt_size) 0 first_entry (omega arith) (omega arith)
