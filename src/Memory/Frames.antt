-- ===== src/Memory/Frames.antt =====
-- What the frame allocator promises its callers, without bitmaps or addresses of tables: which frames
-- there are, which are reserved and which are taken, and what each call may answer.
use boreal_os.Base.{
  ℕ, ◌+◌, ◌*◌, ◌/◌, ◌%◌, ◌^◌, ◌≤◌, ◌<◌, ◌≡◌, ◌≢◌, Bool, true, false, not, ◌&&◌, ◌⊎◌, if◌then◌else◌,
  List, [], ◌∷◌, Outcome, ok, panic, Cause,
}
use boreal_os.Memory.Run.{IsRun}
use boreal_os.Memory.Pmm.{page_size}
use boreal_os.Memory.Pmm.Marks.{in_run}

pub record Frames : Type 0 where
  pub count : ℕ
  pub reserved : ℕ → Bool
  pub taken : ℕ → Bool

pub data Call : Type 0 where
  allocate : ℕ → Call
  release : ℕ → ℕ → Call

abbrev pub is_free : Frames → ℕ → Bool
is_free f q = not (f.reserved q) && not (f.taken q)

-- The caller may give a frame back.
pub record IsOwned (f : Frames) (q : ℕ) : Type 0 where
  pub inside : q < f.count
  pub unreserved : f.reserved q ≡ false
  pub taken : f.taken q ≡ true

-- `g` is `f` but for the frames of a run, which are all taken in it, or all not.
pub record Differs (f : Frames) (start pages : ℕ) (now : Bool) (g : Frames) : Type 0 where
  pub count : g.count ≡ f.count
  pub reserved : (q : ℕ) → g.reserved q ≡ f.reserved q
  pub taken : (q : ℕ) → g.taken q ≡ (if in_run start pages q then now else f.taken q)

-- One call that is answered: the lowest free run is granted, or none is long enough, or none was asked
-- for, or a run is given back.
pub data Step (f : Frames) : Call → Frames → ℕ → Type 0 where
  grants :
      (pages start : ℕ) (g : Frames)
      → start + pages ≤ f.count
      → IsRun (is_free f) start pages
      → ((q : ℕ) → q < start → ¬ IsRun (is_free f) q pages)
      → Differs f start pages true g
      → Step f (allocate pages) g (start * page_size)
  refuses :
      (pages : ℕ)
      → ((q : ℕ) → q + pages ≤ f.count → ¬ IsRun (is_free f) q pages)
      → Step f (allocate pages) f 0
  ignores : Step f (allocate 0) f 0
  releases :
      (first pages : ℕ) (g : Frames)
      → ((q : ℕ) → first ≤ q → q < first + pages → IsOwned f q)
      → Differs f first pages false g
      → Step f (release (first * page_size) pages) g 0

-- A call that the caller must not make.
abbrev pub IsMisuse : Frames → Call → Type 0
IsMisuse f (allocate pages) = ⊥
IsMisuse f (release start pages) =
    (start % page_size ≢ 0)
    ⊎ ((q : ℕ) × (start / page_size ≤ q) × (q < start / page_size + pages) × ¬ IsOwned f q)

-- The end of the pages is a number that a machine word holds.
abbrev pub Fits : Call → Type 0
Fits (allocate pages) = Unit
Fits (release start pages) = start / page_size + pages < 2 ^ 64

unfoldable pub prepend : ℕ → Outcome (List ℕ) → Outcome (List ℕ)
prepend a (ok answers) = ok (a ∷ answers)
prepend a (panic e) = panic e

-- The answers that a sequence of calls may get: every call makes a step, up to the first misuse.
pub data Trace : Frames → List Call → Outcome (List ℕ) → Type 0 where
  ends : (f : Frames) → Trace f [] (ok [])
  steps :
      (f g : Frames) (c : Call) (a : ℕ) (calls : List Call) (r : Outcome (List ℕ))
      → Step f c g a
      → Trace g calls r
      → Trace f (c ∷ calls) (prepend a r)
  stops :
      (f : Frames) (c : Call) (calls : List Call) (e : Cause)
      → IsMisuse f c
      → Trace f (c ∷ calls) (panic e)
