-- ===== src/Memory/Pmm/Refine.antt =====
-- The frame allocator does what is promised of it: each call, and every sequence of calls.
use boreal_os.Base.{
  false≢true, ℕ, zero, suc, ◌+◌, ◌*◌, ◌/◌, ◌%◌, ◌^◌, ◌≤◌, ◌<◌, ◌≡◌, refl, sym, ◌∙◌, ap, subst, Bool,
  true, false, not, ◌&&◌, ltb, ◌⊎◌, inl, inr, Bool-cases, List, [], ◌∷◌, Outcome, ok, panic, Cause,
  ◌>>=◌, arith,
}
use native.Mathlib.Decide.{ℕ_discrete}
use boreal_os.Memory.Run.{IsRun}
use boreal_os.Memory.Frames.{
  Frames, Call, allocate, release, IsOwned, Step, grants, refuses, ignores, releases, IsMisuse,
  Fits, prepend, Trace, ends, steps, stops,
}
use boreal_os.Memory.Pmm.{
  Pmm, take_run, page_size, allocate_pages, free_pages, reserved_at, allocated_at, IsValid,
}
use boreal_os.Memory.Pmm.Alloc.{allocate_pages_lem}
use boreal_os.Memory.Pmm.Rounds.{IsReleasable}
use boreal_os.Memory.Pmm.Free.{free_pages-ok, free_pages-only}

-- What a state of the allocator means to its callers.
abbrev pub view : Pmm → Frames
view s = record { count = s.frame_count; reserved = reserved_at s; taken = allocated_at s }

-- A call of the code, with its answer; `FreePages` has none, which is written 0.
unfoldable pub serve : Call → Pmm → Outcome (Pmm × ℕ)
serve (allocate pages) s = allocate_pages s pages
serve (release start pages) s = free_pages s start pages >>= λ t. ok (t, 0)

-- The answers of the code to calls made in a row.
unfoldable pub answers : List Call → Pmm → Outcome (List ℕ)
answers [] s = ok []
answers (c ∷ calls) s = serve c s >>= λ (t, a). prepend a (answers calls t)

-- A call answers by a step of the specification, or panics at a misuse.
abbrev pub Served : Pmm → Call → Type 0
Served s c =
    ((t : Pmm) × (a : ℕ) × (serve c s ≡ ok (t, a)) × Step (view s) c (view t) a × IsValid t)
    ⊎ ((e : Cause) × (serve c s ≡ panic e) × IsMisuse (view s) c)

-- A test holds all along a run, or fails somewhere in it.
run_or_gap :
    (b : ℕ → Bool) (first count : ℕ)
    → IsRun b first count ⊎ ((q : ℕ) × (first ≤ q) × (q < first + count) × (b q ≡ false))
run_or_gap b first zero = inl (λ i a c. absurd (omega arith))
run_or_gap b first (suc count) = elim (run_or_gap b first count) [
  | inr (q, a, c, d) ↦ inr (q, a, omega arith, d)
  | inl run ↦ elim (Bool-cases (b (first + count))) [
    | inr gap ↦ inr (first + count, omega arith, omega arith, gap)
    | inl more ↦ inl (λ i a c. elim (ℕ_discrete i (first + count)) [
      | yes here ↦ rw here more
      | no ne ↦ run i a (omega arith)
    ])
  ]
]

module _ (s : Pmm) (v : IsValid s) where
  serve-allocate : (pages : ℕ) → Served s (allocate pages)
  unfolding serve take_run
  serve-allocate zero = inl (s, 0, unfold allocate_pages in refl, ignores, v)
  serve-allocate (suc n) = elim (allocate_pages_lem s (suc n) v (omega arith)) [
    | inr r ↦ inl (s, 0, r.returns, refuses (suc n) r.absent, v)
    | inl g ↦ inl (
      g.after,
      g.start * page_size,
      g.returns,
      grants (suc n) g.start (view g.after) g.within g.run g.first (record {
        count = ap (λ t. t.frame_count) g.exact;
        reserved = g.taken.reserved;
        taken = g.taken.marked;
      }),
      g.valid,
    )
  ]

  -- The test of `IsOwned`.
  abbrev owned : ℕ → Bool
  owned q = ltb q s.frame_count && (not (reserved_at s q) && allocated_at s q)

  owned-IsOwned : (q : ℕ) → owned q ≡ true → IsOwned (view s) q
  owned-IsOwned q e = record {
    inside = ground arith;
    unreserved = ground arith;
    taken = ground arith;
  }

  IsOwned-owned : (q : ℕ) → IsOwned (view s) q → owned q ≡ true
  IsOwned-owned q h = ground (arith, h.inside, h.unreserved, h.taken)

  IsReleasable-IsOwned : (q : ℕ) → IsOwned (view s) q → IsReleasable s q
  IsReleasable-IsOwned q h = record {
    inside = omega (arith, h.inside, v.frames);
    unreserved = h.unreserved;
    allocated = h.taken;
  }

  IsOwned-IsReleasable : (q : ℕ) → IsReleasable s q → IsOwned (view s) q
  IsOwned-IsReleasable q h = record {
    inside = omega (arith, h.inside, v.frames);
    unreserved = h.unreserved;
    taken = h.allocated;
  }

  serve-release_run :
      (first pages : ℕ)
      → first + pages < 2 ^ 64
      → ((q : ℕ) → first ≤ q → q < first + pages → IsOwned (view s) q)
      → Served s (release (first * page_size) pages)
  unfolding serve
  serve-release_run first pages fits run =
      let (t, e, r, valid) =
        free_pages-ok s v pages first (λ q a b. IsReleasable-IsOwned q (run q a b)) fits in
      inl (
        t,
        0,
        rw e refl,
        releases first pages (view t) run
            (record { count = r.frames; reserved = r.reserved; taken = r.cleared }),
        valid,
      )

  -- A call that returns was no misuse.
  returned-apart :
      (start pages : ℕ) (t : Pmm)
      → start / page_size + pages < 2 ^ 64
      → free_pages s start pages ≡ ok t
      → ¬ IsMisuse (view s) (release start pages)
  returned-apart start pages t fits e (inl ne) = ne (free_pages-only s start pages t v fits e).0
  returned-apart start pages t fits e (inr (q, a, b, bad)) =
      bad (IsOwned-IsReleasable q ((free_pages-only s start pages t v fits e).1 q a b))

  serve-misuse :
      (start pages : ℕ)
      → start / page_size + pages < 2 ^ 64
      → IsMisuse (view s) (release start pages)
      → Served s (release start pages)
  unfolding serve
  serve-misuse start pages fits bad = by_outcome (free_pages s start pages) refl
    where
      by_outcome : (o : Outcome Pmm) → free_pages s start pages ≡ o → Served s (release start pages)
      by_outcome (ok t) e = absurd (returned-apart start pages t fits e bad)
      by_outcome (panic cause) e = inr (cause, rw e refl, bad)

  serve-release :
      (start pages : ℕ) → start / page_size + pages < 2 ^ 64 → Served s (release start pages)
  serve-release start pages fits = elim (ℕ_discrete (start % page_size) 0) [
    | no ne ↦ serve-misuse start pages fits (inl ne)
    | yes aligned ↦ elim (run_or_gap owned (start / page_size) pages) [
      | inr (q, a, b, gap) ↦
          serve-misuse start pages fits
            (inr (q, a, b, λ h. false≢true (sym gap ∙ IsOwned-owned q h)))
      | inl run ↦
          let same : start / page_size * page_size ≡ start = omega (arith, aligned) in
          subst (λ x. Served s (release x pages)) same
            (serve-release_run (start / page_size) pages fits
              (λ q a b. owned-IsOwned q (run q a b)))
    ]
  ]

  -- In a consistent state every call that fits a machine word is answered by a step of the
  -- specification, and the state stays consistent; or the caller has no right to it, and it panics.
  pub serve_lem : (c : Call) → Fits c → Served s c
  serve_lem (allocate pages) fits = serve-allocate pages
  serve_lem (release start pages) fits = serve-release start pages fits

-- Every call of a sequence fits.
abbrev pub AllFit : List Call → Type 0
AllFit [] = Unit
AllFit (c ∷ calls) = Fits c × AllFit calls

answers-ok :
    (s t : Pmm) (c : Call) (a : ℕ) (calls : List Call)
    → serve c s ≡ ok (t, a)
    → answers (c ∷ calls) s ≡ prepend a (answers calls t)
unfolding answers
answers-ok s t c a calls e = rw e refl

answers-panic :
    (s : Pmm) (c : Call) (e : Cause) (calls : List Call)
    → serve c s ≡ panic e
    → answers (c ∷ calls) s ≡ panic e
unfolding answers
answers-panic s c e calls h = rw h refl

-- The answers of the code to any sequence of calls that fit a machine word, from a consistent state,
-- are those that the specification allows: each call makes a step of it, and the code panics only at a
-- call that the caller had no right to make.
pub answers-Trace :
    (calls : List Call) (s : Pmm)
    → IsValid s
    → AllFit calls
    → Trace (view s) calls (answers calls s)
answers-Trace [] s v fits = unfold answers in ends (view s)
answers-Trace (c ∷ calls) s v (fits, rest) = elim (serve_lem s v c fits) [
  | inl (t, a, e, step, valid) ↦
      rw (answers-ok s t c a calls e)
        (steps (view s) (view t) c a calls _ step (answers-Trace calls t valid rest))
  | inr (e, h, bad) ↦ rw (answers-panic s c e calls h) (stops (view s) c calls e bad)
]
