-- ===== src/Memory/Paging/Copy/Slot.antt =====
-- One slot of the upper half: it is present afterwards, or no frame is free for its table.
use boreal_os.Base.{
  true≢false, ℕ, ◌+◌, ◌*◌, ◌^◌, ◌≤◌, ◌<◌, ◌≡◌, ◌≢◌, refl, sym, ◌∙◌, ap, ◌⊎◌, inl, inr, true, false,
  Bool-cases, bit_or, arith, Outcome, ok, panic, no_reserved_frame,
}
use native.Mathlib.Decide.{ℕ_discrete, dec_lt}
use boreal_os.Base.Store.{store, store_self, store_ne}
use boreal_os.Memory.Pmm.{Pmm, free_at, take_run, page_size, allocated_at, allocate_pages}
use boreal_os.Memory.Pmm.Alloc.{Granted, Refused, allocate_pages_lem}
use boreal_os.Memory.Paging.{Machine, present, read_write, entry_at, is_present, clear_words}
use boreal_os.Memory.Paging.Entries.{IsFrame, frame-or, is_present-mod}
use boreal_os.Memory.Paging.Link.{clear_words-outside}
use boreal_os.Memory.Paging.Copy.{reserve_slot}

-- The table lies in a frame that is taken, in a consistent state of the frame allocator.
pub record IsHeld (page : ℕ) (m : Machine) : Type 0 where
  pub valid : boreal_os.Memory.Pmm.IsValid m.pmm
  pub narrow : m.pmm.frame_count * page_size ≤ 2 ^ 52
  pub taken : allocated_at m.pmm page ≡ true

-- From slot `first` up to `last` every slot of the table is present; the slots that were present, and all
-- others, are as they were.
pub record IsReserved (page first last : ℕ) (m t : Machine) : Type 0 where
  pub held : IsHeld page t
  pub filled :
      (i : ℕ) → first ≤ i → i < last → is_present (t.words (entry_at (page * page_size) i)) ≡ true
  pub kept :
      (i : ℕ)
      → i < 512
      → (i < first) ⊎ (last ≤ i) ⊎ (is_present (m.words (entry_at (page * page_size) i)) ≡ true)
      → t.words (entry_at (page * page_size) i) ≡ m.words (entry_at (page * page_size) i)

slot-present :
    (frame : ℕ) → IsFrame frame → is_present (bit_or frame (bit_or present read_write)) ≡ true
slot-present frame h =
    is_present-mod (bit_or frame (bit_or present read_write))
    ∙ ground (arith, frame-or frame (bit_or present read_write) h (omega arith), h.0)

module _ (page i : ℕ) (m : Machine) (small : i < 512) (held : IsHeld page m)
    (empty : is_present (m.words (entry_at (page * page_size) i)) ≡ false)
    (g : Granted m.pmm 1 (allocate_pages m.pmm 1)) where
  abbrev frame : ℕ
  frame = g.start * page_size

  abbrev filled : Machine
  filled = record {
    pmm = g.after;
    words =
        store (clear_words 512 frame m.words) (entry_at (page * page_size) i)
          (bit_or frame (bit_or present read_write));
  }

  frame-apart : g.start ≢ page
  frame-apart e =
      let free = g.run page (omega (arith, e)) (omega (arith, e)) in
      ground (arith, free, held.taken)

  same_count : g.after.frame_count ≡ m.pmm.frame_count
  unfolding take_run
  same_count = ap (λ t. t.frame_count) g.exact

  frame-IsFrame : IsFrame frame
  frame-IsFrame = (omega arith, omega (arith, g.within, held.narrow))

  words-kept :
      (j : ℕ)
      → j < 512
      → j ≢ i
      → filled.words (entry_at (page * page_size) j) ≡ m.words (entry_at (page * page_size) j)
  words-kept j lt ne =
      store_ne (clear_words 512 frame m.words) _ _ _ (omega (arith, ne))
      ∙ clear_words-outside 512 frame _ m.words (elim (dec_lt page g.start) [
        | yes below ↦ inl (omega arith)
        | no above ↦ inr (omega (arith, frame-apart))
      ])

  slot-IsReserved : IsReserved page i (i + 1) m filled
  slot-IsReserved = record {
    held = record {
      valid = g.valid;
      narrow = omega (arith, same_count, held.narrow);
      taken = g.taken.marked page ∙ ground (arith, held.taken);
    };
    filled = λ j a b.
        let here : j ≡ i = omega arith in
        rw (here, store_self (clear_words 512 frame m.words) (entry_at (page * page_size) i) _)
          (slot-present frame frame-IsFrame);
    kept = λ j lt how. words-kept j lt (not_here j how);
  }
    where
      not_here :
          (j : ℕ)
          → (j < i) ⊎ (i + 1 ≤ j) ⊎ (is_present (m.words (entry_at (page * page_size) j)) ≡ true)
          → j ≢ i
      not_here j (inl below) e = omega arith
      not_here j (inr (inl above)) e = omega arith
      not_here j (inr (inr there)) e =
          true≢false
            (sym there ∙ ap (λ k. is_present (m.words (entry_at (page * page_size) k))) e ∙ empty)

-- The slots from `first` up to `last`, and then one more.
pub IsReserved-step :
    (page first last : ℕ) (m t u : Machine)
    → first < last
    → last ≤ 512
    → IsReserved page first (first + 1) m t
    → IsReserved page (first + 1) last t u
    → IsReserved page first last m u
IsReserved-step page first last m t u lt bound a b = record {
  held = b.held;
  filled = λ i c d. elim (ℕ_discrete i first) [
    | no ne ↦ b.filled i (omega arith) d
    | yes here ↦
        ap is_present (b.kept i (omega arith) (inl (omega arith))) ∙ a.filled i c (omega arith)
  ];
  kept = λ i small how. b.kept i small (later i small how) ∙ a.kept i small (now i how);
}
  where
    slot_of : Machine → ℕ → ℕ
    slot_of k i = k.words (entry_at (page * page_size) i)

    now :
        (i : ℕ)
        → (i < first) ⊎ (last ≤ i) ⊎ (is_present (slot_of m i) ≡ true)
        → (i < first) ⊎ (first + 1 ≤ i) ⊎ (is_present (slot_of m i) ≡ true)
    now i (inl below) = inl below
    now i (inr (inl above)) = inr (inl (omega arith))
    now i (inr (inr there)) = inr (inr there)

    later :
        (i : ℕ)
        → i < 512
        → (i < first) ⊎ (last ≤ i) ⊎ (is_present (slot_of m i) ≡ true)
        → (i < first + 1) ⊎ (last ≤ i) ⊎ (is_present (slot_of t i) ≡ true)
    later i small (inl below) = inl (omega arith)
    later i small (inr (inl above)) = inr (inl above)
    later i small (inr (inr there)) =
        inr (inr (ap is_present (a.kept i small (inr (inr there))) ∙ there))

pub IsReserved-none : (page i : ℕ) (m : Machine) → IsHeld page m → IsReserved page i i m m
IsReserved-none page i m held = record {
  held = held;
  filled = λ j a b. absurd (omega arith);
  kept = λ j lt how. refl;
}

-- No frame is free.
abbrev pub IsFull : Machine → Type 0
IsFull m = (q : ℕ) → q < m.pmm.frame_count → free_at m.pmm q ≡ false

Refused-IsFull : (m : Machine) (o : Outcome (Pmm × ℕ)) → Refused m.pmm 1 o → IsFull m
Refused-IsFull m o r q h = elim (Bool-cases (free_at m.pmm q)) [
  | inr taken ↦ taken
  | inl open_frame ↦
      absurd
        (r.absent q (omega arith) (λ i a b. let here : i ≡ q = omega arith in rw here open_frame))
]

-- One round, with its two ends.
pub reserve_slot_lem :
    (page i : ℕ) (m : Machine)
    → i < 512
    → IsHeld page m
    → ((t : Machine) × (reserve_slot i (page * page_size) m ≡ ok t) × IsReserved page i (i + 1) m t)
      ⊎ ((reserve_slot i (page * page_size) m ≡ panic no_reserved_frame)
          × (is_present (m.words (entry_at (page * page_size) i)) ≡ false)
          × IsFull m)
unfolding reserve_slot
reserve_slot_lem page i m small held =
    elim (Bool-cases (is_present (m.words (entry_at (page * page_size) i)))) [
      | inl there ↦ inl (
        m,
        rw there refl,
        record {
          held = held;
          filled = λ j a b. let here : j ≡ i = omega arith in rw here there;
          kept = λ j lt how. refl;
        },
      )
      | inr empty ↦ elim (allocate_pages_lem m.pmm 1 held.valid (omega arith)) [
        | inr r ↦ inr (ground (arith, empty, r.returns), empty, Refused-IsFull m _ r)
        | inl g ↦ inl (
          filled page i m small held empty g,
          ground (arith, empty, g.returns, g.above_low),
          slot-IsReserved page i m small held empty g,
        )
      ]
    ]
