-- ===== src/Memory/Paging/Copy/Reserve.antt =====
-- The reserved upper half: every slot of it leads to a table, so all address spaces can share it.
use boreal_os.Base.{
  ℕ, zero, suc, ◌+◌, ◌-◌, ◌*◌, ◌≤◌, ◌<◌, ◌≡◌, refl, sym, ◌∙◌, ap, subst, ◌⊎◌, inl, inr, false,
  arith, Outcome, ok, panic, no_reserved_frame,
}
use boreal_os.Memory.Pmm.{page_size}
use boreal_os.Memory.Paging.{Machine, entry_at, is_present}
use boreal_os.Memory.Paging.Copy.{reserve_slot, reserve_loop, reserve_higher_half_pml4_slots}
use boreal_os.Memory.Paging.Copy.Slot.{
  IsHeld, IsReserved, IsReserved-step, IsReserved-none, IsFull, reserve_slot_lem,
}

reserve_loop-panic :
    (left i pml4 : ℕ) (m : Machine)
    → reserve_slot i pml4 m ≡ panic no_reserved_frame
    → reserve_loop (suc left) i pml4 m ≡ panic no_reserved_frame
unfolding reserve_loop
reserve_loop-panic left i pml4 m e = rw e refl

reserve_loop-step :
    (left i pml4 : ℕ) (m t : Machine)
    → reserve_slot i pml4 m ≡ ok t
    → reserve_loop (suc left) i pml4 m ≡ reserve_loop left (i + 1) pml4 t
unfolding reserve_loop
reserve_loop-step left i pml4 m t e = rw e refl

-- A slot is found missing after the ones before it were filled, and no frame is free then.
pub record IsStuck (page first last : ℕ) (m : Machine) (o : Outcome Machine) : Type 0 where
  pub slot : ℕ
  pub state : Machine
  pub from : first ≤ slot
  pub below : slot < last
  pub came : reserve_loop (slot - first) first (page * page_size) m ≡ ok state
  pub before : IsReserved page first slot m state
  pub missing : is_present (state.words (entry_at (page * page_size) slot)) ≡ false
  pub full : IsFull state
  pub panics : o ≡ panic no_reserved_frame

-- The slots are filled, or no frame is free for one of them.
abbrev pub Reserved : ℕ → ℕ → ℕ → Machine → Outcome Machine → Type 0
Reserved page first last m o =
    ((t : Machine) × (o ≡ ok t) × IsReserved page first last m t) ⊎ IsStuck page first last m o

module _ (page i : ℕ) (m : Machine) (held : IsHeld page m) where
  IsStuck-here :
      (left : ℕ)
      → reserve_slot i (page * page_size) m ≡ panic no_reserved_frame
      → is_present (m.words (entry_at (page * page_size) i)) ≡ false
      → IsFull m
      → IsStuck page i (i + suc left) m (reserve_loop (suc left) i (page * page_size) m)
  IsStuck-here left e missing full = record {
    slot = i;
    state = m;
    from = omega arith;
    below = omega arith;
    came =
        let no_round : i - i ≡ 0 = omega arith in
        ap (λ n. reserve_loop n i (page * page_size) m) no_round ∙ (unfold reserve_loop in refl);
    before = IsReserved-none page i m held;
    missing = missing;
    full = full;
    panics = reserve_loop-panic left i (page * page_size) m e;
  }

  IsStuck-later :
      (left : ℕ) (t : Machine)
      → i + suc left ≤ 512
      → reserve_slot i (page * page_size) m ≡ ok t
      → IsReserved page i (i + 1) m t
      → IsStuck page (i + 1) (i + 1 + left) t (reserve_loop left (i + 1) (page * page_size) t)
      → IsStuck page i (i + suc left) m (reserve_loop (suc left) i (page * page_size) m)
  IsStuck-later left t bound e now s = record {
    slot = s.slot;
    state = s.state;
    from = omega (arith, s.from);
    below = omega (arith, s.below);
    came =
        let rounds : s.slot - i ≡ suc (s.slot - (i + 1)) = omega (arith, s.from) in
        ap (λ n. reserve_loop n i (page * page_size) m) rounds
        ∙ reserve_loop-step (s.slot - (i + 1)) i (page * page_size) m t e
        ∙ s.came;
    before =
        IsReserved-step page i s.slot m t s.state (omega (arith, s.from))
          (omega (arith, s.below, bound)) now s.before;
    missing = s.missing;
    full = s.full;
    panics = reserve_loop-step left i (page * page_size) m t e ∙ s.panics;
  }

reserve_loop_lem :
    (left i page : ℕ) (m : Machine)
    → i + left ≤ 512
    → IsHeld page m
    → Reserved page i (i + left) m (reserve_loop left i (page * page_size) m)
reserve_loop_lem zero i page m bound held =
    let end : i + 0 ≡ i = omega arith in
    inl (
      m,
      unfold reserve_loop in refl,
      subst (λ n. IsReserved page i n m m) (sym end) (IsReserved-none page i m held),
    )
reserve_loop_lem (suc left) i page m bound held =
    elim (reserve_slot_lem page i m (omega arith) held) [
      | inr (e, missing, full) ↦ inr (IsStuck-here page i m held left e missing full)
      | inl (t, e, now) ↦ elim (reserve_loop_lem left (i + 1) page t (omega arith) now.held) [
        | inr s ↦ inr (IsStuck-later page i m held left t bound e now s)
        | inl (u, f, later) ↦
            let last : i + 1 + left ≡ i + suc left = omega arith in
            inl (
              u,
              reserve_loop-step left i (page * page_size) m t e ∙ f,
              IsReserved-step page i (i + suc left) m t u (omega arith) bound now
                  (subst (λ n. IsReserved page (i + 1) n t u) last later),
            )
      ]
    ]

-- `ReserveHigherHalfPML4Slots` of a table in a taken frame: every one of the upper 256 slots is present
-- afterwards, those that were present and the lower 256 are as they were, and the frame allocator stays
-- consistent; or it panics at a slot that is not present, after it has filled those before, in a state
-- in which no frame is free.
pub reserve_higher_half_pml4_slots_lem :
    (page : ℕ) (m : Machine)
    → IsHeld page m
    → Reserved page 256 512 m (reserve_higher_half_pml4_slots (page * page_size) m)
unfolding reserve_higher_half_pml4_slots
reserve_higher_half_pml4_slots_lem page m held = reserve_loop_lem 256 256 page m (omega arith) held
