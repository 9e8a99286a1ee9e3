-- ===== src/Threading/Spinlock.antt =====
-- kernel/Threading/Spinlock.h and Spinlock.cpp: processors that take and release one lock through
-- `ScopedLock`. A step is one atomic access to `_locked`, or one change of the interrupt flag.
pub mod Exclusion
pub mod Progress
use boreal_os.Base.{ℕ, Bool, true, false, not, ◌&&◌, ◌==◌, if◌then◌else◌, List, [], ◌∷◌}

-- Where a processor is: outside, before the load of the inner loop, before the compare-exchange,
-- between the constructor and the destructor of `ScopedLock`, or after the store of `Unlock`.
pub data Phase : Type 0 where
  outside : Phase
  loading : Phase
  exchanging : Phase
  holding : Phase
  released : Phase

-- `stop_interrupts` and `had_interrupts` are the locals of `Lock`; `interrupts` is the processor's
-- flag.
pub record Processor : Type 0 where
  pub phase : Phase
  pub interrupts : Bool
  pub stop_interrupts : Bool
  pub had_interrupts : Bool

pub record System : Type 0 where
  pub locked : Bool
  pub processors : ℕ → Processor

-- The result of `Lock`, which `ScopedLock` keeps for `Unlock`.
abbrev pub reenable_interrupts : Processor → Bool
reenable_interrupts p = p.stop_interrupts && p.had_interrupts

-- The entry of `Lock`: the flag is read and, if asked, cleared.
unfoldable pub enter : Bool → Processor → Processor
enter stop p = record {
  phase = loading;
  interrupts = if stop then false else p.interrupts;
  stop_interrupts = stop;
  had_interrupts = p.interrupts;
}

unfoldable pub at_phase : Phase → Processor → Processor
at_phase phase p = record p { phase = phase }

-- The end of `Unlock`: the flag is set again, if `Lock` cleared it.
unfoldable pub leave : Processor → Processor
leave p = record p {
  phase = outside;
  interrupts = if reenable_interrupts p then true else p.interrupts;
}

-- What a processor does to the lock and to itself in its next step; `stop` is the argument of `Lock`
-- where one begins.
unfoldable pub act : Phase → Bool → Bool → Processor → Bool × Processor
act outside stop locked p = (locked, enter stop p)
act loading stop locked p = (locked, if locked then p else at_phase exchanging p)
act exchanging stop locked p =
    if locked then (true, at_phase loading p) else (true, at_phase holding p)
act holding stop locked p = (false, at_phase released p)
act released stop locked p = (locked, leave p)

unfoldable pub step : ℕ → Bool → System → System
step i stop s =
    let r = act (s.processors i).phase stop s.locked (s.processors i) in
    record { locked = r.0; processors = λ j. if i == j then r.1 else s.processors j }

-- A schedule says who moves, and with which argument where it enters `Lock`.
unfoldable pub run : List (ℕ × Bool) → System → System
run [] s = s
run ((i, stop) ∷ moves) s = run moves (step i stop s)
