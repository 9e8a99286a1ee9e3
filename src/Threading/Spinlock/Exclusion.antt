-- ===== src/Threading/Spinlock/Exclusion.antt =====
-- At most one processor holds the lock, and the interrupt flag is restored.
use boreal_os.Base.{
  ℕ, ◌≡◌, ◌≢◌, refl, sym, ◌∙◌, ap, subst, Bool, true, false, ==_self, ==_ne, if◌then◌else◌, List,
  [], ◌∷◌,
}
use native.Mathlib.Decide.{ℕ_discrete}
use boreal_os.Threading.Spinlock.{
  Phase, outside, loading, exchanging, holding, released, Processor, System, enter, at_phase, leave,
  act, step, run,
}

-- The flag inside `Lock` and until the end of `Unlock`: clear if it was asked for, as it was else.
abbrev pub FlagKept : Phase → Processor → Type 0
FlagKept outside p = Unit
FlagKept loading p = p.interrupts ≡ (if p.stop_interrupts then false else p.had_interrupts)
FlagKept exchanging p = p.interrupts ≡ (if p.stop_interrupts then false else p.had_interrupts)
FlagKept holding p = p.interrupts ≡ (if p.stop_interrupts then false else p.had_interrupts)
FlagKept released p = p.interrupts ≡ (if p.stop_interrupts then false else p.had_interrupts)

pub record IsValid (s : System) : Type 0 where
  pub closed : (i : ℕ) → (s.processors i).phase ≡ holding → s.locked ≡ true
  pub single :
      (i j : ℕ) → (s.processors i).phase ≡ holding → (s.processors j).phase ≡ holding → i ≡ j
  pub flag : (i : ℕ) → FlagKept (s.processors i).phase (s.processors i)

-- The lock as its constructor leaves it, with every processor outside.
pub record IsInitial (s : System) : Type 0 where
  pub unlocked : s.locked ≡ false
  pub all_outside : (i : ℕ) → (s.processors i).phase ≡ outside

clash : (p : Phase) → p ≡ outside → ¬ (p ≡ holding)
clash p e h = cc

initial-IsValid : (s : System) → IsInitial s → IsValid s
initial-IsValid s h = record {
  closed = λ i e. absurd (clash _ (h.all_outside i) e);
  single = λ i j e f. absurd (clash _ (h.all_outside i) e);
  flag = λ i. rw (h.all_outside i) tt;
}

loading-apart : ¬ (loading ≡ holding)
loading-apart e = cc

-- What one action does, by the phase it starts in.
record Acted (before : Phase) (locked : Bool) (r : Bool × Processor) : Type 0 where
  -- Who holds the lock afterwards found it open, and closed it.
  takes : r.1.phase ≡ holding → (locked ≡ false) × (r.0 ≡ true)
  -- The lock is opened by its holder alone.
  opens : locked ≡ true → before ≢ holding → r.0 ≡ true
  kept : FlagKept r.1.phase r.1

act_lem :
    (phase : Phase) (stop locked : Bool) (p : Processor)
    → p.phase ≡ phase
    → FlagKept phase p
    → Acted phase locked (act phase stop locked p)
unfolding act enter at_phase leave
act_lem outside stop locked p e k = record { takes = λ e. cc; opens = λ l ne. l; kept = refl }
act_lem loading stop true p e k = record {
  takes = λ h. absurd (loading-apart (sym e ∙ h));
  opens = λ l ne. refl;
  kept = rw e k;
}
act_lem loading stop false p e k = record { takes = λ e. cc; opens = λ l ne. cc; kept = k }
act_lem exchanging stop true p e k = record { takes = λ e. cc; opens = λ l ne. refl; kept = k }
act_lem exchanging stop false p e k = record {
  takes = λ e. (refl, refl);
  opens = λ l ne. refl;
  kept = k;
}
act_lem holding stop locked p e k = record {
  takes = λ e. cc;
  opens = λ l ne. absurd (ne refl);
  kept = k;
}
act_lem released stop locked p e k = record { takes = λ e. cc; opens = λ l ne. l; kept = tt }

open_closed : ¬ (true ≡ false)
open_closed e = cc

module _ (i : ℕ) (stop : Bool) (s : System) (valid : IsValid s) where
  abbrev result : Bool × Processor
  result = act (s.processors i).phase stop s.locked (s.processors i)

  acted : Acted (s.processors i).phase s.locked result
  acted = act_lem (s.processors i).phase stop s.locked (s.processors i) refl (valid.flag i)

  moved : (step i stop s).processors i ≡ result.1
  unfolding step
  moved = rw (==_self i) refl

  stayed : (j : ℕ) → i ≢ j → (step i stop s).processors j ≡ s.processors j
  unfolding step
  stayed j ne = rw (==_ne i j ne) refl

  was_holding :
      (j : ℕ)
      → i ≢ j
      → ((step i stop s).processors j).phase ≡ holding
      → (s.processors j).phase ≡ holding
  was_holding j ne e = sym (ap (λ p. p.phase) (stayed j ne)) ∙ e

  -- If another processor held the lock, the one that moves does not take it.
  not_taken :
      (j : ℕ) → i ≢ j → ((step i stop s).processors j).phase ≡ holding → result.1.phase ≢ holding
  not_taken j ne e h = open_closed (sym (valid.closed j (was_holding j ne e)) ∙ (acted.takes h).0)

  step-closed :
      (j : ℕ) → ((step i stop s).processors j).phase ≡ holding → (step i stop s).locked ≡ true
  unfolding step
  step-closed j e = elim (ℕ_discrete i j) [
    | yes same ↦
        (acted.takes (
          sym (ap (λ p. p.phase) moved)
          ∙ subst (λ k. ((step i stop s).processors k).phase ≡ holding) (sym same) e)).1
    | no ne ↦
        acted.opens (valid.closed j (was_holding j ne e))
          (λ h. ne (valid.single i j h (was_holding j ne e)))
  ]

  step-single :
      (j k : ℕ)
      → ((step i stop s).processors j).phase ≡ holding
      → ((step i stop s).processors k).phase ≡ holding
      → j ≡ k
  step-single j k e f = elim (ℕ_discrete i j) [
    | yes same ↦ elim (ℕ_discrete i k) [
      | yes other ↦ sym same ∙ other
      | no ne ↦ absurd (not_taken k ne f (taken j same e))
    ]
    | no ne ↦ elim (ℕ_discrete i k) [
      | yes other ↦ absurd (not_taken j ne e (taken k other f))
      | no ne' ↦ valid.single j k (was_holding j ne e) (was_holding k ne' f)
    ]
  ]
    where
      taken :
          (l : ℕ)
          → i ≡ l
          → ((step i stop s).processors l).phase ≡ holding
          → result.1.phase ≡ holding
      taken l same h =
          sym (ap (λ p. p.phase) moved)
          ∙ subst (λ k. ((step i stop s).processors k).phase ≡ holding) (sym same) h

  step-flag : (j : ℕ) → FlagKept ((step i stop s).processors j).phase ((step i stop s).processors j)
  step-flag j = elim (ℕ_discrete i j) [
    | yes same ↦
        subst (λ k. FlagKept ((step i stop s).processors k).phase ((step i stop s).processors k))
          same (rw moved acted.kept)
    | no ne ↦ rw (stayed j ne) (valid.flag j)
  ]

  step-IsValid : IsValid (step i stop s)
  step-IsValid = record { closed = step-closed; single = step-single; flag = step-flag }

run-IsValid : (moves : List (ℕ × Bool)) (s : System) → IsValid s → IsValid (run moves s)
unfolding run
run-IsValid [] s h = h
run-IsValid ((i, stop) ∷ moves) s h = run-IsValid moves (step i stop s) (step-IsValid i stop s h)

-- From a lock as constructed, after every schedule at most one processor is inside `ScopedLock`, the
-- lock is closed while one is, and a processor that is inside with interrupts stopped has them off.
pub run-exclusive :
    (moves : List (ℕ × Bool)) (s : System)
    → IsInitial s
    → ((i j : ℕ)
        → ((run moves s).processors i).phase ≡ holding
        → ((run moves s).processors j).phase ≡ holding
        → i ≡ j)
      × ((i : ℕ) → ((run moves s).processors i).phase ≡ holding → (run moves s).locked ≡ true)
      × ((i : ℕ)
          → ((run moves s).processors i).phase ≡ holding
          → ((run moves s).processors i).stop_interrupts ≡ true
          → ((run moves s).processors i).interrupts ≡ false)
run-exclusive moves s h =
    let valid = run-IsValid moves s (initial-IsValid s h) in
    (
      valid.single,
      valid.closed,
      λ i e stopped.
          let kept = subst (λ f. FlagKept f ((run moves s).processors i)) e (valid.flag i) in
          kept ∙ rw stopped refl,
    )
