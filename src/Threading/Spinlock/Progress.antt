-- ===== src/Threading/Spinlock/Progress.antt =====
-- No schedule leads to a state from which a processor cannot get the lock any more.
use boreal_os.Base.{
  false≢true, ℕ, suc, ◌≤◌, arith, length, ◌≡◌, ◌≢◌, refl, sym, ◌∙◌, ap, Bool, true, false, ==_self,
  ==_ne, List, [], ◌∷◌, Bool-cases, ◌⊎◌, inl, inr,
}
use boreal_os.Threading.Spinlock.{
  Phase, outside, loading, exchanging, holding, released, Processor, System, enter, at_phase, leave,
  act, step, run,
}
use boreal_os.Threading.Spinlock.Exclusion.{IsInitial}

-- A closed lock has a holder.
abbrev HasHolder : System → Type 0
HasHolder s = s.locked ≡ true → (j : ℕ) × ((s.processors j).phase ≡ holding)

step-moved :
    (i : ℕ) (stop : Bool) (s : System)
    → (step i stop s).processors i ≡ (act (s.processors i).phase stop s.locked (s.processors i)).1
unfolding step
step-moved i stop s = rw (==_self i) refl

step-stayed :
    (i j : ℕ) (stop : Bool) (s : System) → i ≢ j → (step i stop s).processors j ≡ s.processors j
unfolding step
step-stayed i j stop s ne = rw (==_ne i j ne) refl

step-locked :
    (i : ℕ) (stop : Bool) (s : System)
    → (step i stop s).locked ≡ (act (s.processors i).phase stop s.locked (s.processors i)).0
unfolding step
step-locked i stop s = refl

-- The lock is closed after an action only if the processor has taken it, or it was closed before and
-- the processor is not the holder.
act-closed :
    (phase : Phase) (stop locked : Bool) (p : Processor)
    → (act phase stop locked p).0 ≡ true
    → ((act phase stop locked p).1.phase ≡ holding) ⊎ ((locked ≡ true) × (phase ≢ holding))
unfolding act enter at_phase leave
act-closed outside stop locked p e = inr (e, λ h. cc)
act-closed loading stop locked p e = inr (e, λ h. cc)
act-closed exchanging stop true p e = inr (refl, λ h. cc)
act-closed exchanging stop false p e = inl refl
act-closed holding stop locked p e = absurd (false≢true e)
act-closed released stop locked p e = inr (e, λ h. cc)

step-HasHolder : (i : ℕ) (stop : Bool) (s : System) → HasHolder s → HasHolder (step i stop s)
step-HasHolder i stop s h e =
    elim (act-closed (s.processors i).phase stop s.locked (s.processors i)
      (sym (step-locked i stop s) ∙ e)) [
        | inl taken ↦ (i, ap (λ p. p.phase) (step-moved i stop s) ∙ taken)
        | inr (closed, other) ↦
            let (j, holds) = h closed in
            (
              j,
              ap (λ p. p.phase)
                    (step-stayed i j stop s
                      (λ same. other (ap (λ k. (s.processors k).phase) same ∙ holds)))
                  ∙ holds,
            )
      ]

run-HasHolder : (moves : List (ℕ × Bool)) (s : System) → HasHolder s → HasHolder (run moves s)
unfolding run
run-HasHolder [] s h = h
run-HasHolder ((i, stop) ∷ moves) s h =
    run-HasHolder moves (step i stop s) (step-HasHolder i stop s h)

-- At most `steps` further steps give the processor the lock.
abbrev pub Gets : ℕ → ℕ → System → Type 0
Gets steps i s =
    (more : List (ℕ × Bool)) × (length more ≤ steps) × (((run more s).processors i).phase ≡ holding)

Gets-step :
    (steps i j : ℕ) (stop : Bool) (s : System) → Gets steps i (step j stop s) → Gets (suc steps) i s
unfolding run
Gets-step steps i j stop s (more, few, e) = ((j, stop) ∷ more, omega (arith, few), e)

Gets-more : (steps more i : ℕ) (s : System) → steps ≤ more → Gets steps i s → Gets more i s
Gets-more steps more i s le (moves, few, e) = (moves, omega (arith, few), e)

module _ (i : ℕ) (stop : Bool) where
  phase-step :
      (s : System) (phase : Phase) (locked : Bool)
      → (s.processors i).phase ≡ phase
      → s.locked ≡ locked
      → ((step i stop s).processors i).phase ≡ (act phase stop locked (s.processors i)).1.phase
  phase-step s phase locked e l = ap (λ p. p.phase) (step-moved i stop s) ∙ rw (e, l) refl

  locked-step :
      (s : System) (phase : Phase) (locked : Bool)
      → (s.processors i).phase ≡ phase
      → s.locked ≡ locked
      → (step i stop s).locked ≡ (act phase stop locked (s.processors i)).0
  locked-step s phase locked e l = step-locked i stop s ∙ rw (e, l) refl

  from_exchanging :
      (s : System) → (s.processors i).phase ≡ exchanging → s.locked ≡ false → Gets 1 i s
  unfolding act at_phase run
  from_exchanging s e l =
      Gets-step 0 i i stop s ([], omega arith, phase-step s exchanging false e l)

  from_loading : (s : System) → (s.processors i).phase ≡ loading → s.locked ≡ false → Gets 2 i s
  unfolding act at_phase
  from_loading s e l = Gets-step 1 i i stop s (
      from_exchanging (step i stop s) (phase-step s loading false e l)
        (locked-step s loading false e l))

  from_outside : (s : System) → (s.processors i).phase ≡ outside → s.locked ≡ false → Gets 3 i s
  unfolding act enter
  from_outside s e l = Gets-step 2 i i stop s (
      from_loading (step i stop s) (phase-step s outside false e l)
        (locked-step s outside false e l))

  from_released : (s : System) → (s.processors i).phase ≡ released → s.locked ≡ false → Gets 4 i s
  unfolding act leave
  from_released s e l = Gets-step 3 i i stop s (
      from_outside (step i stop s) (phase-step s released false e l)
        (locked-step s released false e l))

  from_open :
      (phase : Phase) (s : System) → (s.processors i).phase ≡ phase → s.locked ≡ false → Gets 4 i s
  unfolding run
  from_open outside s e l = Gets-more 3 4 i s (omega arith) (from_outside s e l)
  from_open loading s e l = Gets-more 2 4 i s (omega arith) (from_loading s e l)
  from_open exchanging s e l = Gets-more 1 4 i s (omega arith) (from_exchanging s e l)
  from_open holding s e l = ([], omega arith, e)
  from_open released s e l = from_released s e l

  from_any : (s : System) → HasHolder s → Gets 5 i s
  unfolding act
  from_any s h = elim (Bool-cases s.locked) [
    | inr free ↦ Gets-more 4 5 i s (omega arith) (from_open (s.processors i).phase s refl free)
    | inl closed ↦
        let (j, holds) = h closed in
        Gets-step 4 i j stop s
          (from_open _ (step j stop s) refl (step-locked j stop s ∙ rw holds refl))
  ]

-- From a lock as constructed, whatever was done before, every processor can still get the lock: there is
-- a continuation of the schedule, of at most five steps, after which it holds it.
pub run-progress :
    (moves : List (ℕ × Bool)) (s : System) (i : ℕ) (stop : Bool)
    → IsInitial s
    → Gets 5 i (run moves s)
run-progress moves s i stop h =
    from_any i stop (run moves s)
      (run-HasHolder moves s (λ closed. absurd (false≢true (sym h.unlocked ∙ closed))))
