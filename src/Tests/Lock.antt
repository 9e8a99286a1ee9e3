-- ===== src/Tests/Lock.antt =====
-- Two processors that take the lock in turn.
use boreal_os.Base.{ℕ, ◌≡◌, refl, true, false, List, [], ◌∷◌, Bool}
use boreal_os.Threading.Spinlock.{outside, holding, System, run}
use boreal_os.Threading.Spinlock.Progress.{Gets, run-progress}
use boreal_os.Threading.Spinlock.Exclusion.{run-exclusive}

abbrev fresh : System
fresh = record {
  locked = false;
  processors = λ i. record {
    phase = outside;
    interrupts = true;
    stop_interrupts = false;
    had_interrupts = false;
  };
}

abbrev moves : List (ℕ × Bool)
moves = (1, true) ∷ (2, true) ∷ (1, true) ∷ (2, true) ∷ (1, true) ∷ (2, true) ∷ []

run-exclusive_example :
    ((i j : ℕ)
      → ((run moves fresh).processors i).phase ≡ holding
      → ((run moves fresh).processors j).phase ≡ holding
      → i ≡ j)
    × ((i : ℕ) → ((run moves fresh).processors i).phase ≡ holding → (run moves fresh).locked ≡ true)
    × ((i : ℕ)
        → ((run moves fresh).processors i).phase ≡ holding
        → ((run moves fresh).processors i).stop_interrupts ≡ true
        → ((run moves fresh).processors i).interrupts ≡ false)
run-exclusive_example =
    run-exclusive moves fresh (record { unlocked = refl; all_outside = λ i. refl })

abbrev until_released : List (ℕ × Bool)
until_released = (1, true) ∷ (1, true) ∷ (1, true) ∷ (1, true) ∷ []

run-progress_example : Gets 5 3 (run moves fresh)
run-progress_example =
    run-progress moves fresh 3 true (record { unlocked = refl; all_outside = λ i. refl })
