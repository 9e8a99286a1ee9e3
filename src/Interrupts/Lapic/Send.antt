-- ===== src/Interrupts/Lapic/Send.antt =====
-- `SendIPI` returns when the device becomes idle.
use boreal_os.Base.{
  ℕ, zero, suc, ◌<◌, ◌≡◌, ◌↔◌, refl, ◌∙◌, sym, ap, inl, inr, Bool-cases, true, false, Option, none,
  some, arith,
}
use boreal_os.Interrupts.Lapic.{
  Device, Lapic, DeliveryMode, TriggerMode, DestinationShorthand, read_register, is_busy, wait_idle,
  write_command, send_ipi,
}
use boreal_os.Interrupts.Lapic.Register

no_value : {W : Type 0} (w : W) → ¬ (none ≡ some w)
no_value w e = cc

same_value : {W : Type 0} {v w : W} → some v ≡ some w → v ≡ w
same_value e = cc

module _ {W : Type 0} (dev : Device W) (l : Lapic) where
  -- The world after `n` reads of the status that find the device busy, and one more.
  unfoldable pub polled : ℕ → W → W
  polled zero w = (read_register dev l Register.icr_low w).1
  polled (suc n) w = polled n (read_register dev l Register.icr_low w).1

  -- The device is found busy `n` times, and then idle.
  unfoldable pub IdleAfter : ℕ → W → Type 0
  IdleAfter zero w = is_busy dev (read_register dev l Register.icr_low w).0 ≡ false
  IdleAfter (suc n) w =
      (is_busy dev (read_register dev l Register.icr_low w).0 ≡ true)
      × IdleAfter n (read_register dev l Register.icr_low w).1

  wait-no_fuel : (w : W) → none ≡ wait_idle dev zero l w
  unfolding wait_idle
  wait-no_fuel w = refl

  wait-busy :
      (fuel : ℕ) (w : W)
      → is_busy dev (read_register dev l Register.icr_low w).0 ≡ true
      → wait_idle dev (suc fuel) l w
        ≡ wait_idle dev fuel l (read_register dev l Register.icr_low w).1
  unfolding wait_idle read_register
  wait-busy fuel w h = rw (wait_idle, h) refl

  wait-idle :
      (fuel : ℕ) (w : W)
      → is_busy dev (read_register dev l Register.icr_low w).0 ≡ false
      → wait_idle dev (suc fuel) l w ≡ some (read_register dev l Register.icr_low w).1
  unfolding wait_idle read_register
  wait-idle fuel w h = rw (wait_idle, h) refl

  wait_idle_lem :
      (fuel n : ℕ) (w : W) → n < fuel → IdleAfter n w → wait_idle dev fuel l w ≡ some (polled n w)
  unfolding polled IdleAfter
  wait_idle_lem zero n w lt h = absurd (omega arith)
  wait_idle_lem (suc fuel) zero w lt h = wait-idle fuel w h
  wait_idle_lem (suc fuel) (suc n) w lt (busy, h) =
      wait-busy fuel w busy ∙ wait_idle_lem fuel n _ (omega arith) h

  -- A loop that returns has found the device idle.
  wait_idle-returned :
      (fuel : ℕ) (w w' : W)
      → wait_idle dev fuel l w ≡ some w'
      → (n : ℕ) × (n < fuel) × IdleAfter n w × (w' ≡ polled n w)
  unfolding polled IdleAfter
  wait_idle-returned zero w w' e = absurd (no_value w' (wait-no_fuel w ∙ e))
  wait_idle-returned (suc fuel) w w' e =
      elim (Bool-cases (is_busy dev (read_register dev l Register.icr_low w).0)) [
        | inr idle ↦ (0, omega arith, idle, same_value (sym e ∙ wait-idle fuel w idle))
        | inl busy ↦
            let (n, lt, h, f) = wait_idle-returned fuel _ w' (sym (wait-busy fuel w busy) ∙ e) in
            (suc n, omega arith, (busy, h), f)
      ]

-- A chain that ends in a value has one after its first step.
after_first :
    {W : Type 0} (r : Option W) (f : W → Option W) (w' : W)
    → elim r as (λ _. Option W) [ none ↦ none | some v ↦ f v ] ≡ some w'
    → (v : W) × (r ≡ some v) × (f v ≡ some w')
after_first none f w' e = absurd (no_value w' e)
after_first (some v) f w' e = (v, refl, e)

-- The device is found idle before the command is written, and again after it, each time after fewer
-- than `fuel` rounds; the command is written in between.
abbrev pub Sent :
    {W : Type 0}
    → Device W
    → ℕ
    → Lapic
    → ℕ
    → ℕ
    → DeliveryMode
    → TriggerMode
    → DestinationShorthand
    → W
    → W
    → Type 0
Sent dev fuel l vector destination mode trigger kind w w' =
    (n : ℕ) × (k : ℕ) × (n < fuel)
    × (k < fuel)
    × IdleAfter dev l n w
    × IdleAfter dev l k
        (write_command dev l vector destination mode trigger kind (polled dev l n w))
    × (w'
        ≡ polled dev l k
            (write_command dev l vector destination mode trigger kind (polled dev l n w)))

-- `SendIPI` returns just if the device is found idle after fewer than `fuel` rounds of either loop. It
-- has then written the command once, between the two loops, and nothing else.
pub send_ipi_iff :
    {W : Type 0} (dev : Device W) (fuel : ℕ) (l : Lapic) (vector destination : ℕ)
    (mode : DeliveryMode) (trigger : TriggerMode) (kind : DestinationShorthand) (w w' : W)
    → (send_ipi dev fuel l vector destination mode trigger kind w ≡ some w')
      ↔ Sent dev fuel l vector destination mode trigger kind w w'
unfolding send_ipi
send_ipi_iff dev fuel l vector destination mode trigger kind w w' = (
  λ e.
      let (v, first, second) = after_first (wait_idle dev fuel l w) _ w' e in
      let (n, a, h, f) = wait_idle-returned dev l fuel w v first in
      let (k, b, g, last) = wait_idle-returned dev l fuel _ w' (
        ap (λ x. wait_idle dev fuel l (write_command dev l vector destination mode trigger kind x))
          (sym f)
        ∙ second) in
      (n, k, a, b, h, g, last),
  λ (n, k, a, b, h, g, last).
      rw (send_ipi, wait_idle_lem dev l fuel n w a h)
        (wait_idle_lem dev l fuel k _ b g ∙ ap some (sym last)),
)
