-- ===== src/Io/Serial/Sent.antt =====
-- `Write` sends its data in order.
use boreal_os.Base.{
  ℕ, zero, suc, ◌+◌, ◌<◌, ◌≡◌, ◌≢◌, refl, sym, ◌∙◌, ap, Bool, true, false, ◌==◌, bit_and,
  Bool-cases, inl, inr, some, List, [], ◌∷◌, ◌++◌, arith,
}
use mathlib.Core.List.{append-nil, append_assoc}
use boreal_os.Io.Serial.{
  BytePorts, Status, get_port_index, transmit_empty, wait_empty, write_loop, write,
}

-- A serial device at a port: `ready` says that its transmit buffer is empty, which bit 5 of the line
-- status shows. A byte written to the empty buffer is sent, after those before; of one written to a full
-- buffer nothing is known. Reads send nothing.
pub record IsUart {W : Type 0} (ports : BytePorts W) (port : ℕ) (ready : W → Bool)
    (sent : W → List ℕ) : Type 0 where
  pub shows :
      (w : W)
      → bit_and (ports.inb (port + 5) w).0 0x20 ≢ 0
      → ready (ports.inb (port + 5) w).1 ≡ true
  pub sends : (c : ℕ) (w : W) → ready w ≡ true → sent (ports.outb port c w) ≡ sent w ++ (c ∷ [])
  pub quiet : (a : ℕ) (w : W) → sent (ports.inb a w).1 ≡ sent w

module _ {W : Type 0} (ports : BytePorts W) (port : ℕ) where
  -- The transmit buffer is found empty after at most `n` reads that find it full.
  unfoldable pub EmptyWithin : ℕ → W → Type 0
  EmptyWithin zero w = (transmit_empty ports port w).0 == 0 ≡ false
  EmptyWithin (suc n) w =
      (transmit_empty ports port w).0 == 0 ≡ true → EmptyWithin n (transmit_empty ports port w).1

  module _ (ready : W → Bool) (sent : W → List ℕ) (uart : IsUart ports port ready sent) where
    quiet-transmit_empty : (w : W) → sent (transmit_empty ports port w).1 ≡ sent w
    unfolding transmit_empty
    quiet-transmit_empty w = uart.quiet (port + 5) w

    ready-transmit_empty :
        (w : W)
        → ((transmit_empty ports port w).0 == 0) ≡ false
        → ready (transmit_empty ports port w).1 ≡ true
    unfolding transmit_empty
    ready-transmit_empty w e = uart.shows w (λ z. ground (arith, e, z))

    wait-done :
        (fuel : ℕ) (w : W)
        → ((transmit_empty ports port w).0 == 0) ≡ false
        → wait_empty ports (suc fuel) port w ≡ some (transmit_empty ports port w).1
    unfolding wait_empty
    wait-done fuel w e = rw (wait_empty, e) refl

    wait-again :
        (fuel : ℕ) (w : W)
        → ((transmit_empty ports port w).0 == 0) ≡ true
        → wait_empty ports (suc fuel) port w
          ≡ wait_empty ports fuel port (transmit_empty ports port w).1
    unfolding wait_empty
    wait-again fuel w e = rw (wait_empty, e) refl

    wait_empty_lem :
        (fuel n : ℕ) (w : W)
        → n < fuel
        → EmptyWithin n w
        → (v : W) × (wait_empty ports fuel port w ≡ some v) × (ready v ≡ true) × (sent v ≡ sent w)
    unfolding EmptyWithin
    wait_empty_lem zero n w lt h = absurd (omega arith)
    wait_empty_lem (suc fuel) zero w lt h = (
      (transmit_empty ports port w).1,
      wait-done fuel w h,
      ready-transmit_empty w h,
      quiet-transmit_empty w,
    )
    wait_empty_lem (suc fuel) (suc n) w lt h =
        elim (Bool-cases ((transmit_empty ports port w).0 == 0)) [
          | inr done ↦ (
            (transmit_empty ports port w).1,
            wait-done fuel w done,
            ready-transmit_empty w done,
            quiet-transmit_empty w,
          )
          | inl full ↦
              let (v, e, empty, same) =
                wait_empty_lem fuel n (transmit_empty ports port w).1 (omega arith) (h full) in
              (v, wait-again fuel w full ∙ e, empty, same ∙ quiet-transmit_empty w)
        ]

    write_loop-step :
        (fuel c : ℕ) (text : List ℕ) (w v : W)
        → wait_empty ports fuel port w ≡ some v
        → write_loop ports fuel port (c ∷ text) w
          ≡ write_loop ports fuel port text (ports.outb port c v)
    unfolding write_loop
    write_loop-step fuel c text w v e = rw (write_loop, e) refl

    write_loop_lem :
        (fuel n : ℕ) (text : List ℕ) (w : W)
        → n < fuel
        → ((v : W) → EmptyWithin n v)
        → (v : W) × (write_loop ports fuel port text w ≡ some v) × (sent v ≡ sent w ++ text)
    write_loop_lem fuel n [] w lt h = (w, unfold write_loop in refl, sym (append-nil (sent w)))
    write_loop_lem fuel n (c ∷ text) w lt h =
        let (v, e, empty, same) = wait_empty_lem fuel n w lt (h w) in
        let (u, f, out) = write_loop_lem fuel n text (ports.outb port c v) lt h in
        (
          u,
          write_loop-step fuel c text w v e ∙ f,
          out
              ∙ ap (λ l. l ++ text) (uart.sends c v empty ∙ ap (λ l. l ++ (c ∷ [])) same)
              ∙ append_assoc (sent w) (c ∷ []) text,
        )

write-ready :
    {W : Type 0} (ports : BytePorts W) (port fuel index : ℕ) (status : Status) (text : List ℕ)
    (w : W)
    → get_port_index port ≡ some index
    → status index ≡ true
    → write ports fuel port status text w ≡ write_loop ports fuel port text w
unfolding write
write-ready ports port fuel index status text w at_index ready = rw (write, at_index, ready) refl

-- `Write` to a port that was initialized returns, given fuel for the wait of one character and one round
-- more, on a device whose transmit buffer empties within that wait; it has then sent its data in order,
-- and nothing else.
pub write_lem :
    {W : Type 0} (ports : BytePorts W) (port : ℕ) (ready : W → Bool) (sent : W → List ℕ)
    (fuel n index : ℕ) (status : Status) (text : List ℕ) (w : W)
    → IsUart ports port ready sent
    → ((v : W) → EmptyWithin ports port n v)
    → n < fuel
    → get_port_index port ≡ some index
    → status index ≡ true
    → (v : W) × (write ports fuel port status text w ≡ some v) × (sent v ≡ sent w ++ text)
write_lem ports port ready sent fuel n index status text w uart empties enough at_index started =
    let (v, e, out) = write_loop_lem ports port ready sent uart fuel n text w enough empties in
    (v, write-ready ports port fuel index status text w at_index started ∙ e, out)
