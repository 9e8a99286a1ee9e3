-- ===== src/Tests/Serial.antt =====
-- A serial port whose buffer takes two reads of the status to empty, and which loses what is written to
-- it before. Its state is what it sent, and how many reads are to come.
use boreal_os.Base.{ℕ, ◌≡◌, refl, Bool, true, ◌==◌, if◌then◌else◌, arith, some, List, [], ◌∷◌, ◌++◌}
use boreal_os.Io.Serial.{BytePorts, get_port_index, transmit_empty, write}
use boreal_os.Io.Serial.Sent.{IsUart, EmptyWithin, write_lem}

abbrev State : Type 0
State = List ℕ × ℕ

abbrev reads_left : ℕ → ℕ
reads_left k = if k == 0 then 0 else if k == 1 then 0 else 1

abbrev uart : BytePorts State
uart = record {
  inb = λ a w. (if w.1 == 0 then 0x20 else if w.1 == 1 then 0x20 else 0, (w.0, reads_left w.1));
  outb = λ a c w. if w.1 == 0 then (w.0 ++ (c ∷ []), 3) else w;
}

abbrev is_ready : State → Bool
is_ready w = w.1 == 0

abbrev content : State → List ℕ
content w = w.0

uart-IsUart : IsUart uart 0x3F8 is_ready content
uart-IsUart = record {
  shows = λ w h. ground arith;
  sends = λ c w h. ground arith;
  quiet = λ a w. refl;
}

empties : (v : State) → EmptyWithin uart 0x3F8 2 v
unfolding EmptyWithin transmit_empty
empties v = λ a b. ground arith

index_zero : get_port_index 0x3F8 ≡ some 0
unfolding get_port_index
index_zero = refl

write_example :
    (v : State) × (write uart 3 0x3F8 (λ i. true) (72 ∷ 105 ∷ []) ([], 0) ≡ some v)
    × (content v ≡ content ([], 0) ++ (72 ∷ 105 ∷ []))
write_example =
    write_lem uart 0x3F8 is_ready content 3 2 0 (λ i. true) (72 ∷ 105 ∷ []) ([], 0) uart-IsUart
      empties (omega arith) index_zero refl
