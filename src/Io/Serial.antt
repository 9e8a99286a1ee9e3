-- ===== src/Io/Serial.antt =====
-- kernel/IO/Serial.h and Serial.cpp. The ports are outside the source: they are operations on a world `W`.
pub mod Sent
use boreal_os.Base.{
  ℕ, zero, suc, ◌+◌, Bool, true, false, ◌==◌, if◌then◌else◌, bit_and, Option, none, some, List, [],
  ◌∷◌,
}

-- `Port::inb` and `Port::outb`, by port.
pub record BytePorts (W : Type 0) : Type 0 where
  pub inb : ℕ → W → ℕ × W
  pub outb : ℕ → ℕ → W → W

-- The index of one of the eight ports.
unfoldable pub get_port_index : ℕ → Option ℕ
get_port_index port =
    if port == 0x3F8
    then some 0
    else if port == 0x2F8
    then some 1
    else if port == 0x3E8
    then some 2
    else if port == 0x2E8
    then some 3
    else if port == 0x5F8
    then some 4
    else if port == 0x4F8
    then some 5
    else if port == 0x5E8
    then some 6
    else if port == 0x4E8
    then some 7
    else none

-- `portsInitStatus`
abbrev pub Status : Type 0
Status = ℕ → Bool

module _ {W : Type 0} (ports : BytePorts W) where
  unfoldable pub transmit_empty : ℕ → W → ℕ × W
  transmit_empty port w = let (value, w) = ports.inb (port + 5) w in (bit_and value 0x20, w)

  unfoldable pub available : ℕ → W → ℕ × W
  available port w = let (value, w) = ports.inb (port + 5) w in (bit_and value 1, w)

  -- The loop that waits for the transmit buffer; `none` says that the fuel ran out.
  unfoldable pub wait_empty : ℕ → ℕ → W → Option W
  wait_empty zero port w = none
  wait_empty (suc fuel) port w = elim ((transmit_empty port w).0 == 0) [
    | true ↦ wait_empty fuel port (transmit_empty port w).1
    | false ↦ some (transmit_empty port w).1
  ]

  -- The loop of `Write` over the characters.
  unfoldable pub write_loop : ℕ → ℕ → List ℕ → W → Option W
  write_loop fuel port [] w = some w
  write_loop fuel port (c ∷ text) w = elim (wait_empty fuel port w) [
    | none ↦ none
    | some w ↦ write_loop fuel port text (ports.outb port c w)
  ]

  -- `none` also stands for a port without an index, for which the source reads outside its array.
  unfoldable pub write : ℕ → ℕ → Status → List ℕ → W → Option W
  write fuel port status text w = elim (get_port_index port) [
    | none ↦ none
    | some index ↦ if status index then write_loop fuel port text w else some w
  ]

  -- The loop of `PortExists`, with `left` tries to go; `IOWait` writes 0 to port 0x80.
  unfoldable pub exists_loop : ℕ → ℕ → W → Bool × W
  exists_loop zero port w = (false, w)
  exists_loop (suc left) port w = elim ((transmit_empty port w).0 == 0) [
    | true ↦ exists_loop left port (ports.outb 0x80 0 (transmit_empty port w).1)
    | false ↦ (true, (transmit_empty port w).1)
  ]

  unfoldable pub port_exists : ℕ → W → Bool × W
  port_exists port w = exists_loop 1000 port w

  -- The writes of `Initialize`.
  unfoldable pub configure : ℕ → W → W
  configure port w =
      let w = ports.outb (port + 1) 0x00 w in
      let w = ports.outb (port + 3) 0x80 w in
      let w = ports.outb (port + 0) 0x03 w in
      let w = ports.outb (port + 1) 0x00 w in
      let w = ports.outb (port + 3) 0x03 w in
      let w = ports.outb (port + 2) 0xC7 w in ports.outb (port + 4) 0x0B w

  unfoldable pub initialize : ℕ → Status → W → Option (Status × W)
  initialize port status w =
      let (there, w) = port_exists port (configure port w) in
      if there
      then elim (get_port_index port) [
        | none ↦ none
        | some index ↦ some (λ i. if index == i then true else status i, w)
      ]
      else some (status, w)

unfoldable pub port_initialized : ℕ → Status → Option Bool
port_initialized port status = elim (get_port_index port) [
  | none ↦ none
  | some index ↦ some (status index)
]
