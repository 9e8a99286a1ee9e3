-- ===== src/Interrupts/Lapic/Command.antt =====
-- The command word of an interprocessor interrupt holds its fields where the controller reads them.
use boreal_os.Base.{ℕ, ◌+◌, ◌*◌, ◌^◌, ◌<◌, ◌≡◌, refl, arith}
use boreal_os.Base.Fields.{field, or_above}
use boreal_os.Interrupts.Lapic.{
  DeliveryMode, fixed, lowest_priority, smi, nmi, init, ext_int, TriggerMode, edge, level,
  DestinationShorthand, no_shorthand, self, all_including_self, all_excluding_self, delivery_code,
  trigger_code, shorthand_code, command_word,
}

delivery_code-small : (mode : DeliveryMode) → delivery_code mode < 2 ^ 3
unfolding delivery_code
delivery_code-small fixed = omega arith
delivery_code-small lowest_priority = omega arith
delivery_code-small smi = omega arith
delivery_code-small nmi = omega arith
delivery_code-small init = omega arith
delivery_code-small ext_int = omega arith

trigger_code-small : (trigger : TriggerMode) → trigger_code trigger < 2
unfolding trigger_code
trigger_code-small edge = omega arith
trigger_code-small level = omega arith

shorthand_code-small : (kind : DestinationShorthand) → shorthand_code kind < 4
unfolding shorthand_code
shorthand_code-small no_shorthand = omega arith
shorthand_code-small self = omega arith
shorthand_code-small all_including_self = omega arith
shorthand_code-small all_excluding_self = omega arith

command_word-sum :
    (vector : ℕ) (mode : DeliveryMode) (trigger : TriggerMode) (kind : DestinationShorthand)
    → vector < 2 ^ 8
    → command_word vector mode trigger kind
      ≡ vector
        + delivery_code mode * 2 ^ 8
        + 1 * 2 ^ 14
        + trigger_code trigger * 2 ^ 15
        + shorthand_code kind * 2 ^ 18
unfolding command_word
command_word-sum vector mode trigger kind a =
    let b = delivery_code-small mode in
    let c = trigger_code-small trigger in
    let s1 = vector + delivery_code mode * 2 ^ 8 in
    let s2 = s1 + 1 * 2 ^ 14 in
    let s3 = s2 + trigger_code trigger * 2 ^ 15 in
    rw
      (
        or_above 8 vector (delivery_code mode) a (omega arith),
        or_above 14 s1 1 (omega arith) (omega arith),
        or_above 15 s2 (trigger_code trigger) (omega arith) (omega arith),
        or_above 18 s3 (shorthand_code kind) (omega arith) (omega arith),
      )
      refl

-- The word that `SendIPI` writes has the vector in bits 0 to 7, the delivery mode in 8 to 10, the level
-- set to assert in bit 14, the trigger mode in bit 15 and the shorthand in bits 18 and 19, for a vector
-- that fits. The destination mode is physical, and the delivery status and the reserved bits are 0.
pub command_word_lem :
    (vector : ℕ) (mode : DeliveryMode) (trigger : TriggerMode) (kind : DestinationShorthand)
    → vector < 2 ^ 8
    → (field 0 8 (command_word vector mode trigger kind) ≡ vector)
      × (field 8 3 (command_word vector mode trigger kind) ≡ delivery_code mode)
      × (field 11 1 (command_word vector mode trigger kind) ≡ 0)
      × (field 12 2 (command_word vector mode trigger kind) ≡ 0)
      × (field 14 1 (command_word vector mode trigger kind) ≡ 1)
      × (field 15 1 (command_word vector mode trigger kind) ≡ trigger_code trigger)
      × (field 16 2 (command_word vector mode trigger kind) ≡ 0)
      × (field 18 2 (command_word vector mode trigger kind) ≡ shorthand_code kind)
      × (command_word vector mode trigger kind < 2 ^ 20)
command_word_lem vector mode trigger kind a =
    let b = delivery_code-small mode in
    let c = trigger_code-small trigger in
    let d = shorthand_code-small kind in
    let sum = command_word-sum vector mode trigger kind a in
    (
      omega (arith, sum),
      omega (arith, sum),
      omega (arith, sum),
      omega (arith, sum),
      omega (arith, sum),
      omega (arith, sum),
      omega (arith, sum),
      omega (arith, sum),
      omega (arith, sum),
    )
