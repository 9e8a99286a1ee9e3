-- ===== src/Interrupts/Ioapic/Layout.antt =====
-- A packed redirection entry holds its fields where the controller reads them.
use boreal_os.Base.{
  ℕ, ◌+◌, ◌*◌, ◌^◌, ◌<◌, ◌≡◌, refl, ◌∙◌, bit_or, arith, Bool, true, false, if◌then◌else◌,
}
use boreal_os.Base.Masks.{bit_or-zero}
use boreal_os.Base.Fields.{field, or_above}
use boreal_os.Interrupts.Ioapic.{RedirectionEntry, pack}

-- Every field fits the bits that the controller has for it.
pub record Fits (e : RedirectionEntry) : Type 0 where
  pub vector : e.vector < 2 ^ 8
  pub delivery : e.delivery_mode < 2 ^ 3
  pub destination_mode : e.destination_mode < 2
  pub polarity : e.polarity < 2
  pub trigger : e.trigger_mode < 2
  pub destination : e.destination < 2 ^ 8

abbrev pub mask_bit : Bool → ℕ
mask_bit b = if b then 1 else 0

mask-or :
    (x : ℕ) (b : Bool) → x < 2 ^ 16 → bit_or x (if b then 2 ^ 16 else 0) ≡ x + mask_bit b * 2 ^ 16
mask-or x true h = or_above 16 x 1 h (omega arith)
mask-or x false h = bit_or-zero x ∙ omega arith

pack-sum :
    (e : RedirectionEntry)
    → Fits e
    → pack e
      ≡ e.vector
        + e.delivery_mode * 2 ^ 8
        + e.destination_mode * 2 ^ 11
        + e.polarity * 2 ^ 13
        + e.trigger_mode * 2 ^ 15
        + mask_bit e.masked * 2 ^ 16
        + e.destination * 2 ^ 56
unfolding pack
pack-sum e f =
    let m : mask_bit e.masked < 2 = ground arith in
    let a = f.vector in
    let b = f.delivery in
    let c = f.destination_mode in
    let d = f.polarity in
    let g = f.trigger in
    let s1 = e.vector + e.delivery_mode * 2 ^ 8 in
    let s2 = s1 + e.destination_mode * 2 ^ 11 in
    let s3 = s2 + e.polarity * 2 ^ 13 in
    let s4 = s3 + e.trigger_mode * 2 ^ 15 in
    let s5 = s4 + mask_bit e.masked * 2 ^ 16 in
    rw
      (
        or_above 8 e.vector e.delivery_mode a (omega arith),
        or_above 11 s1 e.destination_mode (omega arith) (omega arith),
        or_above 13 s2 e.polarity (omega arith) (omega arith),
        or_above 15 s3 e.trigger_mode (omega arith) (omega arith),
        mask-or s4 e.masked (omega arith),
        or_above 56 s5 e.destination (omega arith) (omega arith),
      )
      refl

-- `Pack` puts the vector into bits 0 to 7, the delivery mode into 8 to 10, the destination mode into
-- bit 11, the polarity into 13, the trigger mode into 15, the mask into 16 and the destination into
-- bits 56 to 63, for fields that fit; bits 12 and 14, which the controller writes, are 0.
pub pack_lem :
    (e : RedirectionEntry)
    → Fits e
    → (field 0 8 (pack e) ≡ e.vector)
      × (field 8 3 (pack e) ≡ e.delivery_mode)
      × (field 11 1 (pack e) ≡ e.destination_mode)
      × (field 12 1 (pack e) ≡ 0)
      × (field 13 1 (pack e) ≡ e.polarity)
      × (field 14 1 (pack e) ≡ 0)
      × (field 15 1 (pack e) ≡ e.trigger_mode)
      × (field 16 1 (pack e) ≡ mask_bit e.masked)
      × (field 56 8 (pack e) ≡ e.destination)
pack_lem e f =
    let sum = pack-sum e f in
    let m : mask_bit e.masked < 2 = ground arith in
    let a = f.vector in
    let b = f.delivery in
    let c = f.destination_mode in
    let d = f.polarity in
    let g = f.trigger in
    let h = f.destination in
    (
      omega (arith, sum),
      omega (arith, sum),
      omega (arith, sum),
      omega (arith, sum),
      omega (arith, sum),
      omega (arith, sum),
      omega (arith, sum),
      omega (arith, sum),
      omega (arith, sum),
    )
