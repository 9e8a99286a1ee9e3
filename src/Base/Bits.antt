-- ===== src/Base/Bits.antt =====
-- The bits of one byte: `b & (1 << i)`, `b |= (1 << i)` and `b &= ~(1 << i)` on a `uint8_t`.
use Prim.Native.Nat.{ℕ, zero, suc, ◌-◌, ◌^◌, ◌<◌, bit_and, bit_or, bit_and-bitwise}
use mathlib.Core.Path.{◌≡◌, refl}
use mathlib.Core.Logic.{◌≢◌}
use mathlib.Core.Bool.{Bool, true, false, not, ◌&&◌}
use native.Mathlib.Omega.{arith}
use boreal_os.Base.Tests.{ltb, ◌==◌, ==_iff, ==_ne, if◌then◌else◌}

-- `(byte & (1 << bit)) != 0`
unfoldable pub test_bit : ℕ → ℕ → Bool
test_bit byte bit = not (bit_and byte (2 ^ bit) == 0)

-- `byte | (1 << bit)`
unfoldable pub set_bit : ℕ → ℕ → ℕ
set_bit byte bit = bit_or byte (2 ^ bit)

-- `byte & ~(1 << bit)`, cut to 8 bits
unfoldable pub clear_bit : ℕ → ℕ → ℕ
clear_bit byte bit = bit_and byte (255 - 2 ^ bit)

abbrev same : Bool → Bool → Bool
same true c = c
same false c = not c

same→eq : (b c : Bool) → same b c ≡ true → b ≡ c
same→eq true true h = refl
same→eq true false h = cc
same→eq false true h = cc
same→eq false false h = refl

-- Every value below a bound, by evaluation.
every : ℕ → (ℕ → Bool) → Bool
every zero p = true
every (suc n) p = every n p && p n

every_at : (n : ℕ) (p : ℕ → Bool) (x : ℕ) → every n p ≡ true → x < n → p x ≡ true
unfolding every
every_at zero p x h lt = absurd (omega arith)
every_at (suc n) p x h lt = ground (arith, every_at n p x)

-- A law of a byte `x` and two bit numbers, checked over all of them.
abbrev law_at : (ℕ → ℕ → ℕ → Bool) → Bool
law_at p = every 256 (λ x. every 8 (λ b. every 8 (λ c. p x b c)))

law_lem :
    (p : ℕ → ℕ → ℕ → Bool) (x b c : ℕ) → law_at p ≡ true → x < 256 → b < 8 → c < 8 → p x b c ≡ true
law_lem p x b c h hx hb hc =
    every_at 8 (λ c. p x b c) c
      (every_at 8 (λ b. every 8 (λ c. p x b c)) b
        (every_at 256 (λ x. every 8 (λ b. every 8 (λ c. p x b c))) x h hx) hb)
      hc

abbrev set_law : ℕ → ℕ → ℕ → Bool
set_law x b c = same (test_bit (set_bit x b) c) (if b == c then true else test_bit x c)

abbrev clear_law : ℕ → ℕ → ℕ → Bool
clear_law x b c = same (test_bit (clear_bit x b) c) (if b == c then false else test_bit x c)

abbrev bound_law : ℕ → ℕ → ℕ → Bool
bound_law x b c = ltb (set_bit x b) 256 && ltb (clear_bit x b) 256

abbrev commute_law : ℕ → ℕ → ℕ → Bool
commute_law x b c = if b == c then true else clear_bit (set_bit x b) c == set_bit (clear_bit x c) b

abbrev undo_law : ℕ → ℕ → ℕ → Bool
undo_law x b c = if test_bit x b then true else clear_bit (set_bit x b) b == x

set_table : law_at set_law ≡ true
unfolding every test_bit set_bit
set_table = refl

clear_table : law_at clear_law ≡ true
unfolding every test_bit clear_bit
clear_table = refl

bound_table : law_at bound_law ≡ true
unfolding every set_bit clear_bit
bound_table = refl

commute_table : law_at commute_law ≡ true
unfolding every set_bit clear_bit
commute_table = refl

undo_table : law_at undo_law ≡ true
unfolding every test_bit set_bit clear_bit
undo_table = refl

module _ (x b c : ℕ) (hx : x < 256) (hb : b < 8) (hc : c < 8) where
  pub test_bit-set_bit : test_bit (set_bit x b) c ≡ (if b == c then true else test_bit x c)
  test_bit-set_bit = same→eq _ _ (law_lem set_law x b c set_table hx hb hc)

  pub test_bit-clear_bit : test_bit (clear_bit x b) c ≡ (if b == c then false else test_bit x c)
  test_bit-clear_bit = same→eq _ _ (law_lem clear_law x b c clear_table hx hb hc)

  pub clear_bit-set_bit_comm : b ≢ c → clear_bit (set_bit x b) c ≡ set_bit (clear_bit x c) b
  clear_bit-set_bit_comm ne =
      (==_iff _ _).0 (rw (==_ne b c ne) at (law_lem commute_law x b c commute_table hx hb hc))

module _ (x b : ℕ) (hx : x < 256) (hb : b < 8) where
  pub set_bit-lt : set_bit x b < 256
  set_bit-lt = ground (arith, law_lem bound_law x b b bound_table hx hb hb)

  pub clear_bit-lt : clear_bit x b < 256
  clear_bit-lt = ground (arith, law_lem bound_law x b b bound_table hx hb hb)

  pub clear_bit-set_bit : test_bit x b ≡ false → clear_bit (set_bit x b) b ≡ x
  clear_bit-set_bit h = (==_iff _ _).0 (rw h at (law_lem undo_law x b b undo_table hx hb hb))

pub test_bit-zero : (b : ℕ) → test_bit 0 b ≡ false
unfolding test_bit
test_bit-zero b = rw (bit_and-bitwise 0 (2 ^ b))

full_table : every 8 (λ b. test_bit 255 b) ≡ true
unfolding every test_bit
full_table = refl

pub test_bit-full : (b : ℕ) → b < 8 → test_bit 255 b ≡ true
test_bit-full b h = every_at 8 (λ b. test_bit 255 b) b full_table h

abbrev all_bits : ℕ → Bool
all_bits x = every 8 (λ b. test_bit x b)

all_bits_table : every 256 (λ x. if all_bits x then x == 255 else true) ≡ true
unfolding every test_bit
all_bits_table = refl

all_bits_of :
    (x n : ℕ) → ((b : ℕ) → b < n → test_bit x b ≡ true) → every n (λ b. test_bit x b) ≡ true
unfolding every
all_bits_of x zero h = refl
all_bits_of x (suc n) h = rw (all_bits_of x n (λ b lt. h b (omega arith)), h n (omega arith)) refl

-- A byte whose eight bits are set is 255.
pub full_of_bits : (x : ℕ) → x < 256 → ((b : ℕ) → b < 8 → test_bit x b ≡ true) → x ≡ 255
full_of_bits x hx h = (==_iff _ _).0 (
    rw (all_bits_of x 8 h) at
      (every_at 256 (λ x. if all_bits x then x == 255 else true) x all_bits_table hx))
