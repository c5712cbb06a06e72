-- ===== src/BlockManager/Bits.antt =====
-- A bit of a byte, as `alloc_block` and `free_block` test, set and clear it with a mask. The masks
-- are `char`; a sign extension changes none of the eight bits that are kept.
use Prim.Native.Nat.{bit_and, bit_or}
use lab_cse.Prelude.{
  ℕ, zero, suc, ◌≡◌, refl, ◌<◌, ◌-◌, ◌^◌, Bool, true, false, not, ◌&&◌, ◌||◌, arith, ltb, ◌==◌,
}

-- `(byte & (1 << k)) != 0`
unfoldable pub test_bit : ℕ → ℕ → Bool
test_bit byte k = not (bit_and byte (2 ^ k) == 0)

-- `byte | (1 << k)`
unfoldable pub set_bit : ℕ → ℕ → ℕ
set_bit byte k = bit_or byte (2 ^ k)

-- `byte & ~(1 << k)`
unfoldable pub clear_bit : ℕ → ℕ → ℕ
clear_bit byte k = bit_and byte (255 - 2 ^ k)

-- The test holds of every number below the bound.
every : (ℕ → Bool) → ℕ → Bool
every test zero = true
every test (suc bound) = every test bound && test bound

at_each : (test : ℕ → Bool) (bound i : ℕ) → i < bound → every test bound ≡ true → test i ≡ true
unfolding every
at_each test zero i below e = absurd (omega arith)
at_each test (suc bound) i below e = ground (arith, at_each test bound i)

same : Bool → Bool → Bool
same true b = b
same false b = not b

same_sound : (a b : Bool) → same a b ≡ true → a ≡ b
unfolding same
same_sound true b h = ground arith
same_sound false b h = ground arith

-- What is checked of one byte and two bits of it.
laws : ℕ → ℕ → ℕ → Bool
laws b k j =
    same (test_bit (set_bit b k) j) ((j == k) || test_bit b j)
    && (same (test_bit (clear_bit b k) j) (not (j == k) && test_bit b j)
        && (ltb (set_bit b k) 256 && ltb (clear_bit b k) 256))

laws_table : every (λ b. every (λ k. every (laws b k) 8) 8) 256 ≡ true
unfolding every laws same test_bit set_bit clear_bit
laws_table = refl

laws_hold : (b k j : ℕ) → b < 256 → k < 8 → j < 8 → laws b k j ≡ true
laws_hold b k j hb hk hj = at_each (laws b k) 8 j hj (
    at_each (λ k. every (laws b k) 8) 8 k hk
      (at_each (λ b. every (λ k. every (laws b k) 8) 8) 256 b hb laws_table))

pub test_bit-set_bit :
    (b k j : ℕ) → b < 256 → k < 8 → j < 8 → test_bit (set_bit b k) j ≡ ((j == k) || test_bit b j)
unfolding laws
test_bit-set_bit b k j hb hk hj = ground (
  arith,
  laws_hold b k j hb hk hj,
  same_sound (test_bit (set_bit b k) j) ((j == k) || test_bit b j),
)

pub test_bit-clear_bit :
    (b k j : ℕ)
    → b < 256
    → k < 8
    → j < 8
    → test_bit (clear_bit b k) j ≡ (not (j == k) && test_bit b j)
unfolding laws
test_bit-clear_bit b k j hb hk hj = ground (
  arith,
  laws_hold b k j hb hk hj,
  same_sound (test_bit (clear_bit b k) j) (not (j == k) && test_bit b j),
)

pub set_bit-lt : (b k : ℕ) → b < 256 → k < 8 → set_bit b k < 256
unfolding laws
set_bit-lt b k hb hk = ground (arith, laws_hold b k k hb hk hk)

pub clear_bit-lt : (b k : ℕ) → b < 256 → k < 8 → clear_bit b k < 256
unfolding laws
clear_bit-lt b k hb hk = ground (arith, laws_hold b k k hb hk hk)

zero_table : every (λ j. same (test_bit 0 j) false) 8 ≡ true
unfolding every same test_bit
zero_table = refl

pub test_bit-zero : (k : ℕ) → k < 8 → test_bit 0 k ≡ false
test_bit-zero k h =
    same_sound (test_bit 0 k) false (at_each (λ j. same (test_bit 0 j) false) 8 k h zero_table)
