-- ===== src/Bits.antt =====
-- The bits of a run's bitmap byte, by evaluation over all bytes and bits.
use nvm_malloc.Base.{
  ℕ, zero, suc, ◌-◌, ◌/◌, ◌%◌, ◌^◌, ◌<◌, ◌≡◌, refl, arith, bit_or, bit_and, Bool, true, false, ◌==◌,
  ==→eq, if◌then◌else◌,
}

-- `b |= 1 << i`
abbrev pub set_bit : ℕ → ℕ → ℕ
set_bit b i = bit_or b (2 ^ i)

-- `b &= ~(1 << i)`, on the eight bits of a char
abbrev pub clear_bit : ℕ → ℕ → ℕ
clear_bit b i = bit_and b (255 - 2 ^ i)

-- `(b & (1 << i)) != 0`, as a number
abbrev pub test_bit : ℕ → ℕ → ℕ
test_bit b i = b / 2 ^ i % 2

-- The test holds of every number below the bound.
every : (test : ℕ → Bool) → (bound : ℕ) → Bool
every test zero = true
every test (suc bound) = let rest = every test bound in if test bound then rest else false

every-lookup : (test : ℕ → Bool) (bound i : ℕ) → i < bound → every test bound ≡ true → test i ≡ true
unfolding every
every-lookup test zero i lt held = absurd (omega arith)
every-lookup test (suc bound) i lt held = ground (arith, every-lookup test bound i)

-- A fact about a byte and one of its bits, checked at every pair.
abbrev for_bits : (ℕ → ℕ → Bool) → Bool
for_bits p = every (λ b. every (p b) 8) 256

for_bits_sound : (p : ℕ → ℕ → Bool) (b i : ℕ) → for_bits p ≡ true → b < 256 → i < 8 → p b i ≡ true
for_bits_sound p b i h hb hi =
    every-lookup (p b) 8 i hi (every-lookup (λ x. every (p x) 8) 256 b hb h)

set_twice : ℕ → ℕ → Bool
set_twice b i = set_bit (set_bit b i) i == set_bit b i

clear_twice : ℕ → ℕ → Bool
clear_twice b i = clear_bit (clear_bit b i) i == clear_bit b i

pub set_bit_idem : (b i : ℕ) → b < 256 → i < 8 → set_bit (set_bit b i) i ≡ set_bit b i
unfolding set_twice every
set_bit_idem b i hb hi = ==→eq _ _ (for_bits_sound set_twice b i refl hb hi)

pub clear_bit_idem : (b i : ℕ) → b < 256 → i < 8 → clear_bit (clear_bit b i) i ≡ clear_bit b i
unfolding clear_twice every
clear_bit_idem b i hb hi = ==→eq _ _ (for_bits_sound clear_twice b i refl hb hi)

-- A write of one bit changes the test of that bit alone.
test_set : ℕ → ℕ → ℕ → Bool
test_set j b i = test_bit (set_bit b i) j == (if i == j then 1 else test_bit b j)

test_clear : ℕ → ℕ → ℕ → Bool
test_clear j b i = test_bit (clear_bit b i) j == (if i == j then 0 else test_bit b j)

pub test_bit-set_bit :
    (b i j : ℕ)
    → b < 256
    → i < 8
    → j < 8
    → test_bit (set_bit b i) j ≡ (if i == j then 1 else test_bit b j)
unfolding test_set every
test_bit-set_bit b i j hb hi hj =
    ==→eq _ _ (
      for_bits_sound (test_set j) b i (every-lookup (λ k. for_bits (test_set k)) 8 j hj refl) hb hi)

pub test_bit-clear_bit :
    (b i j : ℕ)
    → b < 256
    → i < 8
    → j < 8
    → test_bit (clear_bit b i) j ≡ (if i == j then 0 else test_bit b j)
unfolding test_clear every
test_bit-clear_bit b i j hb hi hj = ==→eq _ _ (
    for_bits_sound (test_clear j) b i (every-lookup (λ k. for_bits (test_clear k)) 8 j hj refl) hb
      hi)

set_small : ℕ → ℕ → Bool
set_small b i = set_bit b i / 256 == 0

clear_small : ℕ → ℕ → Bool
clear_small b i = clear_bit b i / 256 == 0

pub set_bit-lt : (b i : ℕ) → b < 256 → i < 8 → set_bit b i < 256
unfolding set_small every
set_bit-lt b i hb hi =
    omega (arith, ==→eq (set_bit b i / 256) 0 (for_bits_sound set_small b i refl hb hi))

pub clear_bit-lt : (b i : ℕ) → b < 256 → i < 8 → clear_bit b i < 256
unfolding clear_small every
clear_bit-lt b i hb hi =
    omega (arith, ==→eq (clear_bit b i / 256) 0 (for_bits_sound clear_small b i refl hb hi))
