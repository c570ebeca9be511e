-- ===== src/Util/Round.antt =====
-- `round_up` of src/util.c against its meaning.
use native.Mathlib.Nat.{mod-lt, div-add-mod', mul-mod_left}
use nvm_malloc.Base.{ℕ, ◌+◌, ◌-◌, ◌*◌, ◌/◌, ◌%◌, ◌^◌, ◌≤◌, ◌<◌, ◌≡◌, arith}
use nvm_malloc.Util.{round_up}

next_multiple : (n k : ℕ) → 0 < k → n + k - n % k ≡ (n / k + 1) * k
next_multiple n k pos = omega (arith, div-add-mod' n k, mod-lt n pos)

next_multiple-mod : (n k : ℕ) → 0 < k → (n + k - n % k) % k ≡ 0
next_multiple-mod n k pos = rw (next_multiple n k pos) (mul-mod_left (n / k + 1) k)

-- Without overflow `round_up n k` is the least multiple of `k` that is not below `n`: it is a
-- multiple, it is at least `n`, and it exceeds `n` by less than `k`.
round_up_lem :
    (n k : ℕ)
    → 0 < k
    → n + k < 2 ^ 64
    → (round_up n k % k ≡ 0) × (n ≤ round_up n k) × (round_up n k < n + k)
unfolding round_up
round_up_lem n k pos fits = (
  ground (arith, mod-lt n pos, next_multiple-mod n k pos),
  ground (arith, mod-lt n pos),
  ground (arith, mod-lt n pos),
)
