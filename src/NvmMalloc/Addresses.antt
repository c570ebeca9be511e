-- ===== src/NvmMalloc/Addresses.antt =====
-- `nvm_abs` and `nvm_rel` of src/nvm_malloc.c.
use nvm_malloc.Base.{ℕ, ◌^◌, ◌<◌, ◌≡◌, ◌≢◌, ◌⊎◌, arith, none, some, ◌>>=◌}
use nvm_malloc.State.{State}
use nvm_malloc.NvmMalloc.{nvm_abs, nvm_rel}

-- Once the library is initialised, NULL and every address behind the start of NVRAM come back from
-- their relative form; before, both calls fail.
nvm_abs-nvm_rel :
    (s : State) (p : ℕ)
    → (p ≡ 0) ⊎ ((s.nvm_start < p) × (p < 2 ^ 64))
    → (s.nvm_start ≢ 0 → (nvm_rel p s >>= λ r. nvm_abs r s) ≡ some p)
      × (s.nvm_start ≡ 0 → (nvm_rel p s ≡ none) × (nvm_abs p s ≡ none))
unfolding nvm_abs nvm_rel
nvm_abs-nvm_rel s p range = (λ ready. ground arith, λ unset. (rw unset, rw unset))
