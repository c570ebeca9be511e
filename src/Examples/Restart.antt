-- ===== src/Examples/Restart.antt =====
-- The log, a restart that finds a half-done activation in it, and a heap for the recovery thread.
use nvm_malloc.Base.{
  ℕ, ◌+◌, ◌*◌, ◌^◌, ◌≡◌, inl, inr, refl, ◌⊎◌, ◌<◌, ◌≤◌, List, [], ◌∷◌, arith, some, update, ◌==◌,
  if◌then◌else◌, bit_or,
}
use nvm_malloc.Types.{chunk_size, block_size, usage_block, state_initialized}
use nvm_malloc.Nvm.{Mem, crash}
use nvm_malloc.Slot.{activating}
use nvm_malloc.Header.{block}
use nvm_malloc.Header.Atomic.{Outcome}
use nvm_malloc.Header.Again.{perform, first}
use nvm_malloc.State.{State, set_mem}
use nvm_malloc.NvmMalloc.Log.{log_all, log_slot, log_all_lem}
use nvm_malloc.NvmMalloc.Startup.{recover_entry, nvm_recovery_thread}
use nvm_malloc.NvmMalloc.Startup.Walk.{run, unused, IsWalked}
use nvm_malloc.NvmMalloc.Startup.Thread.{
  Extent, arena, huge, weigh_heap, nvm_recovery_thread-IsWalked,
}
use nvm_malloc.NvmMalloc.Startup.Entry.{recover_entry-Outcome}
use nvm_malloc.Examples.Headers.{start, region, links, links-Fits}
use nvm_malloc.Examples.Heap.{env, state}

-- The log, at 2 ^ 20, names the region of the links in its entry 2.
abbrev logged : Mem
logged a =
    if a == region then 18 else if a == 2 ^ 20 + 16 then chunk_size + 3 * block_size + 64 else 0

abbrev restarted : State
restarted = record state {
  nvm_start = 2 ^ 32;
  log_start = 2 ^ 20;
  mem = crash 7 (perform start block activating region links) logged;
}

recover_entry-Outcome_example :
    (t : State) × (recover_entry env 2 restarted ≡ some t)
    × Outcome start region 18
        (bit_or usage_block state_initialized)
        links
        (update logged (2 ^ 20 + 16) 0)
        t.mem
recover_entry-Outcome_example =
    recover_entry-Outcome env restarted 2 block activating 1 3 links logged links-Fits refl refl
      refl (omega arith) (omega arith, omega arith, inr refl) refl (inl (omega arith)) (omega arith)
      (omega arith) 7 first

abbrev pointers : List ℕ
pointers = (2 ^ 32 + 4160) ∷ (2 ^ 32 + 8256) ∷ (2 ^ 32 + 12352) ∷ []

log_all_lem_example :
    ((log_all pointers state).mem (log_slot state (0 + 1)) ≡ 8256)
    × ((a : ℕ)
        → (a < state.log_start) ⊎ (state.log_start + 8 * 127 ≤ a)
        → (log_all pointers state).mem a ≡ 0)
log_all_lem_example =
    log_all_lem ((2 ^ 32 + 4160) ∷ []) ((2 ^ 32 + 12352) ∷ []) (2 ^ 32 + 8256) state (omega arith)
      (omega arith)

-- A chunk of an arena with a run and one free block behind it, and a huge region of two chunks.
abbrev heap : Mem
heap a =
    if a == 2 ^ 32
    then 34
    else if a == 2 ^ 32 + 4096
    then 66
    else if a == 2 ^ 32 + 4098
    then 128
    else if a == 2 ^ 32 + 8192
    then 18
    else if a == 2 ^ 32 + 8196
    then 1022
    else if a == 2 ^ 32 + chunk_size
    then 82
    else if a == 2 ^ 32 + chunk_size + 4
    then 2
    else 0

abbrev extents : List Extent
extents = arena (run ∷ unused 1022 0 ∷ []) ∷ huge 2 ∷ []

nvm_recovery_thread-IsWalked_example :
    (t : State) × (nvm_recovery_thread env 3 (set_mem heap state) ≡ some t)
    × IsWalked (set_mem heap state) t (λ w a. weigh_heap w a (2 ^ 32) 0 extents)
nvm_recovery_thread-IsWalked_example =
    nvm_recovery_thread-IsWalked env 3 extents (set_mem heap state) refl (
      omega arith,
      (
        refl,
        (
          omega arith,
          (refl, omega arith),
          (omega arith, (refl, refl, refl, omega arith, omega arith), omega arith),
        ),
      ),
      (omega arith, ((λ e. omega arith), refl, omega arith), omega arith),
    )
