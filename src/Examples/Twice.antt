-- ===== src/Examples/Twice.antt =====
-- A committed free of a block that a restart finds in the log.
use nvm_malloc.Base.{
  ℕ, ◌+◌, ◌^◌, ◌≤◌, ◌≡◌, refl, inl, ◌∙◌, ap, arith, true, some, List, [], ◌∷◌, ◌++◌, ◌==◌,
  if◌then◌else◌, bit_or,
}
use nvm_malloc.Types.{usage_block, usage_free, state_freeing, state_initialized}
use nvm_malloc.Util.{identify_usage}
use nvm_malloc.Util.Usage.{large, identify_usage_lem}
use nvm_malloc.Nvm.{Mem, Event}
use nvm_malloc.Links.Replay.{replay_links-clear}
use nvm_malloc.Header.{block, recover, resettle}
use nvm_malloc.Header.Repair.{recover-freeing}
use nvm_malloc.Tree.{weight}
use nvm_malloc.State.{State, set_mem}
use nvm_malloc.Arena.Pages.{tree_of}
use nvm_malloc.NvmMalloc.Startup.{recover_entry, nvm_recovery_thread}
use nvm_malloc.NvmMalloc.Startup.Walk.{unused}
use nvm_malloc.NvmMalloc.Startup.Thread.{arena}
use nvm_malloc.NvmMalloc.Startup.Twice.{is_at, recover_entry-twice}
use nvm_malloc.Examples.Heap.{env, state}

abbrev freed : ℕ
freed = 2 ^ 32 + 4096

-- One chunk with one block, whose free is committed, and the block's entry in the log.
abbrev cut_off : Mem
cut_off a =
    if a == 2 ^ 32
    then 34
    else if a == 2 ^ 32 + 4096
    then bit_or usage_block state_freeing
    else if a == 2 ^ 32 + 4100
    then 1023
    else if a == 2 ^ 30 + 8
    then 4160
    else 0

abbrev repair : List Event
repair = resettle freed (bit_or usage_free state_initialized)

cut_off-recover : recover (2 ^ 32) block cut_off freed ≡ some (repair, true)
cut_off-recover =
    recover-freeing (2 ^ 32) block freed cut_off refl
    ∙ ap (λ replay. some (replay ++ repair, true))
        (replay_links-clear (2 ^ 32) (freed + 8) cut_off refl)

cut_off-usage : identify_usage cut_off (2 ^ 32) (freed + 64) ≡ usage_block
cut_off-usage =
    identify_usage_lem cut_off (2 ^ 32) (large 0 1) (omega arith)
      (omega arith, omega arith, inl refl)

recover_entry-twice_example :
    (t : State) × (u : State) × (recover_entry env 0 (set_mem cut_off state) ≡ some t)
    × (nvm_recovery_thread env 1 t ≡ some u)
    × (2 ≤ weight (is_at freed) (tree_of 0 u))
recover_entry-twice_example =
    recover_entry-twice env (set_mem cut_off state) freed 0 0 1023 repair 1
      (arena (unused 1023 0 ∷ []) ∷ []) (omega arith) refl refl cut_off-usage cut_off-recover refl
      (omega arith) refl refl
      (
        omega arith,
        (refl, (omega arith, (refl, refl, refl, omega arith, omega arith), omega arith)),
        omega arith,
      )
      (omega arith)
