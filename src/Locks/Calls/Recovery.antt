-- ===== src/Locks/Calls/Recovery.antt =====
-- `nvm_recovery_thread` of src/nvm_malloc.c as a program, which runs beside the calls.
use nvm_malloc.Base.{ℕ, zero, suc, ◌+◌, ◌*◌, ◌/◌, none, ltb, ◌==◌, if◌then◌else◌}
use nvm_malloc.Types.{block_size, chunk_size, get_usage, usage_free, usage_run, usage_arena}
use nvm_malloc.Types.Block
use nvm_malloc.State.{Env}
use nvm_malloc.Arena.{put_block}
use nvm_malloc.Arena.Free.{arena_create_block_header}
use nvm_malloc.Locks.{arena_mtx, Program, done, ◌>>=◌, ◌>>◌, acquire, release, perform}
use nvm_malloc.Locks.Calls.{read, modify}
use nvm_malloc.Locks.Calls.Frees.{renew_run_steps}

module _ (env : Env) where
  -- A free block goes into its arena's tree; the result is the page behind it.
  unfoldable pub list_block_steps : (h j : ℕ) → Program ℕ
  list_block_steps h j = do
    b ← read (arena_create_block_header h)
    acquire (arena_mtx b.arena)
    modify (put_block env b.arena b)
    release (arena_mtx b.arena)
    read (λ s. j + s.mem (h + Block.n_units))

  unfoldable pub walk_page_steps : (h j : ℕ) → Program ℕ
  walk_page_steps h j = do
    usage ← read (λ s. get_usage (s.mem h))
    if usage == usage_free
        then list_block_steps h j
        else if usage == usage_run
        then (do run ← renew_run_steps h; done (j + 1))
        else read (λ s. j + s.mem (h + Block.n_units))

  -- The process "ends" where the fuel does: the loop goes on for ever.
  unfoldable pub walk_pages_steps : (chunk fuel : ℕ) → ℕ → Program (Unit {0})
  walk_pages_steps chunk zero j = perform (λ s. none)
  walk_pages_steps chunk (suc fuel) j =
      if ltb j (chunk_size / block_size)
      then (do j' ← walk_page_steps (chunk + j * block_size) j; walk_pages_steps chunk fuel j')
      else done tt

  unfoldable pub walk_chunk_steps : ℕ → Program ℕ
  walk_chunk_steps i = do
    (chunk, usage) ←
        read (λ s. (s.nvm_start + i * chunk_size, get_usage (s.mem (s.nvm_start + i * chunk_size))))
    if usage == usage_arena
        then (do walk_pages_steps chunk 1024 1; done (i + 1))
        else read (λ s. i + s.mem (chunk + Block.n_units))

  unfoldable pub walk_chunks_steps : (fuel n_chunks : ℕ) → ℕ → Program (Unit {0})
  walk_chunks_steps zero n_chunks i = perform (λ s. none)
  walk_chunks_steps (suc fuel) n_chunks i =
      if ltb i n_chunks
      then (do i' ← walk_chunk_steps i; walk_chunks_steps fuel n_chunks i')
      else done tt

  unfoldable pub recovery_steps : (n_chunks : ℕ) → Program (Unit {0})
  recovery_steps n_chunks = walk_chunks_steps (n_chunks + 1) n_chunks 0
