-- ===== src/Locks/Calls.antt =====
-- The calls of src/nvm_malloc.c, with the functions of src/arena.c and src/chunk.c that they run, as
-- programs: their locks and unlocks, and what they do in between.
--
-- An access outside any mutex is to NVRAM, to what no other thread can reach yet, or to the maps
-- and counters of src/nvm_malloc.c that have no mutex. The search and the removal of an entry are
-- two accesses, as they are two calls of ulib.
pub mod Frees
pub mod Recovery
use nvm_malloc.Base.{
  u32, ℕ, zero, suc, ◌+◌, ◌-◌, ◌*◌, ◌/◌, ◌%◌, Bool, true, false, Option, none, some, ltb, leb, ◌==◌,
  if◌then◌else◌, update, u32, sub64,
}
use nvm_malloc.Types.{
  block_size, chunk_size, header_size, sclass_small_max, sclass_large_max, get_usage, usage_free,
  usage_block, usage_run, abs_to_rel,
}
use nvm_malloc.Types.Block
use nvm_malloc.Types.Run
use nvm_malloc.Nvm.{exec}
use nvm_malloc.Links.{Links}
use nvm_malloc.Header
use nvm_malloc.Header.{Kind}
use nvm_malloc.Slot
use nvm_malloc.Slot.{index_of, pending, freeing}
use nvm_malloc.Tree.{tree_upper_bound}
use nvm_malloc.Chunk.{activate_more_chunks}
use nvm_malloc.State.{ArenaBlock, Huge, State, Env, pages_of, chunks_of, set_mem, set_arena}
use nvm_malloc.Arena.{
  fresh_chunk, take_found, put_block, place_run, cut_block, place_block, take_slot, small_size,
  large_size, bin_of, run_initialized,
}
use nvm_malloc.Arena.Allocate.{install_run, listed_run}
use nvm_malloc.Arena.Free.{arena_create_run_header, arena_create_block_header, release_slot}
use nvm_malloc.NvmMalloc.{fresh_huge, huge_end, cut_huge, chunks_for, thread_arena, log_activate}
use nvm_malloc.Locks.{
  Mutex, run_state, bin_mtx, arena_mtx, huge_mtx, space_mtx, Program, done, lock, unlock, access,
  ◌>>=◌, ◌>>◌, acquire, release, perform,
}

-- A part of the code that cannot end the process.
abbrev pub compute : {B : Type 0} → (State → B × State) → Program B
compute f = perform (λ s. some (f s))

abbrev pub read : {B : Type 0} → (State → B) → Program B
read f = compute (λ s. (f s, s))

abbrev pub modify : (State → State) → Program (Unit {0})
modify f = compute (λ s. (tt, f s))

module _ (env : Env) where
  abbrev pub grow : ℕ → State → Option (ℕ × State)
  grow n s = elim (activate_more_chunks env.os n s.space) [
    | none ↦ none
    | some (chunk, space) ↦ some (chunk, record s { space = space })
  ]

  unfoldable pub activate_chunks_steps : ℕ → Program ℕ
  activate_chunks_steps n = do
    acquire space_mtx
    chunk ← perform (grow n)
    release space_mtx
    done chunk

  unfoldable pub add_chunk_steps : (arena : ℕ) → Program ArenaBlock
  add_chunk_steps arena = do chunk ← activate_chunks_steps 1; compute (fresh_chunk arena chunk)

  -- Of `arena_create_run` and `arena_create_block`, under the arena's mutex.
  unfoldable pub take_found_steps : (arena : ℕ) → Option ArenaBlock → Program ArenaBlock
  take_found_steps arena none = add_chunk_steps arena
  take_found_steps arena (some b) = perform (λ s. take_found env arena s (some b))

  unfoldable pub take_block_steps : (arena n_pages : ℕ) → Program ArenaBlock
  take_block_steps arena n_pages = do
    found ← read (λ s. tree_upper_bound pages_of n_pages (s.arenas arena).free_pageruns)
    take_found_steps arena found

  -- A block of more than a page keeps the arena's mutex until the rest of it is in the tree.
  unfoldable pub create_run_steps : (arena bin n_bytes : ℕ) → Program ℕ
  create_run_steps arena bin n_bytes = if n_bytes == 0 then perform (λ s. none) else (do
    acquire (arena_mtx arena)
    b ← take_block_steps arena 1
    if ltb 1 b.n_pages
        then (do
          run ← compute (place_run env arena bin n_bytes b)
          release (arena_mtx arena)
          done run)
        else (do release (arena_mtx arena); compute (place_run env arena bin n_bytes b)))

  unfoldable pub create_block_steps : (arena n_pages : ℕ) → Program ℕ
  create_block_steps arena n_pages = do
    acquire (arena_mtx arena)
    b ← take_block_steps arena n_pages
    if ltb n_pages b.n_pages
        then (do
          nvm_block ← perform (place_block env arena n_pages b)
          release (arena_mtx arena)
          done nvm_block)
        else (do release (arena_mtx arena); compute (cut_block env arena n_pages b))

  -- Of `arena_allocate`, under the bin's mutex.
  unfoldable pub choose_run_steps : (arena bin n_bytes : ℕ) → Program ℕ
  choose_run_steps arena bin n_bytes = do
    full ← read (λ s. ((s.arenas arena).bins bin).n_free == 0)
    if full
        then (do
          run ← create_run_steps arena bin n_bytes
          modify (install_run arena bin n_bytes run)
          done run)
        else perform (listed_run arena bin)

  unfoldable pub allocate_small_steps : (arena bin n_bytes : ℕ) → Program ℕ
  allocate_small_steps arena bin n_bytes = do
    acquire (bin_mtx arena bin)
    run ← choose_run_steps arena bin n_bytes
    ptr ← compute (take_slot arena bin n_bytes run)
    release (bin_mtx arena bin)
    done ptr

  unfoldable pub arena_allocate_steps : (arena n_bytes : ℕ) → Program ℕ
  arena_allocate_steps arena n_bytes =
      if ltb sclass_large_max n_bytes
      then perform (λ s. none)
      else if leb n_bytes sclass_small_max
      then (let n = small_size n_bytes in
          if ltb (bin_of n) 31
          then allocate_small_steps arena (bin_of n) n
          else perform (λ s. none))
      else (do
        nvm_block ← create_block_steps arena (large_size n_bytes / block_size)
        done (nvm_block + header_size))

  unfoldable pub reserve_huge_steps : (n_chunks : ℕ) → Program ℕ
  reserve_huge_steps n_chunks = do
    h ← activate_chunks_steps n_chunks
    modify (fresh_huge h n_chunks)
    done h

  -- The free region is out of the tree while it is cut.
  unfoldable pub reserve_chunks_steps : (n_chunks : ℕ) → Option Huge → Program ℕ
  reserve_chunks_steps n_chunks none = do release huge_mtx; reserve_huge_steps n_chunks
  reserve_chunks_steps n_chunks (some huge) = do
    modify (λ s. record s { free_chunks = env.huges.tree_del huge s.free_chunks })
    release huge_mtx
    if ltb n_chunks huge.n_chunks
        then (do
          modify (λ s. set_mem (cut_huge n_chunks huge s.mem) s)
          acquire huge_mtx
          modify (λ s. record s {
            free_chunks =
                env.huges.tree_add (record huge { n_chunks = huge.n_chunks - n_chunks })
                  s.free_chunks;
          })
          release huge_mtx
          done (huge_end n_chunks huge))
        else done huge.nvm_chunk

  unfoldable pub nvm_reserve_steps : (tid n_bytes : ℕ) → Program ℕ
  nvm_reserve_steps tid n_bytes =
      if leb n_bytes sclass_large_max
      then (do arena ← compute (thread_arena tid); arena_allocate_steps arena n_bytes)
      else (do
        acquire huge_mtx
        found ← read (λ s. tree_upper_bound chunks_of (u32 (chunks_for n_bytes)) s.free_chunks)
        h ← reserve_chunks_steps (chunks_for n_bytes) found
        done (h + header_size))
