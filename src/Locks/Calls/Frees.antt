-- ===== src/Locks/Calls/Frees.antt =====
-- `nvm_activate` and `nvm_free` of src/nvm_malloc.c with `arena_free` of src/arena.c, as programs.
--
-- Their compare-and-swap waits for the state byte of the run, which is a mutex here. The accesses
-- to NVRAM under it are one step.
use nvm_malloc.Base.{
  ℕ, ◌+◌, ◌*◌, ◌/◌, ◌%◌, Option, none, some, ltb, ◌==◌, if◌then◌else◌, update, u32, sub64,
}
use nvm_malloc.Types.{
  block_size, chunk_size, header_size, get_usage, usage_free, usage_block, usage_run, abs_to_rel,
}
use nvm_malloc.Types.Block
use nvm_malloc.Types.Run
use nvm_malloc.Nvm.{exec}
use nvm_malloc.Links.{Links}
use nvm_malloc.Header
use nvm_malloc.Header.{Kind}
use nvm_malloc.Slot
use nvm_malloc.Slot.{index_of, pending, freeing}
use nvm_malloc.State.{State, Env, set_mem}
use nvm_malloc.Arena.{put_block, run_initialized}
use nvm_malloc.Arena.Free.{arena_create_run_header, arena_create_block_header, release_in}
use nvm_malloc.NvmMalloc.{log_activate}
use nvm_malloc.Locks.{
  run_state, bin_mtx, arena_mtx, huge_mtx, Program, done, ◌>>=◌, ◌>>◌, acquire, release, perform,
}
use nvm_malloc.Locks.Calls.{compute, read, modify}

-- The bin of a run, by arena and index.
abbrev pub bin_of_run : ℕ → State → ℕ × ℕ
bin_of_run run s = ((s.runs run).bin_arena, (s.runs run).bin_index)

-- The compare-and-swap; `none` is a run that is never settled.
abbrev pub seize : (h pending : ℕ) → State → Option (Unit {0} × State)
seize h pending s =
    if s.mem h == run_initialized then some (tt, set_mem (update s.mem h pending) s) else none

-- "after locking, make sure nobody else has created a VHeader yet"
abbrev pub set_header : (h old run : ℕ) → State → State
set_header h old run s =
    if s.mem (h + Run.vdata) == old
    then set_mem
        (update (update s.mem (h + Run.vdata) run) (h + Run.version) (u32 s.current_version)) s
    else s

unfoldable pub renew_run_steps : (h : ℕ) → Program ℕ
renew_run_steps h = do
  (older, old) ←
      read (λ s. (ltb (s.mem (h + Run.version)) s.current_version, s.mem (h + Run.vdata)))
  if older
      then (do
        run ← perform (arena_create_run_header h)
        (arena, bin) ← read (bin_of_run run)
        acquire (bin_mtx arena bin)
        modify (set_header h old run)
        release (bin_mtx arena bin)
        read (λ s. s.mem (h + Run.vdata)))
      else done old

module _ (env : Env) where
  unfoldable pub free_large_steps : (h : ℕ) → Links → Program (Unit {0})
  free_large_steps h l = do
    b ← compute (λ s. (
      arena_create_block_header h s,
      set_mem (exec (Header.free s.nvm_start Kind.block h l) s.mem) s,
    ))
    acquire (arena_mtx b.arena)
    modify (put_block env b.arena b)
    release (arena_mtx b.arena)

  unfoldable pub nvm_free_huge_steps : (h : ℕ) → Links → Program (Unit {0})
  nvm_free_huge_steps h l = do
    huge ← compute (λ s. (
      record { nvm_chunk = h; n_chunks = s.mem (h + Block.n_units) },
      set_mem (exec (Header.free s.nvm_start Kind.huge h l) s.mem) s,
    ))
    acquire huge_mtx
    modify (λ s. record s { free_chunks = env.huges.tree_add huge s.free_chunks })
    release huge_mtx

-- The slot's bit in NVRAM under the run's state byte, then the one in the volatile bitmap.
unfoldable pub free_small_steps : (h ptr : ℕ) → Links → Program (Unit {0})
free_small_steps h ptr l = do
  acquire (run_state h)
  perform (seize h (pending freeing))
  run ← renew_run_steps h
  (idx, arena, bin) ← compute (λ s.
      let idx = index_of h (s.runs run).elem_size ptr in
      (
        (idx, (s.runs run).bin_arena, (s.runs run).bin_index),
        set_mem (exec (Slot.free s.nvm_start s.mem h idx l) s.mem) s,
      ))
  release (run_state h)
  acquire (bin_mtx arena bin)
  modify (release_in arena bin run idx)
  release (bin_mtx arena bin)

unfoldable pub arena_free_steps : Env → (ptr : ℕ) → Links → Program (Unit {0})
arena_free_steps env ptr l = do
  usage ← read (λ s. get_usage (s.mem (ptr / block_size * block_size)))
  if usage == usage_block
      then free_large_steps env (ptr / block_size * block_size) l
      else if usage == usage_run
      then free_small_steps (ptr / block_size * block_size) ptr l
      else done tt

unfoldable pub nvm_free_steps : Env → (ptr : ℕ) → Links → Program (Unit {0})
nvm_free_steps env ptr l = do
  rel_ptr ← read (λ s. abs_to_rel s.nvm_start ptr)
  if rel_ptr % chunk_size == header_size
      then nvm_free_huge_steps env (sub64 ptr header_size) l
      else arena_free_steps env ptr l

-- A slot of a run, under the run's state byte.
unfoldable pub activate_slot_steps : (h ptr : ℕ) → Links → Program (Unit {0})
activate_slot_steps h ptr l = do
  idx ← perform (λ s.
      if ltb 0 (s.mem (h + Run.n_bytes))
      then some (index_of h (s.mem (h + Run.n_bytes)) ptr, s)
      else none)
  acquire (run_state h)
  perform (λ s.
      if s.mem h == run_initialized
      then some (tt, set_mem (exec (Slot.activate s.nvm_start s.mem h idx l) s.mem) s)
      else none)
  release (run_state h)

unfoldable pub nvm_activate_steps : (ptr : ℕ) → Links → Program (Unit {0})
nvm_activate_steps ptr l = do
  modify (log_activate ptr)
  (rel_ptr, usage) ←
      read (λ s. (abs_to_rel s.nvm_start ptr, get_usage (s.mem (ptr / block_size * block_size))))
  if rel_ptr % chunk_size == header_size
      then modify (λ s.
        set_mem (exec (Header.activate s.nvm_start Kind.huge (sub64 ptr header_size) l) s.mem) s)
      else if usage == usage_free
      then modify (λ s.
        set_mem
          (exec (Header.activate s.nvm_start Kind.block (ptr / block_size * block_size) l) s.mem) s)
      else activate_slot_steps (ptr / block_size * block_size) ptr l
