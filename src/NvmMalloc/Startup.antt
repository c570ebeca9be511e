-- ===== src/NvmMalloc/Startup.antt =====
-- Start, recovery and end of the library, in src/nvm_malloc.c.
--
-- The recovery thread runs here after the rest of the recovery, to its end.
pub mod Entry
pub mod Walk
pub mod Heap
pub mod Thread
pub mod Twice
pub mod Fresh
pub mod Restart
use nvm_malloc.Base.{
  ℕ, zero, suc, ◌+◌, ◌-◌, ◌*◌, ◌/◌, ◌%◌, ◌^◌, bit_or, true, false, Option, none, some, ◌∷◌, ltb,
  ◌==◌, if◌then◌else◌, ◌>>=◌, update, u32,
}
use nvm_malloc.Types.{
  block_size, chunk_size, header_size, get_usage, usage_free, usage_huge, usage_run, usage_block,
  usage_arena, state_initialized, state_initializing, initial_arenas, rel_to_abs,
}
use nvm_malloc.Types.Block
use nvm_malloc.Util.{identify_usage}
use nvm_malloc.Nvm.{Mem, store, exec, persist, memset_zero, write_bytes, signature}
use nvm_malloc.Header
use nvm_malloc.Header.{Kind}
use nvm_malloc.Slot
use nvm_malloc.Chunk.{initialize_chunks, activate_more_chunks}
use nvm_malloc.State.{Huge, State, Env, set_mem, set_bin, set_run}
use nvm_malloc.Arena.{put_block}
use nvm_malloc.Arena.Setup.{arena_init}
use nvm_malloc.Arena.Free.{arena_create_run_header, arena_create_block_header, renew_run}
use nvm_malloc.NvmMalloc.{max_log_entries}

-- `n` rounds from `i` on.
abbrev repeat {ℓ} : {S : Type ℓ} → (ℕ → S → S) → (n i : ℕ) → S → S
repeat body zero i s = s
repeat body (suc n) i s = repeat body n (i + 1) (body i s)

abbrev repeat_option {ℓ} : {S : Type ℓ} → (ℕ → S → Option S) → (n i : ℕ) → S → Option S
repeat_option body zero i s = some s
repeat_option body (suc n) i s = body i s >>= repeat_option body n (i + 1)

module _ (env : Env) where
  -- The chunk header, and a first block header. The `memset` from byte 5 of that header on clears
  -- all but the lowest byte of `n_pages`.
  init_chunk : (start : ℕ) → ℕ → Mem → Mem
  init_chunk start i m =
      let chunk = start + i * chunk_size in
      let block = chunk + block_size in
      let next = if ltb i (initial_arenas - 1) then (i + 1) * chunk_size else 0 in
      let pages = (chunk_size - block_size - header_size) / block_size in
      let signed =
        update
          (write_bytes (chunk + 1) signature
            (update m chunk (bit_or usage_arena state_initializing)))
          (chunk + 47) 0 in
      let head = memset_zero (chunk + 64) 4032 (update signed (chunk + 56) next) in
      exec
        (store block (bit_or usage_free state_initializing)
          ∷ store (block + Block.n_units) (pages % 2 ^ 8)
          ∷ persist block)
        (memset_zero (block + 5) 59 head)

  seal_chunk : (start : ℕ) → ℕ → Mem → Mem
  seal_chunk start i m =
      exec
        (store (start + i * chunk_size) (bit_or usage_arena state_initialized)
          ∷ persist (start + i * chunk_size))
        m

  unfoldable pub nvm_initialize_empty : State → Option State
  unfolding init_chunk seal_chunk
  nvm_initialize_empty s = do
    space₁ ← initialize_chunks env.os s.space
    let meta = update s.mem space₁.meta_info 1
    (first, space₂) ← activate_more_chunks env.os initial_arenas space₁
    let made = repeat (init_chunk s.nvm_start) initial_arenas 0 meta
    let sealed = repeat (seal_chunk s.nvm_start) initial_arenas 0 made
    let ready = record s { mem = sealed; space = space₂; current_version = 0 }
    some (
        repeat (λ i t. arena_init env i (s.nvm_start + i * chunk_size) true t) initial_arenas 0
          ready)

  -- One page of an arena chunk: the page that follows it in the walk.
  unfoldable pub walk_page : (chunk : ℕ) → ℕ → State → Option (ℕ × State)
  walk_page chunk j s =
      let h = chunk + j * block_size in
      let usage = get_usage (s.mem h) in
      if usage == usage_free
      then (let b = arena_create_block_header h s in
          some (j + s.mem (h + Block.n_units), put_block env b.arena b s))
      else if usage == usage_run
      then (do (run, t) ← renew_run h s; some (j + 1, t))
      else some (j + s.mem (h + Block.n_units), s)

  -- The pages of a chunk from `j` on; `none` if the fuel runs out.
  unfoldable pub walk_pages : (chunk fuel : ℕ) → ℕ → State → Option State
  walk_pages chunk zero j s = none
  walk_pages chunk (suc fuel) j s =
      let rest = walk_page chunk j s >>= λ (j', t). walk_pages chunk fuel j' t in
      if ltb j (chunk_size / block_size) then rest else some s

  -- The chunks from `i` on. A chunk has at most 1023 blocks, so 1024 rounds reach its end.
  unfoldable pub walk_chunks : (fuel n_chunks : ℕ) → ℕ → State → Option State
  walk_chunks zero n_chunks i s = none
  walk_chunks (suc fuel) n_chunks i s =
      let chunk = s.nvm_start + i * chunk_size in
      let in_arena = walk_pages chunk 1024 1 s >>= λ t. walk_chunks fuel n_chunks (i + 1) t in
      let skipped = walk_chunks fuel n_chunks (i + s.mem (chunk + Block.n_units)) s in
      if ltb i n_chunks
      then (if get_usage (s.mem chunk) == usage_arena then in_arena else skipped)
      else some s

  unfoldable pub nvm_recovery_thread : (n_chunks : ℕ) → State → Option State
  unfolding walk_chunks
  nvm_recovery_thread n_chunks s = walk_chunks (n_chunks + 1) n_chunks 0 s

  -- One entry of the log, by the kind of its region; `none` is a failed assertion.
  recover_huge_region : (h : ℕ) → State → Option State
  recover_huge_region h s = do
    (es, added) ← Header.recover s.nvm_start Kind.huge s.mem h
    let m = exec es s.mem
    let huge : Huge = record { nvm_chunk = h; n_chunks = m (h + Block.n_units) }
    some (
        if added
        then record s { mem = m; free_chunks = env.huges.tree_add huge s.free_chunks }
        else set_mem m s)

  recover_block_region : (h : ℕ) → State → Option State
  recover_block_region h s = do
    (es, added) ← Header.recover s.nvm_start Kind.block s.mem h
    let t = set_mem (exec es s.mem) s
    let b = arena_create_block_header h t
    some (if added then put_block env b.arena b t else t)

  recover_run_region : (h : ℕ) → State → Option State
  recover_run_region h s = do
    es ← Slot.recover s.nvm_start s.mem h
    (run, t) ← arena_create_run_header h (set_mem (exec es s.mem) s)
    let r = t.runs run
    let b = (t.arenas r.bin_arena).bins r.bin_index
    let listed =
        set_bin r.bin_arena r.bin_index (record b { runs = run })
          (set_run run (record r { next = b.runs }) t)
    some (set_mem (exec (Slot.reset h (u32 s.current_version) run) listed.mem) listed)

  pub recover_entry : ℕ → State → Option State
  unfolding recover_huge_region recover_block_region recover_run_region
  recover_entry i s =
      let slot = s.log_start + 8 * i in
      let rel_ptr = s.mem slot in
      let ptr = rel_to_abs s.nvm_start rel_ptr in
      let usage = identify_usage s.mem s.nvm_start ptr in
      let h = ptr / block_size * block_size in
      let recovered =
        if usage == usage_huge
        then recover_huge_region (ptr - header_size) s
        else if usage == usage_block
        then recover_block_region h s
        else if usage == usage_run
        then recover_run_region h s
        else some s in
      if rel_ptr == 0 then some s else (do t ← recovered; some (set_mem (update t.mem slot 0) t))

  pub nvm_initialize_recovered : (n_chunks : ℕ) → State → Option State
  unfolding recover_entry
  nvm_initialize_recovered n_chunks s = do
    let fresh = repeat (λ i t. arena_init env i 0 false t) initial_arenas 0 s
    logged ← repeat_option recover_entry max_log_entries 0 fresh
    nvm_recovery_thread n_chunks logged
