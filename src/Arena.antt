-- ===== src/Arena.antt =====
-- src/arena.c: runs of small slots, blocks of pages, and their free lists.
--
-- `none` ends the process: a failed assertion, `error_and_exit`, a NULL or wild access.
pub mod Pages
pub mod Slots
pub mod Free
pub mod Allocate
pub mod Setup
use nvm_malloc.Base.{
  ℕ, zero, suc, ◌+◌, ◌-◌, ◌*◌, ◌/◌, ◌%◌, ◌^◌, bit_or, Bool, true, false, ◌&&◌, ◌||◌, not, Option,
  none, some, List, [], ◌∷◌, ◌++◌, ltb, leb, ◌==◌, if◌then◌else◌, ◌>>=◌, update, u16, u32, u64,
}
use nvm_malloc.Types.{
  block_size, chunk_size, header_size, sclass_small_max, sclass_large_max, usage_free, usage_run,
  usage_arena, state_initialized, state_initializing, no_bit,
}
use nvm_malloc.Types.Block
use nvm_malloc.Types.Run
use nvm_malloc.Bits.{set_bit, test_bit}
use nvm_malloc.Nvm.{
  Mem, Event, store, exec, fence, persist, clear_on, memset_zero, write_bytes, signature,
}
use nvm_malloc.Tree.{Tree, leaf, tree_upper_bound}
use nvm_malloc.Chunk.{activate_more_chunks}
use nvm_malloc.State.{
  ArenaBlock, ArenaRun, Bin, Arena, State, Env, pages_of, set_mem, set_arena, set_bin, set_run,
  new_run,
}

abbrev pub free_initialized : ℕ
free_initialized = bit_or usage_free state_initialized

abbrev pub run_initialized : ℕ
run_initialized = bit_or usage_run state_initialized

abbrev pub chunk_pages : ℕ
chunk_pages = chunk_size / block_size - 1

abbrev pub slots_per_run : ℕ → ℕ
slots_per_run n_bytes = (block_size - 64) / n_bytes

-- Writes the chunk's header and that of its one free block.
abbrev pub chunk_events : (chunk nvm_block : ℕ) → List Event
chunk_events chunk nvm_block =
    persist chunk
    ++ (clear_on (nvm_block + Block.on)
        ++ (store nvm_block free_initialized
            ∷ store (nvm_block + Block.n_units) chunk_pages
            ∷ (persist nvm_block
                ++ (store chunk (bit_or usage_arena state_initialized) ∷ persist chunk))))

abbrev pub run_events : (arena version h n_bytes run : ℕ) → List Event
run_events arena version h n_bytes run =
    store h run_initialized
    ∷ store (h + Run.n_bytes) n_bytes
    ∷ store (h + Run.vdata) run
    ∷ store (h + Run.bit_idx) no_bit
    ∷ store (h + Run.arena_id) (u16 arena)
    ∷ store (h + Run.version) (u32 version)
    ∷ persist h

-- The order of the stores when the run takes the whole block.
abbrev pub whole_run_events : (arena version h n_bytes run : ℕ) → List Event
whole_run_events arena version h n_bytes run =
    store (h + Run.vdata) run
    ∷ store (h + Run.bit_idx) no_bit
    ∷ store (h + Run.arena_id) (u16 arena)
    ∷ store (h + Run.version) (u32 version)
    ∷ fence
    ∷ store h run_initialized
    ∷ store (h + Run.n_bytes) n_bytes
    ∷ persist h

abbrev pub fresh_run : (arena bin n_bytes h : ℕ) → ArenaRun
fresh_run arena bin n_bytes h = record {
  nvm_run = h;
  bin_arena = arena;
  bin_index = bin;
  elem_size = u16 n_bytes;
  n_free = slots_per_run n_bytes;
  n_max = slots_per_run n_bytes;
  bitmap = λ i. 0;
  next = 0;
}

-- The loop of `arena_allocate` over the slots from `i` on, with the rounds that are left.
pub find_slot : (bitmap : ℕ → ℕ) → (rounds i : ℕ) → Option ℕ
find_slot bitmap zero i = none
find_slot bitmap (suc rounds) i =
    let rest = find_slot bitmap rounds (i + 1) in
    if test_bit (bitmap (i / 8)) (i % 8) == 0 then some i else rest

-- What taking a slot does, once the search has ended; the counters go down even if it found none.
unfoldable pub slot_taken : (arena bin n_bytes run : ℕ) → State → Option ℕ → ℕ × State
slot_taken arena bin n_bytes run s found =
    let r = s.runs run in
    let b = (s.arenas arena).bins bin in
    let b' = record b { n_free = u32 (b.n_free + 2 ^ 32 - 1) } in
    let left = u16 (r.n_free + 2 ^ 16 - 1) in
    elim found [
      | none ↦ (0, set_bin arena bin b' (set_run run (record r { n_free = left }) s))
      | some i ↦ (
        r.nvm_run + header_size + n_bytes * i,
        set_bin arena bin b' (
            set_run run
              (record r {
                n_free = left;
                bitmap = update r.bitmap (i / 8) (set_bit (r.bitmap (i / 8)) (i % 8));
              })
              s),
      )
    ]

-- Takes the first free slot of a run.
unfoldable pub take_slot : (arena bin n_bytes run : ℕ) → State → ℕ × State
unfolding slot_taken
take_slot arena bin n_bytes run s =
    slot_taken arena bin n_bytes run s (find_slot (s.runs run).bitmap (slots_per_run n_bytes) 0)

-- `(n & ~63) + (n % 64 != 0 ? 64 : 0)`, and the same for pages
abbrev pub small_size : ℕ → ℕ
small_size n = n / 64 * 64 + (if n % 64 == 0 then 0 else 64)

abbrev pub large_size : ℕ → ℕ
large_size n = n / 4096 * 4096 + (if n % block_size == 0 then 0 else block_size)

abbrev pub bin_of : ℕ → ℕ
bin_of n_bytes = u32 (n_bytes / 64 + 2 ^ 32 - 1)

-- A new chunk becomes one free block of the arena.
abbrev pub fresh_chunk : (arena chunk : ℕ) → State → ArenaBlock × State
fresh_chunk arena chunk s =
    let nvm_block = chunk + block_size in
    let table = memset_zero (chunk + 64) (63 * 64) s.mem in
    let head =
      exec (store chunk (bit_or usage_arena state_initializing) ∷ store (chunk + 56) 0 ∷ [])
        table in
    let signed = update (write_bytes (chunk + 1) signature head) (chunk + 1 + 46) 0 in
    (
      record { nvm_block = nvm_block; n_pages = chunk_pages; arena = arena },
      set_mem (exec (chunk_events chunk nvm_block) signed) s,
    )

module _ (env : Env) where
  unfoldable pub arena_add_chunk : ℕ → State → Option (ArenaBlock × State)
  arena_add_chunk arena s = do
    (chunk, space) ← activate_more_chunks env.os 1 s.space
    some (fresh_chunk arena chunk (record s { space = space }))

  -- The block that a request for pages takes: the one that the search found, or a new chunk's.
  unfoldable pub take_found : (arena : ℕ) → State → Option ArenaBlock → Option (ArenaBlock × State)
  take_found arena s none = arena_add_chunk arena s
  take_found arena s (some b) = some (
    b,
    set_arena arena
        (record (s.arenas arena) {
          free_pageruns = env.blocks.tree_del b (s.arenas arena).free_pageruns;
        })
        s,
  )

  unfoldable pub take_block : (arena n_pages : ℕ) → State → Option (ArenaBlock × State)
  unfolding take_found
  take_block arena n_pages s =
      take_found arena s (tree_upper_bound pages_of n_pages (s.arenas arena).free_pageruns)

  -- The rest of a block goes back into the arena's tree.
  unfoldable pub put_block : (arena : ℕ) → ArenaBlock → State → State
  put_block arena b s =
      set_arena arena
        (record (s.arenas arena) {
          free_pageruns = env.blocks.tree_add b (s.arenas arena).free_pageruns;
        })
        s

  -- The run's page is the last of the block, which shrinks by a page, or the block itself.
  unfoldable pub place_run : (arena bin n_bytes : ℕ) → ArenaBlock → State → ℕ × State
  place_run arena bin n_bytes b s =
      if ltb 1 b.n_pages
      then (let h = b.nvm_block + (b.n_pages - 1) * block_size in
          let (run, s₁) = new_run (fresh_run arena bin n_bytes h) s in
          let made =
            exec (run_events arena s.current_version h n_bytes run) (memset_zero h 64 s.mem) in
          let rest = record b { n_pages = b.n_pages - 1 } in
          let shrunk =
            exec (store (b.nvm_block + Block.n_units) (b.n_pages - 1) ∷ persist b.nvm_block) made in
          (run, put_block arena rest (set_mem shrunk s₁)))
      else (let h = b.nvm_block in
          let (run, s₁) = new_run (fresh_run arena bin n_bytes h) s in
          (
            run,
            set_mem
                (exec (whole_run_events arena s.current_version h n_bytes run)
                  (memset_zero h 64 s.mem))
                s₁,
          ))

  unfoldable pub arena_create_run : (arena bin n_bytes : ℕ) → State → Option (ℕ × State)
  arena_create_run arena bin n_bytes s =
      if n_bytes == 0
      then none
      else (do (b, s₁) ← take_block arena 1 s; some (place_run arena bin n_bytes b s₁))

  -- The block's pages are the last of the free block, which shrinks, or the free block itself.
  unfoldable pub cut_block : (arena n_pages : ℕ) → ArenaBlock → State → ℕ × State
  cut_block arena n_pages b s =
      if ltb n_pages b.n_pages
      then (let h = b.nvm_block + (b.n_pages - n_pages) * block_size in
          let made =
            exec
              (store h free_initialized
                ∷ store (h + Block.n_units) n_pages
                ∷ store (h + Block.arena_id) (s.arenas arena).id
                ∷ persist h)
              s.mem in
          let left = u32 (made (b.nvm_block + Block.n_units) + 2 ^ 32 - n_pages) in
          let shrunk = exec (store (b.nvm_block + Block.n_units) left ∷ persist b.nvm_block) made in
          (h, put_block arena (record b { n_pages = b.n_pages - n_pages }) (set_mem shrunk s)))
      else (b.nvm_block, s)

  -- "assert(free_block->nvm_block->n_pages > 0)" of a block that was cut: `none` if it fails.
  unfoldable pub place_block : (arena n_pages : ℕ) → ArenaBlock → State → Option (ℕ × State)
  unfolding cut_block
  place_block arena n_pages b s =
      let (h, t) = cut_block arena n_pages b s in
      if ltb n_pages b.n_pages && (t.mem (b.nvm_block + Block.n_units) == 0)
      then none
      else some (h, t)

  unfoldable pub arena_create_block : (arena n_pages : ℕ) → State → Option (ℕ × State)
  arena_create_block arena n_pages s = do
    (b, s₁) ← take_block arena n_pages s
    place_block arena n_pages b s₁
