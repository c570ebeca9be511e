-- ===== src/NvmMalloc.antt =====
-- src/nvm_malloc.c: the public operations on memory.
pub mod Ids
pub mod Startup
pub mod Initialize
pub mod Addresses
pub mod Chunks
pub mod Log
use nvm_malloc.Base.{
  ℕ, ◌&&◌, ◌+◌, ◌-◌, ◌*◌, ◌/◌, ◌%◌, ◌^◌, bit_or, Option, none, some, List, [], ◌∷◌, ◌++◌, ltb, leb,
  ◌==◌, if◌then◌else◌, ◌>>=◌, u32, u64, sub64, update,
}
use nvm_malloc.Types.{
  block_size, chunk_size, header_size, get_usage, usage_free, usage_huge, state_initialized,
  state_initializing, initial_arenas, sclass_large_max, abs_to_rel, rel_to_abs_with_null,
  abs_to_rel_with_null,
}
use nvm_malloc.Types.Block
use nvm_malloc.Types.Run
use nvm_malloc.Util.{clflush_range}
use nvm_malloc.Nvm.{Mem, Event, store, fence, flush, exec, persist, clear_on}
use nvm_malloc.Links.{Links}
use nvm_malloc.Header
use nvm_malloc.Header.{Kind}
use nvm_malloc.Slot
use nvm_malloc.Slot.{index_of}
use nvm_malloc.Tree.{tree_upper_bound}
use nvm_malloc.Chunk.{activate_more_chunks}
use nvm_malloc.State.{Huge, State, Env, chunks_of, set_mem}
use nvm_malloc.Arena.{run_initialized, free_initialized}
use nvm_malloc.Arena.Allocate.{arena_allocate}
use nvm_malloc.Arena.Free.{arena_free}

abbrev pub max_log_entries : ℕ
max_log_entries = 127

-- The log of activated pointers is a ring of relative addresses.
unfoldable pub log_activate : (ptr : ℕ) → State → State
log_activate ptr s =
    let slot = s.log_start + 8 * (s.next_log_entry % max_log_entries) in
    record s {
      next_log_entry = u64 (s.next_log_entry + 1);
      mem = exec (store slot (abs_to_rel s.nvm_start ptr) ∷ persist slot) s.mem;
    }

-- The dispatch of `nvm_activate`, after the log entry. `none`: the size of the run's
-- slots, by which the code divides, is 0, or the compare-and-swap never succeeds.
unfoldable pub activate_region : (ptr : ℕ) → Links → State → Option State
activate_region ptr l s =
    let h = ptr / block_size * block_size in
    let idx = index_of h (s.mem (h + Run.n_bytes)) ptr in
    if abs_to_rel s.nvm_start ptr % chunk_size == header_size
    then some
        (set_mem (exec (Header.activate s.nvm_start Kind.huge (sub64 ptr header_size) l) s.mem) s)
    else if get_usage (s.mem h) == usage_free
    then some (set_mem (exec (Header.activate s.nvm_start Kind.block h l) s.mem) s)
    else if ltb 0 (s.mem (h + Run.n_bytes)) && (s.mem h == run_initialized)
    then some (set_mem (exec (Slot.activate s.nvm_start s.mem h idx l) s.mem) s)
    else none

unfoldable pub nvm_activate : (ptr : ℕ) → Links → State → Option State
unfolding activate_region log_activate
nvm_activate ptr l s = activate_region ptr l (log_activate ptr s)

flushes : List ℕ → List Event
flushes [] = fence ∷ []
flushes (line ∷ lines) = flush line ∷ flushes lines

-- `PERSIST_RANGE`, which `nvm_persist` gives to programs
pub nvm_persist : (ptr n_bytes : ℕ) → Option (List Event)
unfolding flushes
nvm_persist ptr n_bytes = do lines ← clflush_range ptr n_bytes; some (fence ∷ flushes lines)

-- `nvm_abs` and `nvm_rel`; `none` is the failed assertion that the library is initialised.
pub nvm_abs : (rel_ptr : ℕ) → State → Option ℕ
nvm_abs rel_ptr s =
    if s.nvm_start == 0 then none else some (rel_to_abs_with_null s.nvm_start rel_ptr)

pub nvm_rel : (abs_ptr : ℕ) → State → Option ℕ
nvm_rel abs_ptr s =
    if s.nvm_start == 0 then none else some (abs_to_rel_with_null s.nvm_start abs_ptr)

-- The chunks that a request needs, its header included.
abbrev pub chunks_for : ℕ → ℕ
chunks_for n_bytes = u64 (n_bytes + header_size + chunk_size) / chunk_size

-- The arena of a thread: the one that it had, or the next in turn.
unfoldable pub thread_arena : (tid : ℕ) → State → ℕ × State
thread_arena tid s =
    if s.tidmap tid == 0
    then (let arena = s.next_arena % initial_arenas in
        (
          arena,
          record s {
            next_arena = (s.next_arena + 1) % 2 ^ 32;
            tidmap = update s.tidmap tid (arena + 1);
          },
        ))
    else (s.tidmap tid - 1, s)

-- The header of a region in new chunks.
abbrev pub fresh_huge : (h n_chunks : ℕ) → State → State
fresh_huge h n_chunks s =
    set_mem
      (exec
        (store h (bit_or usage_huge state_initializing)
          ∷ store (h + Block.n_units) (n_chunks % 2 ^ 32)
          ∷ (clear_on (h + Block.on) ++ persist h))
        s.mem)
      s

-- The last chunks of a larger free region, and the headers of both parts.
abbrev pub huge_end : (n_chunks : ℕ) → Huge → ℕ
huge_end n_chunks huge = huge.nvm_chunk + (huge.n_chunks - n_chunks) * chunk_size

abbrev pub cut_huge : (n_chunks : ℕ) → Huge → Mem → Mem
cut_huge n_chunks huge m =
    let h = huge_end n_chunks huge in
    let made = exec (store h free_initialized ∷ store (h + Block.n_units) n_chunks ∷ persist h) m in
    let left = (made (huge.nvm_chunk + Block.n_units) + 2 ^ 32 - n_chunks) % 2 ^ 32 in
    update made (huge.nvm_chunk + Block.n_units) left

module _ (env : Env) where
  unfoldable pub nvm_reserve_huge : (n_chunks : ℕ) → State → Option (ℕ × State)
  nvm_reserve_huge n_chunks s = do
    (h, space) ← activate_more_chunks env.os n_chunks s.space
    some (h, fresh_huge h n_chunks (record s { space = space }))

  -- A huge region from the free chunks: the last ones of a larger free region, or all of it.
  unfoldable pub split_huge : (n_chunks : ℕ) → Huge → State → ℕ × State
  split_huge n_chunks huge s =
      let s₁ = record s { free_chunks = env.huges.tree_del huge s.free_chunks } in
      if ltb n_chunks huge.n_chunks
      then (let rest : Huge = record huge { n_chunks = huge.n_chunks - n_chunks } in
          (
            huge_end n_chunks huge,
            record s₁ {
              mem = cut_huge n_chunks huge s.mem;
              free_chunks = env.huges.tree_add rest s₁.free_chunks;
            },
          ))
      else (huge.nvm_chunk, s₁)

  unfoldable pub reserve_chunks : (n_chunks : ℕ) → State → Option Huge → Option (ℕ × State)
  reserve_chunks n_chunks s none = nvm_reserve_huge n_chunks s
  reserve_chunks n_chunks s (some huge) = some (split_huge n_chunks huge s)

  -- `tid` is the calling thread. The search takes the number of chunks as a `uint32_t`.
  unfoldable pub nvm_reserve : (tid n_bytes : ℕ) → State → Option (ℕ × State)
  unfolding reserve_chunks split_huge nvm_reserve_huge thread_arena
  nvm_reserve tid n_bytes s =
      if leb n_bytes sclass_large_max
      then (let (arena, s₁) = thread_arena tid s in arena_allocate env arena n_bytes s₁)
      else (do
        let n_chunks = chunks_for n_bytes
        (h, s₁) ←
            reserve_chunks n_chunks s (tree_upper_bound chunks_of (u32 n_chunks) s.free_chunks)
        some (h + header_size, s₁))

  unfoldable pub nvm_free : (ptr : ℕ) → Links → State → Option State
  nvm_free ptr l s =
      let h = sub64 ptr header_size in
      let huge : Huge = record { nvm_chunk = h; n_chunks = s.mem (h + Block.n_units) } in
      if abs_to_rel s.nvm_start ptr % chunk_size == header_size
      then some (record s {
        mem = exec (Header.free s.nvm_start Kind.huge h l) s.mem;
        free_chunks = env.huges.tree_add huge s.free_chunks;
      })
      else arena_free env ptr l s
