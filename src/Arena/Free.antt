-- ===== src/Arena/Free.antt =====
-- `arena_free` of src/arena.c, and the volatile headers that it makes for runs and blocks which
-- were found in NVRAM after a restart.
pub mod Count
pub mod Renew
use nvm_malloc.Base.{
  ℕ, zero, suc, ◌+◌, ◌-◌, ◌*◌, ◌/◌, ◌%◌, ◌&&◌, not, Option, none, some, ltb, ◌==◌, if◌then◌else◌,
  ◌>>=◌, update, u16, u32,
}
use nvm_malloc.Types.{block_size, get_usage, usage_block, usage_run}
use nvm_malloc.Types.Block
use nvm_malloc.Types.Run
use nvm_malloc.Bits.{test_bit, clear_bit}
use nvm_malloc.Nvm.{exec}
use nvm_malloc.Links.{Links}
use nvm_malloc.Header
use nvm_malloc.Header.{Kind}
use nvm_malloc.Slot
use nvm_malloc.Slot.{index_of, pending, freeing}
use nvm_malloc.State.{ArenaBlock, State, Env, set_mem, set_bin, set_run, new_run}
use nvm_malloc.Arena.{put_block, slots_per_run, run_initialized}

-- The free slots of a bitmap from slot `i` on, with the rounds that are left.
unfoldable pub count_free : (bitmap : ℕ → ℕ) → (rounds i : ℕ) → ℕ
count_free bitmap zero i = 0
count_free bitmap (suc rounds) i =
    count_free bitmap rounds (i + 1) + (if test_bit (bitmap (i / 8)) (i % 8) == 0 then 1 else 0)

-- The volatile header of a run, read from its header in NVRAM; `none` is the division by
-- zero, or a pointer before the first bin.
unfoldable pub arena_create_run_header : (h : ℕ) → State → Option (ℕ × State)
unfolding count_free
arena_create_run_header h s =
    let n_bytes = s.mem (h + Run.n_bytes) in
    let bitmap = λ (i : ℕ). s.mem (h + Run.bitmap + i) in
    if ltb n_bytes 64
    then none
    else some (
        new_run
          (record {
            nvm_run = h;
            bin_arena = s.mem (h + Run.arena_id);
            bin_index = n_bytes / 64 - 1;
            elem_size = n_bytes;
            n_free = count_free bitmap (slots_per_run n_bytes) 0;
            n_max = slots_per_run n_bytes;
            bitmap = bitmap;
            next = 0;
          })
          s)

unfoldable pub arena_create_block_header : (h : ℕ) → State → ArenaBlock
arena_create_block_header h s = record {
  nvm_block = h;
  n_pages = u16 (s.mem (h + Block.n_units));
  arena = s.mem (h + Block.arena_id);
}

-- "check if we need to create a VHeader": a header of an older version has none yet.
unfoldable pub renew_run : (h : ℕ) → State → Option (ℕ × State)
unfolding arena_create_run_header
renew_run h s =
    if ltb (s.mem (h + Run.version)) s.current_version
    then (do
      (run, s₁) ← arena_create_run_header h s
      some (
        run,
        set_mem
            (update (update s₁.mem (h + Run.vdata) run) (h + Run.version) (u32 s.current_version))
            s₁,
      ))
    else some (s.mem (h + Run.vdata), s)

-- "mark slot as free in volatile memory": a run that was full goes back to the list of its bin,
-- which is the given one.
abbrev pub release_in : (arena bin run idx : ℕ) → State → State
release_in arena bin run idx s =
    let r = s.runs run in
    let b = (s.arenas arena).bins bin in
    let relist = not (run == b.current_run) && (u16 (r.n_free + 1) == 1) in
    set_bin arena bin
      (record b { n_free = u32 (b.n_free + 1); runs = if relist then run else b.runs })
      (set_run run
        (record r {
          bitmap = update r.bitmap (idx / 8) (clear_bit (r.bitmap (idx / 8)) (idx % 8));
          n_free = u16 (r.n_free + 1);
          next = if relist then b.runs else r.next;
        })
        s)

unfoldable pub release_slot : (run idx : ℕ) → State → State
release_slot run idx s = release_in (s.runs run).bin_arena (s.runs run).bin_index run idx s

module _ (env : Env) where
  unfoldable pub free_large : (h : ℕ) → Links → State → State
  free_large h l s =
      let b = arena_create_block_header h s in
      put_block env b.arena b (set_mem (exec (Header.free s.nvm_start Kind.block h l) s.mem) s)

-- The compare-and-swap waits until the run is settled; without another thread it ends at once or,
-- `none`, never. It locks the run before the volatile header is renewed; `Slot.free` begins with
-- the same store, and with the bitmap as it was then.
unfoldable pub free_small : (h ptr : ℕ) → Links → State → Option State
unfolding renew_run release_slot
free_small h ptr l s =
    if s.mem h == run_initialized
    then (do
      (run, s₁) ← renew_run h (set_mem (update s.mem h (pending freeing)) s)
      let idx = index_of h (s₁.runs run).elem_size ptr
      some
          (release_slot run idx (set_mem (exec (Slot.free s₁.nvm_start s₁.mem h idx l) s₁.mem) s₁)))
    else none

-- A pointer into neither a block nor a run is ignored.
unfoldable pub arena_free : Env → (ptr : ℕ) → Links → State → Option State
unfolding free_large free_small
arena_free env ptr l s =
    let h = ptr / block_size * block_size in
    let usage = get_usage (s.mem h) in
    if usage == usage_block
    then some (free_large env h l s)
    else if usage == usage_run
    then free_small h ptr l s
    else some s
