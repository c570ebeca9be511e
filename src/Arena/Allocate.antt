-- ===== src/Arena/Allocate.antt =====
-- `arena_allocate` of src/arena.c: a slot for a small request, a block of pages for a large one.
use nvm_malloc.Base.{
  ℕ, ◌+◌, ◌/◌, ◌||◌, Option, none, some, ltb, leb, ◌==◌, if◌then◌else◌, ◌>>=◌, u16, u32,
}
use nvm_malloc.Types.{block_size, header_size, sclass_small_max, sclass_large_max}
use nvm_malloc.State.{State, Env, set_bin}
use nvm_malloc.Arena.{
  slots_per_run, take_slot, small_size, large_size, bin_of, arena_create_run, arena_create_block,
}

-- A new run is the bin's current one.
abbrev pub install_run : (arena bin n_bytes run : ℕ) → State → State
install_run arena bin n_bytes run s =
    let b = (s.arenas arena).bins bin in
    set_bin arena bin
      (record b {
        current_run = run;
        n_free = u32 (b.n_free + slots_per_run n_bytes);
        n_runs = u16 (b.n_runs + 1);
      })
      s

-- A run of a bin with free slots: the next of its list if the current one is full.
abbrev pub listed_run : (arena bin : ℕ) → State → Option (ℕ × State)
listed_run arena bin s =
    let b = (s.arenas arena).bins bin in
    if (b.current_run == 0) || ((s.runs b.current_run).n_free == 0)
    then (if b.runs == 0
        then none
        else some (
          b.runs,
          set_bin arena bin (record b { runs = (s.runs b.runs).next; current_run = b.runs }) s,
        ))
    else some (b.current_run, s)

module _ (env : Env) where
  -- The run that serves a request: a new one if the bin is full, the next of the bin's list if the
  -- current one is, and the current one otherwise.
  unfoldable pub choose_run : (arena bin n_bytes : ℕ) → State → Option (ℕ × State)
  choose_run arena bin n_bytes s =
      let b = (s.arenas arena).bins bin in
      if b.n_free == 0
      then (do
        (run, s₁) ← arena_create_run env arena bin n_bytes s
        some (run, install_run arena bin n_bytes run s₁))
      else listed_run arena bin s

  unfoldable pub arena_allocate : (arena n_bytes : ℕ) → State → Option (ℕ × State)
  arena_allocate arena n_bytes s =
      if ltb sclass_large_max n_bytes
      then none
      else if leb n_bytes sclass_small_max
      then (let n = small_size n_bytes in
          if ltb (bin_of n) 31
          then (do
            (run, s₁) ← choose_run arena (bin_of n) n s
            some (take_slot arena (bin_of n) n run s₁))
          else none)
      else (do
        (nvm_block, s₁) ← arena_create_block env arena (large_size n_bytes / block_size) s
        some (nvm_block + header_size, s₁))
