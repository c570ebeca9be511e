-- ===== src/Arena/Setup.antt =====
-- `arena_init` and `arena_teardown` of src/arena.c.
use nvm_malloc.Base.{ℕ, ◌+◌, Bool, ◌∷◌, ltb, if◌then◌else◌}
use nvm_malloc.Types.{block_size}
use nvm_malloc.Types.Block
use nvm_malloc.Nvm.{store, exec, persist}
use nvm_malloc.Tree.{leaf}
use nvm_malloc.State.{ArenaBlock, Arena, State, Env, set_mem, set_arena}
use nvm_malloc.Arena.{free_initialized, chunk_pages}

module _ (env : Env) where
  -- `create_initial_block` gives the arena the pages of the chunk at `first_chunk`.
  unfoldable pub arena_init :
      (arena first_chunk : ℕ) → (create_initial_block : Bool) → State → State
  arena_init arena first_chunk create_initial_block s =
      let fresh : Arena = record {
        id = arena;
        bins = λ i. record { current_run = 0; n_free = 0; n_runs = 0; runs = 0 };
        free_pageruns = leaf;
      } in
      let nvm_block = first_chunk + block_size in
      let b : ArenaBlock = record { nvm_block = nvm_block; n_pages = chunk_pages; arena = arena } in
      let made =
        exec
          (store nvm_block free_initialized
            ∷ store (nvm_block + Block.n_units) chunk_pages
            ∷ store (nvm_block + Block.arena_id) arena
            ∷ persist nvm_block)
          s.mem in
      if create_initial_block
      then set_arena arena (record fresh { free_pageruns = env.blocks.tree_add b leaf })
          (set_mem made s)
      else set_arena arena fresh s

-- What the teardown leaves of an arena; its memory goes back to `malloc`.
pub arena_teardown : Arena → Arena
arena_teardown a = record a {
  free_pageruns = leaf;
  bins = λ i. if ltb i 31 then record (a.bins i) { current_run = 0; runs = 0 } else a.bins i;
}
