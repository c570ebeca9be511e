-- ===== src/NvmMalloc/Initialize.antt =====
-- `nvm_initialize` of src/nvm_malloc.c: the heap, empty or recovered, and its object table.
pub mod Start
use nvm_malloc.Base.{ℕ, ◌+◌, Bool, Option, some, ◌==◌, if◌then◌else◌, ◌>>=◌, u64, ◌∷◌, ltb}
use nvm_malloc.Types.{initial_arenas, max_nvm_chunks}
use nvm_malloc.Nvm.{exec, store, persist}
use nvm_malloc.Tree.{leaf}
use nvm_malloc.Chunk.{Space, initialize_nvm_space, recover_chunks, teardown_nvm_space}
use nvm_malloc.Arena.Setup.{arena_teardown}
use nvm_malloc.ObjectTable.{ObjectId, HashMap, ot_init, ot_teardown}
use nvm_malloc.ObjectTable.Recover.{ot_recover}
use nvm_malloc.State.{State, Env, set_mem}
use nvm_malloc.NvmMalloc.Ids.{System}
use nvm_malloc.NvmMalloc.Startup.{nvm_initialize_empty, nvm_initialize_recovered}

module _ (lib : HashMap) (env : Env) where
  -- A fresh start. The chain of object tables runs through the chunks of the initial arenas.
  start_empty : State → System lib → Option (System lib)
  start_empty mapped s = do
    made ← nvm_initialize_empty env mapped
    let ready = record made { log_start = made.space.meta_info + 8 }
    table ← ot_init lib ready.mem initial_arenas ready.nvm_start s.table
    some (record { state = ready; table = table })

  -- `behind` is what `malloc` leaves behind the identifiers of recovered entries.
  module _ (behind : ℕ → ObjectId) where
    -- A restart on `n_chunks` chunks: the version in the meta page is counted up.
    start_recovered : (n_chunks : ℕ) → State → System lib → Option (System lib)
    start_recovered n_chunks mapped s = do
      let meta = mapped.space.meta_info
      let counted = exec (store meta (u64 (mapped.mem meta + 1)) ∷ persist meta) mapped.mem
      recovered ←
          nvm_initialize_recovered env n_chunks (record mapped {
            mem = counted;
            current_version = mapped.mem meta;
            log_start = meta + 8;
          })
      begun ← ot_init lib recovered.mem initial_arenas recovered.nvm_start s.table
      (table, mem) ← ot_recover lib behind recovered.nvm_start initial_arenas recovered.mem begun
      some (record { state = set_mem mem recovered; table = table })

    start_chunks : State → System lib → ℕ × Space → Option (System lib)
    unfolding start_empty start_recovered
    start_chunks mapped s (n_chunks, space) =
        if n_chunks == 0
        then start_empty mapped s
        else start_recovered n_chunks (record mapped { space = space }) s

    -- A second call leaves all as it is.
    pub nvm_initialize : (recover_if_possible : Bool) → System lib → Option (System lib)
    unfolding start_chunks
    nvm_initialize recover_if_possible s =
        if s.state.nvm_start == 0
        then (do
          space ← initialize_nvm_space env.os max_nvm_chunks s.state.space
          let mapped = record s.state {
            space = space;
            nvm_start = space.region_start;
            tidmap = λ t. 0;
          }
          chunks ← if recover_if_possible then recover_chunks env.os space else some (0, space)
          start_chunks mapped s chunks)
        else some s

-- The heap's part of `nvm_teardown`.
teardown_heap : State → State
teardown_heap s = record s {
  space = teardown_nvm_space s.space;
  free_chunks = leaf;
  arenas = λ i. if ltb i initial_arenas then arena_teardown (s.arenas i) else s.arenas i;
  tidmap = λ t. 0;
  nvm_start = 0;
  current_version = 0;
  next_log_entry = 0;
  log_start = 0;
}

pub nvm_teardown : (lib : HashMap) → System lib → System lib
unfolding teardown_heap
nvm_teardown lib s =
    if s.state.nvm_start == 0
    then s
    else record { state = teardown_heap s.state; table = ot_teardown lib s.table }
