-- ===== src/Examples/Start.antt =====
-- A fresh start, and a restart on what it has left.
use nvm_malloc.Base.{
  ℕ, [], ◌+◌, ◌*◌, ◌^◌, ◌<◌, ◌≤◌, ◌≡◌, refl, arith, false, some, leb, if◌then◌else◌,
}
use nvm_malloc.Nvm.{Mem}
use nvm_malloc.Chunk.{Space, initialize_chunks, activate_more_chunks}
use nvm_malloc.Tree.{weight}
use nvm_malloc.State.{ArenaBlock, State}
use nvm_malloc.Arena.Pages.{tree_of}
use nvm_malloc.NvmMalloc.Ids.{System}
use nvm_malloc.NvmMalloc.Startup.{nvm_initialize_empty, nvm_initialize_recovered}
use nvm_malloc.NvmMalloc.Startup.Fresh.{fresh_block}
use nvm_malloc.NvmMalloc.Startup.Restart.{nvm_initialize_recovered-nvm_initialize_empty}
use nvm_malloc.NvmMalloc.Initialize.{nvm_initialize}
use nvm_malloc.NvmMalloc.Initialize.Start.{IsStarted, nvm_initialize-IsStarted}
use nvm_malloc.Examples.Names.{map}
use nvm_malloc.Examples.Heap.{from, env, state, space}
use nvm_malloc.Examples.Named.{system}

abbrev unused : Space
unused = record space { region_start = 0; next_chunk = 0 }

abbrev unset : System map
unset = record system { state = record state { nvm_start = 0; space = unused } }

nvm_initialize-IsStarted_example :
    (r : System map) × (nvm_initialize map env (λ e. []) false unset ≡ some r)
    × IsStarted env map (unset.table.total_slots_available + 1260) (2 ^ 32) r
nvm_initialize-IsStarted_example =
    nvm_initialize-IsStarted env (λ o l. refl) (λ o l. refl) map (λ e. []) unset refl refl
      (omega arith)

abbrev mapped : State
mapped = record state { space = record unused { region_start = 2 ^ 32 } }

abbrev begun : State
begun = from mapped (nvm_initialize_empty env mapped)

-- Only the chunks are left of the memory.
abbrev from_chunks : Mem → Mem
from_chunks m a = if leb (2 ^ 32) a then m a else 0

from_chunks-same : (m : Mem) (a : ℕ) → 2 ^ 32 ≤ a → from_chunks m a ≡ m a
from_chunks-same m a le = ground arith

from_chunks-empty : (m : Mem) (k : ℕ) → k < 127 → from_chunks m (2 ^ 30 + 8 + 8 * k) ≡ 0
from_chunks-empty m k lt = ground arith

abbrev restarted : State
restarted = record state { mem = from_chunks begun.mem }

nvm_initialize_recovered-nvm_initialize_empty_example :
    (v : State) × (nvm_initialize_recovered env 20 restarted ≡ some v)
    × ((w : ArenaBlock → ℕ) (j : ℕ)
        → j < 20
        → (weight w (tree_of j v) ≡ weight w (tree_of j begun))
          × (weight w (tree_of j begun) ≡ w (fresh_block (2 ^ 32) j)))
unfolding nvm_initialize_empty initialize_chunks activate_more_chunks
nvm_initialize_recovered-nvm_initialize_empty_example =
    nvm_initialize_recovered-nvm_initialize_empty env mapped begun restarted refl refl refl
      (from_chunks-same begun.mem) (from_chunks-empty begun.mem)
