-- ===== src/State.antt =====
-- The state of the allocator: NVRAM, and the volatile structures of src/types.h that describe it.
--
-- A volatile `arena_run_t` is an object that others point to, so it lives in the map `runs`, under
-- the address that `malloc` gave; 0 is NULL. Blocks and huge headers are only ever reached through
-- the tree that holds them. The mutexes are in Locks.
use nvm_malloc.Base.{ℕ, ◌+◌, update}
use nvm_malloc.Nvm.{Mem}
use nvm_malloc.Tree.{Tree, TreeLib}
use nvm_malloc.Chunk.{Os, Space}

-- `arena_block_t`: a free run of pages
pub record ArenaBlock : Type 0 where
  pub nvm_block : ℕ
  pub n_pages : ℕ
  pub arena : ℕ

-- `huge_t`: a free run of chunks
pub record Huge : Type 0 where
  pub nvm_chunk : ℕ
  pub n_chunks : ℕ

-- `arena_run_t`; the pointer `bin` is the arena and the index of the bin
pub record ArenaRun : Type 0 where
  pub nvm_run : ℕ
  pub bin_arena : ℕ
  pub bin_index : ℕ
  pub elem_size : ℕ
  pub n_free : ℕ
  pub n_max : ℕ
  pub bitmap : ℕ → ℕ
  pub next : ℕ

-- `arena_bin_t`; the two runs are addresses
pub record Bin : Type 0 where
  pub current_run : ℕ
  pub n_free : ℕ
  pub n_runs : ℕ
  pub runs : ℕ

pub record Arena : Type 0 where
  pub id : ℕ
  pub bins : ℕ → Bin
  pub free_pageruns : Tree ArenaBlock

pub record State : Type 0 where
  pub mem : Mem
  pub nvm_start : ℕ
  pub current_version : ℕ
  pub next_log_entry : ℕ
  pub log_start : ℕ
  pub space : Space
  pub arenas : ℕ → Arena
  pub next_arena : ℕ
  -- the thread's arena, one more than its number; 0 for a thread that is not in `tidmap`
  pub tidmap : ℕ → ℕ
  pub free_chunks : Tree Huge
  pub runs : ℕ → ArenaRun
  -- the next address that `malloc` gives to a run
  pub heap_top : ℕ

abbrev pub pages_of : ArenaBlock → ℕ
pages_of b = b.n_pages

abbrev pub chunks_of : Huge → ℕ
chunks_of h = h.n_chunks

-- What the allocator takes from outside: the system, and ulib's trees.
pub record Env : Type 0 where
  pub os : Os
  pub blocks : TreeLib pages_of
  pub huges : TreeLib chunks_of

abbrev pub set_mem : Mem → State → State
set_mem m s = record s { mem = m }

abbrev pub set_arena : ℕ → Arena → State → State
set_arena i a s = record s { arenas = update s.arenas i a }

abbrev pub set_bin : (arena index : ℕ) → Bin → State → State
set_bin i j b s = record s {
  arenas = update s.arenas i (record (s.arenas i) { bins = update (s.arenas i).bins j b });
}

abbrev pub set_run : ℕ → ArenaRun → State → State
set_run p r s = record s { runs = update s.runs p r }

-- `malloc` of a run
abbrev pub new_run : ArenaRun → State → ℕ × State
new_run r s =
    (s.heap_top, record s { runs = update s.runs s.heap_top r; heap_top = s.heap_top + 1 })
