-- ===== src/Examples/Heap.antt =====
-- A small heap with one arena, and the theorems on it.
use nvm_malloc.Base.{
  ℕ, ◌+◌, ◌*◌, ◌^◌, ◌≡◌, ◌≤◌, ◌⊎◌, inl, inr, refl, arith, true, Option, none, some, List, [], ◌∷◌,
  ◌==◌, if◌then◌else◌,
}
use nvm_malloc.Types.{chunk_size, block_size}
use nvm_malloc.Tree.{Tree, leaf, node, IsOrdered, weight, tree_upper_bound}
use nvm_malloc.Tree.BestFit.{IsBestFit, tree_upper_bound-IsBestFit}
use nvm_malloc.Chunk.{Os, Space, activate_more_chunks}
use nvm_malloc.Chunk.Regions.{IsValid, activations, Granted, activations-Granted}
use nvm_malloc.State.{ArenaBlock, ArenaRun, Arena, State, Env, Huge, chunks_of}
use nvm_malloc.Arena.{
  arena_create_block, take_block, take_found, cut_block, place_block, put_block, take_slot,
  slots_per_run,
}
use nvm_malloc.Arena.Pages.{covers, tree_of, chunk_block, arena_create_block-covers}
use nvm_malloc.Arena.Slots.{IsFirstFree, Took, take_slot-Took}
use nvm_malloc.Arena.Free.{release_slot, count_free}
use nvm_malloc.Arena.Free.Count.{IsCounted, take_slot-IsCounted, release_slot-IsCounted}
use nvm_malloc.NvmMalloc.{nvm_reserve}
use nvm_malloc.Arena.{arena_create_run, place_run}
use nvm_malloc.Arena.Pages.Runs.{Split, arena_create_run-covers}
use nvm_malloc.Examples.Trees.{block_tree, huge_tree, sorted_tree}

abbrev pub from {ℓ} : {A : Type ℓ} → A → Option A → A
from a none = a
from a (some b) = b

-- A system that grants every request.
abbrev willing : Os
willing = record {
  fallocate = λ offset len. true;
  map = λ offset len. true;
  region = 2 ^ 32;
  meta = 2 ^ 30;
}

abbrev pub env : Env
env = record { os = willing; blocks = block_tree; huges = huge_tree }

abbrev pub space : Space
space = record {
  region_start = 2 ^ 32;
  max_chunks = 25600;
  next_chunk = 20;
  meta_info = 2 ^ 30;
  file_size = 20 * chunk_size;
}

space-IsValid : IsValid space
space-IsValid = record {
  within = omega arith;
  fits = omega arith;
  chunks = refl;
  not_empty = omega arith;
}

abbrev granted : Option (ℕ × Space)
granted = activate_more_chunks willing 3 space

abbrev served : List (ℕ × ℕ) × Space
served = from ([], space) (activations willing (1 ∷ 2 ∷ 5 ∷ []) space)

activations-Granted_example : Granted willing space served.0 served.1
unfolding activations activate_more_chunks
activations-Granted_example =
    activations-Granted willing (1 ∷ 2 ∷ 5 ∷ []) space served.0 served.1 space-IsValid
      (omega arith, (omega arith, (omega arith, tt))) refl

abbrev pub chunks : ℕ → Huge
chunks n = record { nvm_chunk = n * chunk_size; n_chunks = n }

abbrev huge_regions : Tree Huge
huge_regions = node (node leaf (chunks 2) leaf) (chunks 4) (node leaf (chunks 7) leaf)

huge_regions-IsOrdered : IsOrdered chunks_of huge_regions
huge_regions-IsOrdered = (
  (tt, tt, λ x i. absurd i, λ x i. absurd i),
  (tt, tt, λ x i. absurd i, λ x i. absurd i),
  λ x i. left x i,
  λ x i. right x i,
)
  where
    left : (x : Huge) → ⊥ ⊎ (x ≡ chunks 2) ⊎ ⊥ → x.n_chunks ≤ 4
    left x (inl i) = absurd i
    left x (inr (inl e)) = rw e (omega arith)
    left x (inr (inr i)) = absurd i

    right : (x : Huge) → ⊥ ⊎ (x ≡ chunks 7) ⊎ ⊥ → 4 ≤ x.n_chunks
    right x (inl i) = absurd i
    right x (inr (inl e)) = rw e (omega arith)
    right x (inr (inr i)) = absurd i

tree_upper_bound-IsBestFit_example :
    IsBestFit chunks_of 3 huge_regions (tree_upper_bound chunks_of 3 huge_regions)
tree_upper_bound-IsBestFit_example =
    tree_upper_bound-IsBestFit chunks_of 3 huge_regions huge_regions-IsOrdered

abbrev pub first_block : ArenaBlock
first_block = record { nvm_block = 2 ^ 32 + block_size; n_pages = 1023; arena = 0 }

abbrev arena : Arena
arena = record {
  id = 0;
  bins = λ i. record { current_run = 0; n_free = 0; n_runs = 0; runs = 0 };
  free_pageruns = node leaf first_block leaf;
}

-- A run of 128-byte slots whose first three slots are in use.
abbrev run : ArenaRun
run = record {
  nvm_run = 2 ^ 32 + 8 * block_size;
  bin_arena = 0;
  bin_index = 1;
  elem_size = 128;
  n_free = 28;
  n_max = 31;
  bitmap = λ i. if i == 0 then 7 else 0;
  next = 0;
}

abbrev pub state : State
state = record {
  mem = λ a. 0;
  nvm_start = 2 ^ 32;
  current_version = 0;
  next_log_entry = 0;
  log_start = 2 ^ 30 + 8;
  space = space;
  arenas = λ i. arena;
  next_arena = 0;
  tidmap = λ t. 0;
  free_chunks = leaf;
  runs = λ p. run;
  heap_top = 1;
}

abbrev block_made : ℕ × State
block_made = from (0, state) (arena_create_block env 0 3 state)

arena_create_block-covers_example :
    let block : ArenaBlock = record { nvm_block = block_made.0; n_pages = 3; arena = 0 } in
    ((x : ℕ)
      → covers x block + weight (covers x) (tree_of 0 block_made.1)
        ≡ weight (covers x) (tree_of 0 state))
    ⊎ ((x : ℕ)
        → covers x block + weight (covers x) (tree_of 0 block_made.1)
          ≡ covers x (chunk_block 0 state) + weight (covers x) (tree_of 0 state))
unfolding arena_create_block take_block take_found cut_block place_block put_block tree_upper_bound
    block_tree sorted_tree
arena_create_block-covers_example =
    arena_create_block-covers env 0 3 state block_made.0 block_made.1 (omega arith)
      (tt, tt, λ x i. absurd i, λ x i. absurd i) refl

abbrev slot_taken : ℕ × State
slot_taken = take_slot 0 1 128 1 state

take_slot-Took_example :
    ((slot_taken.0 ≡ 0) × IsFirstFree run.bitmap 0 (slots_per_run 128) none)
    ⊎ Took 128 1 state slot_taken.0 slot_taken.1
take_slot-Took_example = take_slot-Took 0 1 128 1 state (λ k. ground arith)

run-IsCounted : IsCounted 128 1 state
unfolding count_free
run-IsCounted = record { count = refl; bytes = λ k. ground arith }

take_slot-IsCounted_example :
    Took 128 1 state slot_taken.0 slot_taken.1 × IsCounted 128 1 slot_taken.1
take_slot-IsCounted_example = take_slot-IsCounted 0 1 128 1 state run-IsCounted (omega arith)

release_slot-IsCounted_example :
    IsCounted 128 1 (release_slot 1 2 state) × (((release_slot 1 2 state).runs 1).n_free ≡ 28 + 1)
release_slot-IsCounted_example =
    release_slot-IsCounted 128 1 2 state run-IsCounted (omega arith) (λ e. omega (arith, e))

-- Three free regions, of which the request takes the smallest that is large enough.
abbrev pub with_regions : State
with_regions = record state { free_chunks = huge_regions }

abbrev reserved : ℕ × State
reserved = from (0, with_regions) (nvm_reserve env 1 9000000 with_regions)

abbrev run_made : ℕ × State
run_made = from (0, state) (arena_create_run env 0 1 128 state)

arena_create_run-covers_example : Split env 0 state run_made.0 run_made.1
unfolding arena_create_run place_run take_block take_found put_block tree_upper_bound block_tree
    sorted_tree
arena_create_run-covers_example =
    arena_create_run-covers env 0 1 128 state run_made.0 run_made.1
      (tt, tt, λ x i. absurd i, λ x i. absurd i) refl
