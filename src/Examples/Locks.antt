-- ===== src/Examples/Locks.antt =====
-- Threads that reserve and free at the same time.
use nvm_malloc.Base.{
  ℕ, ◌+◌, ◌*◌, ◌^◌, ◌≡◌, ◌⊎◌, refl, arith, true, false, List, [], ◌∷◌, ◌==◌, if◌then◌else◌,
}
use nvm_malloc.Types.{block_size}
use nvm_malloc.Links.{no_links}
use nvm_malloc.Locks.{arena_mtx, done, Machine, Reachable, initial, next, advance, execute}
use nvm_malloc.Locks.Discipline.{IsKept}
use nvm_malloc.Locks.Waiting.{follow}
use nvm_malloc.Locks.Calls.{nvm_reserve_steps, arena_allocate_steps, create_block_steps}
use nvm_malloc.Locks.System.{
  Call, reserve, free, session, call_steps, session-IsKept, session-returns,
}
use nvm_malloc.NvmMalloc.{thread_arena}
use nvm_malloc.Examples.Heap.{env, state}

-- Thread 0 reserves a block and a slot, every other frees the block at the eighth page.
abbrev calls : ℕ → List Call
calls i =
    if i == 0
    then reserve 7 5000 ∷ reserve 7 100 ∷ []
    else free (2 ^ 32 + 8 * block_size + 64) no_links ∷ []

abbrev started : Machine (List ℕ)
started = record {
  state = state;
  exited = false;
  owner = λ _. 0;
  threads = λ i. session env (calls i);
}

-- Thread 0 has its arena and the arena's mutex.
abbrev busy : Machine (List ℕ)
busy = advance 0 (advance 0 started)

busy-Reachable : Reachable (λ i. session env (calls i)) state busy
busy-Reachable = next 0 (next 0 initial)

busy_owner : busy.owner (arena_mtx 0) ≡ 1
unfolding advance execute session call_steps nvm_reserve_steps arena_allocate_steps
    create_block_steps thread_arena
busy_owner = refl

session-IsKept_example : IsKept (arena_mtx 0) busy.state (advance 1 busy).state
session-IsKept_example =
    session-IsKept env calls state busy busy-Reachable 1 (arena_mtx 0)
      (λ e. omega (arith, busy_owner, e))

session-returns_example :
    (is : List ℕ) × (((follow is busy).exited ≡ true)
      ⊎ ((rs : List ℕ) × ((follow is busy).threads 1 ≡ done rs)))
session-returns_example = session-returns env calls state busy busy-Reachable 1
