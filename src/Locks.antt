-- ===== src/Locks.antt =====
-- The mutexes of src/arena.c, src/chunk.c and src/nvm_malloc.c, and threads that take them.
--
-- A call is a program: it locks and unlocks, and between that it accesses the state, once for each
-- part of the code that stands under one lock. Any thread may step at any time. A mutex is that of
-- pthreads: a lock waits until nobody has it. The state byte of a run is a lock too, by the
-- compare-and-swap of `nvm_activate` and `arena_free`; Threads is about its accesses to memory.
pub mod Discipline
pub mod Owners
pub mod Exclusion
pub mod Waiting
pub mod Freeing
pub mod Progress
pub mod Calls
pub mod Guards
pub mod Effects
pub mod Protocol
pub mod System
use nvm_malloc.Base.{
  ℕ, ◌+◌, Bool, true, false, ◌&&◌, Option, none, some, List, [], ◌∷◌, ◌==◌, if◌then◌else◌, update,
}
use nvm_malloc.State.{State}

pub data Mutex : Type 0 where
  -- the state byte of the run at an address
  run_state : ℕ → Mutex
  -- `mtx` of a bin, by arena and index, and of an arena
  bin_mtx : (arena bin : ℕ) → Mutex
  arena_mtx : ℕ → Mutex
  -- `chunk_mtx` of src/nvm_malloc.c and the static one of src/chunk.c
  huge_mtx space_mtx : Mutex

abbrev pub same : Mutex → Mutex → Bool
same (run_state h) (run_state k) = h == k
same (bin_mtx a i) (bin_mtx b j) = (a == b) && (i == j)
same (arena_mtx a) (arena_mtx b) = a == b
same huge_mtx huge_mtx = true
same space_mtx space_mtx = true
same _ _ = false

-- `access` runs a part of the code on the state; `none` in it is the end of the process.
pub data Program (A : Type 0) : Type 1 where
  done : A → Program A
  lock unlock : Mutex → Program A → Program A
  access : {B : Type 0} → (State → Option (B × State)) → (B → Program A) → Program A

infixl 5 ◌>>=◌ ◌>>◌
abbrev pub ◌>>=◌ : {A B : Type 0} → Program A → (A → Program B) → Program B
done a >>= g = g a
lock m p >>= g = lock m (p >>= g)
unlock m p >>= g = unlock m (p >>= g)
access f k >>= g = access f (λ b. k b >>= g)

abbrev pub ◌>>◌ : {B : Type 0} → Program (Unit {0}) → Program B → Program B
p >> q = p >>= λ _. q

abbrev pub acquire : Mutex → Program (Unit {0})
acquire m = lock m (done tt)

abbrev pub release : Mutex → Program (Unit {0})
release m = unlock m (done tt)

abbrev pub perform : {B : Type 0} → (State → Option (B × State)) → Program B
perform f = access f done

-- The owner of a mutex is one more than the thread's number, or 0.
pub record Machine (A : Type 0) : Type 1 where
  pub state : State
  pub exited : Bool
  pub owner : Mutex → ℕ
  pub threads : ℕ → Program A

abbrev pub give : (Mutex → ℕ) → Mutex → ℕ → Mutex → ℕ
give owner m v k = if same k m then v else owner k

module _ {A : Type 0} where
  unfoldable pub execute : ℕ → Program A → Machine A → Machine A
  execute i (done a) s = s
  execute i (lock m p) s =
      if s.owner m == 0
      then record s { owner = give s.owner m (i + 1); threads = update s.threads i p }
      else s
  execute i (unlock m p) s = record s { owner = give s.owner m 0; threads = update s.threads i p }
  execute i (access f k) s = elim (f s.state) [
    | none ↦ record s { exited = true }
    | some (b, t) ↦ record s { state = t; threads = update s.threads i (k b) }
  ]

  -- Thread `i` steps, unless the process has ended.
  unfoldable pub advance : ℕ → Machine A → Machine A
  advance i s = if s.exited then s else execute i (s.threads i) s

  -- What the threads of `programs` can come to from state `s₀`.
  pub data Reachable (programs : ℕ → Program A) (s₀ : State) : Machine A → Type 1 where
    initial :
        Reachable programs s₀
          (record { state = s₀; exited = false; owner = λ _. 0; threads = programs })
    next : {s : Machine A} (i : ℕ) → Reachable programs s₀ s → Reachable programs s₀ (advance i s)
