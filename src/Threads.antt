-- ===== src/Threads.antt =====
-- Threads that change slots of one run at the same time: `nvm_activate` of src/nvm_malloc.c and
-- `arena_free` of src/arena.c, from the compare-and-swap on the run's state byte on.
--
-- A step of a thread is one access to memory: a compare-and-swap, a store, the load of the bitmap
-- byte, or a fence or flush. The update of the bitmap, `|=` or `&=`, is a load and a store. Any
-- thread may step at any time. A free of a run of an earlier start first renews its volatile header,
-- under the lock; that is not part of the steps.
pub mod Lock
pub mod Exclusion
pub mod Marks
pub mod Slots
pub mod Solo
pub mod Progress
pub mod Overlap
use nvm_malloc.Base.{
  ℕ, ◌+◌, ◌%◌, Bool, true, false, List, [], ◌∷◌, ◌++◌, ◌==◌, if◌then◌else◌, update,
}
use nvm_malloc.Types.Run
use nvm_malloc.Nvm.{Mem, Event, store, fence, apply}
use nvm_malloc.Links.{Links, commit_links}
use nvm_malloc.Slot.{Change, pending, committed, changed, settled, byte_of, unlock}

-- What a thread is called for: a change of slot `idx` with links.
pub record Task : Type 0 where
  pub kind : Change
  pub idx : ℕ
  pub links : Links

-- Where a thread is in its call, with the accesses that are left of a straight part of the code.
pub data Thread : Type 0 where
  -- in the loop around the compare-and-swap
  waiting : Thread
  -- up to the load of the bitmap byte
  recording : List Event → Thread
  -- with the loaded byte
  loaded : ℕ → Thread
  -- behind the store of the bitmap byte, and behind the fence that follows
  marked fenced : Thread
  -- behind the store of the state byte
  unlocking : List Event → Thread
  returned : Thread

module _ (start h : ℕ) where
  -- From the lock to the load of the bitmap byte.
  unfoldable pub records : Task → List Event
  records t =
      store (h + Run.bit_idx) t.idx
      ∷ (commit_links start h (h + Run.on) (committed t.kind) t.links ++ (fence ∷ []))

  unfoldable pub step : Task → Mem → Thread → Mem × Thread
  step t m waiting =
      if m h == settled then (update m h (pending t.kind), recording (records t)) else (m, waiting)
  step t m (recording (e ∷ es)) = (apply e m, recording es)
  step t m (recording []) = (m, loaded (m (byte_of h t.idx)))
  step t m (loaded v) = (update m (byte_of h t.idx) (changed t.kind v (t.idx % 8)), marked)
  step t m marked = (apply fence m, fenced)
  step t m fenced = (update m h settled, unlocking (unlock h))
  step t m (unlocking (e ∷ es)) = (apply e m, unlocking es)
  step t m (unlocking []) = (m, returned)
  step t m returned = (m, returned)

-- The memory that the threads share, and each thread.
pub record Machine : Type 0 where
  pub mem : Mem
  pub threads : ℕ → Thread

module _ (start h : ℕ) (tasks : ℕ → Task) where
  -- Thread `i` steps.
  unfoldable pub advance : ℕ → Machine → Machine
  advance i s =
      let r = step start h (tasks i) s.mem (s.threads i) in
      record { mem = r.0; threads = update s.threads i r.1 }

  -- What the threads can come to from memory `m₀`, each at the start of its call.
  pub data Reachable (m₀ : Mem) : Machine → Type 0 where
    initial : Reachable m₀ (record { mem = m₀; threads = λ _. waiting })
    next : {s : Machine} (i : ℕ) → Reachable m₀ s → Reachable m₀ (advance i s)

-- The thread holds the run's lock.
abbrev pub holds : Thread → Bool
holds waiting = false
holds (recording es) = true
holds (loaded v) = true
holds marked = true
holds fenced = true
holds (unlocking es) = false
holds returned = false

-- The thread has changed the bitmap.
abbrev pub has_marked : Thread → Bool
has_marked waiting = false
has_marked (recording es) = false
has_marked (loaded v) = false
has_marked marked = true
has_marked fenced = true
has_marked (unlocking es) = true
has_marked returned = true
