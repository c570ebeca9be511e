-- ===== src/Threads/Solo.antt =====
-- A thread that steps alone for a while: src/nvm_malloc.c and src/arena.c.
use nvm_malloc.Base.{ℕ, zero, suc, ◌+◌, ◌≡◌, refl, ◌∙◌, ap, arith, List, [], ◌∷◌, ◌++◌, update}
use nvm_malloc.Nvm.{Mem, Event, store, apply, exec}
use nvm_malloc.Slot.{pending, settled, mark, unlock}
use nvm_malloc.Threads.{
  Task, Thread, waiting, recording, loaded, marked, fenced, unlocking, returned, records, step,
}
use nvm_malloc.Threads.Lock.{IsPlaced}

module _ (start h : ℕ) where
  -- `k` steps of one thread.
  abbrev pub run : ℕ → Task → Mem → Thread → Mem × Thread
  run zero t m th = (m, th)
  run (suc k) t m th = let r = step start h t m th in run k t r.0 r.1

  -- The thread gets there without a step of another.
  abbrev pub Leads : Task → Mem → Thread → Mem → Thread → Type 0
  Leads t m th n th' = (k : ℕ) × (run k t m th ≡ (n, th'))

  run-add :
      (j k : ℕ) (t : Task) (m : Mem) (th : Thread)
      → run (j + k) t m th ≡ (let r = run j t m th in run k t r.0 r.1)
  run-add zero k t m th = let e : 0 + k ≡ k = omega arith in rw e refl
  run-add (suc j) k t m th =
      let e : suc j + k ≡ suc (j + k) = omega arith in
      let r = step start h t m th in rw e (run-add j k t r.0 r.1)

  pub Leads-trans :
      {t : Task} {m n o : Mem} {a b c : Thread}
      → Leads t m a n b
      → Leads t n b o c
      → Leads t m a o c
  Leads-trans {t} {m} {a} (j, e) (k, f) =
      (j + k, run-add j k t m a ∙ ap (λ r. run k t r.0 r.1) e ∙ f)

  pub run-recording :
      (t : Task) (es rest : List Event) (m : Mem)
      → Leads t m (recording (es ++ rest)) (exec es m) (recording rest)
  unfolding step
  run-recording t [] rest m = (0, refl)
  run-recording t (e ∷ es) rest m = let (k, f) = run-recording t es rest (apply e m) in (suc k, f)

  pub run-unlocking :
      (t : Task) (es : List Event) (m : Mem) → Leads t m (unlocking es) (exec es m) returned
  unfolding step
  run-unlocking t [] m = (1, refl)
  run-unlocking t (e ∷ es) m = let (k, f) = run-unlocking t es (apply e m) in (suc k, f)

  -- From the load of the bitmap byte to the release of the lock.
  pub run-loading :
      (t : Task) (m : Mem)
      → Leads t m
          (recording [])
          (exec (mark t.kind m h t.idx ++ (store h settled ∷ [])) m)
          (unlocking (unlock h))
  unfolding step
  run-loading t m = (4, refl)

  pub run-loaded :
      (t : Task) (m : Mem) (v : ℕ)
      → (n : Mem) × Leads t m (loaded v) (update n h settled) (unlocking (unlock h))
  unfolding step
  run-loaded t m v = (_, (3, refl))

  pub run-marked :
      (t : Task) (m : Mem) → Leads t m marked (update m h settled) (unlocking (unlock h))
  unfolding step
  run-marked t m = (2, refl)

  pub run-fenced :
      (t : Task) (m : Mem) → Leads t m fenced (update m h settled) (unlocking (unlock h))
  unfolding step
  run-fenced t m = (1, refl)

  pub run-acquire :
      (t : Task) (m : Mem)
      → m h ≡ settled
      → Leads t m waiting (update m h (pending t.kind)) (recording (records start h t))
  unfolding step
  run-acquire t m e = (1, rw e)

  pub run-all :
      (t : Task) (es : List Event) (m : Mem) → Leads t m (recording es) (exec es m) (recording [])
  unfolding step
  run-all t [] m = (0, refl)
  run-all t (e ∷ es) m = let (k, f) = run-all t es (apply e m) in (suc k, f)

module _ (start h : ℕ) (t : Task) (placed : IsPlaced start h t) (m : Mem) where
  -- Memory when the thread loads the bitmap byte.
  abbrev pub before_load : Mem
  before_load = exec (records start h t) (update m h (pending t.kind))

  -- The thread gets through its change, and releases the lock on the way.
  abbrev pub released : Mem
  released = exec (mark t.kind before_load h t.idx ++ (store h settled ∷ [])) before_load

  pub change-released : m h ≡ settled → Leads start h t m waiting released (unlocking (unlock h))
  change-released ready = Leads-trans start h (run-acquire start h t m ready) (
      Leads-trans start h (run-all start h t (records start h t) (update m h (pending t.kind)))
        (run-loading start h t before_load))
