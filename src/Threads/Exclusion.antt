-- ===== src/Threads/Exclusion.antt =====
-- Mutual exclusion between threads that change slots of a run: src/nvm_malloc.c and src/arena.c.
use nvm_malloc.Base.{
  ℕ, ◌≡◌, ◌≢◌, ◌⊎◌, inl, inr, refl, sym, ◌∙◌, arith, true, false, Bool-cases, [], ◌∷◌, ◌==◌, ==→eq,
  update, update-cases, ◌<◌,
}
use nvm_malloc.Nvm.{Mem}
use nvm_malloc.Slot.{settled, byte_of}
use nvm_malloc.Threads.{
  Task, Thread, waiting, recording, loaded, marked, fenced, unlocking, returned, step, Machine,
  advance, Reachable, initial, next, holds,
}
use nvm_malloc.Threads.Lock.{IsPlaced, InBitmap, Local, locked, step-Local, step-quiet}

module _ (start h : ℕ) where
  -- A step takes the lock only if the run is settled.
  step-holds :
      (t : Task) (m : Mem) (th : Thread)
      → holds ((step start h t m th).1) ≡ true
      → (holds th ≡ true) ⊎ (m h ≡ settled)
  unfolding step
  step-holds t m waiting e = elim (Bool-cases (m h == settled)) [
    | inl f ↦ inr (==→eq _ _ f)
    | inr f ↦ ground (arith, f, e)
  ]
  step-holds t m (recording es) e = inl refl
  step-holds t m (loaded v) e = inl refl
  step-holds t m marked e = inl refl
  step-holds t m fenced e = inl refl
  step-holds t m (unlocking (a ∷ es)) e = cc
  step-holds t m (unlocking []) e = cc
  step-holds t m returned e = cc

  -- What a thread knows does not depend on cells other than the state byte and the bitmap.
  Local-same :
      (t : Task) (m n : Mem) (th : Thread)
      → t.idx < 64
      → ((a : ℕ) → (a ≡ h) ⊎ InBitmap h a → n a ≡ m a)
      → Local start h t m th
      → Local start h t n th
  Local-same t m n waiting lt same p = tt
  Local-same t m n (recording es) lt same p = rw (same h (inl refl)) p
  Local-same t m n (loaded v) lt same p =
      rw (same h (inl refl), same (byte_of h t.idx) (inr (omega arith, omega arith))) p
  Local-same t m n marked lt same p = rw (same h (inl refl)) p
  Local-same t m n fenced lt same p = rw (same h (inl refl)) p
  Local-same t m n (unlocking es) lt same p = p
  Local-same t m n returned lt same p = tt

  -- Nothing is known of memory from a thread that does not hold the lock.
  Local-free :
      (t : Task) (m n : Mem) (th : Thread)
      → holds th ≡ false
      → Local start h t m th
      → Local start h t n th
  Local-free t m n waiting e p = tt
  Local-free t m n (recording es) e p = cc
  Local-free t m n (loaded v) e p = cc
  Local-free t m n marked e p = cc
  Local-free t m n fenced e p = cc
  Local-free t m n (unlocking es) e p = p
  Local-free t m n returned e p = tt

module _ (start h : ℕ) (tasks : ℕ → Task) where
  pub record IsExclusive (s : Machine) : Type 0 where
    pub local : (i : ℕ) → Local start h (tasks i) s.mem (s.threads i)
    pub alone : (i j : ℕ) → holds (s.threads i) ≡ true → holds (s.threads j) ≡ true → i ≡ j

module _ (start h : ℕ) (tasks : ℕ → Task) (placed : (i : ℕ) → IsPlaced start h (tasks i))
    (s : Machine) (good : IsExclusive start h tasks s) (i : ℕ) where
  abbrev after : Mem × Thread
  after = step start h (tasks i) s.mem (s.threads i)

  -- If another thread holds the lock, this one has no effect on what it guards.
  other-quiet :
      (j : ℕ)
      → j ≢ i
      → holds (s.threads j) ≡ true
      → (a : ℕ) → (a ≡ h) ⊎ InBitmap h a
      → after.0 a ≡ s.mem a
  other-quiet j ne e a at =
      step-quiet start h (tasks i) s.mem (s.threads i) a (good.local i)
        (elim (Bool-cases (holds (s.threads i))) [
          | inl f ↦ absurd (ne (good.alone j i e f))
          | inr f ↦ f
        ])
        (locked start h (tasks j) s.mem (s.threads j) e (good.local j)) at

  other-Local : (j : ℕ) → j ≢ i → Local start h (tasks j) after.0 (s.threads j)
  other-Local j ne = elim (Bool-cases (holds (s.threads j))) [
    | inl e ↦
        Local-same start h (tasks j) s.mem after.0 (s.threads j) ((placed j).range)
          (other-quiet j ne e) (good.local j)
    | inr e ↦ Local-free start h (tasks j) s.mem after.0 (s.threads j) e (good.local j)
  ]

  other-alone : (j : ℕ) → j ≢ i → holds after.1 ≡ true → holds (s.threads j) ≡ true → i ≡ j
  other-alone j ne e f = elim (step-holds start h (tasks i) s.mem (s.threads i) e) [
    | inl g ↦ good.alone i j g f
    | inr g ↦ absurd (locked start h (tasks j) s.mem (s.threads j) f (good.local j) g)
  ]

  advance-IsExclusive : IsExclusive start h tasks (advance start h tasks i s)
  unfolding advance
  advance-IsExclusive = record {
    local = λ j.
        update-cases (Local start h (tasks j) after.0) s.threads i after.1 j
          (λ e. rw e (step-Local start h (tasks i) s.mem (s.threads i) (placed i) (good.local i)))
          (other-Local j);
    alone = λ j k.
        update-cases (λ th. holds th ≡ true → holds (update s.threads i after.1 k) ≡ true → j ≡ k)
          s.threads i after.1 j
          (λ e p.
            update-cases (λ th. holds th ≡ true → j ≡ k) s.threads i after.1 k (λ f q. e ∙ sym f)
              (λ ne q. e ∙ other-alone k ne p q))
          (λ ne p.
            update-cases (λ th. holds th ≡ true → j ≡ k) s.threads i after.1 k
              (λ f q. sym (f ∙ other-alone j ne q p)) (λ _ q. good.alone j k p q));
  }

module _ (start h : ℕ) (tasks : ℕ → Task) (placed : (i : ℕ) → IsPlaced start h (tasks i))
    (m₀ : Mem) where
  pub Reachable-IsExclusive :
      (s : Machine) → Reachable start h tasks m₀ s → IsExclusive start h tasks s
  Reachable-IsExclusive s initial = record { local = λ i. tt; alone = λ i j e f. cc }
  Reachable-IsExclusive s (next {s = r} i path) =
      advance-IsExclusive start h tasks placed r (Reachable-IsExclusive r path) i

  -- Let every thread change one of the 64 slots, with links, if any, that lie outside the header.
  -- However the threads are interleaved, no two of them hold the run's lock at the same time, and
  -- while one holds it the state byte is not RUN | INITIALIZED.
  pub Reachable-alone :
      (s : Machine)
      → Reachable start h tasks m₀ s
      → (i j : ℕ) → holds (s.threads i) ≡ true
      → holds (s.threads j) ≡ true
      → (i ≡ j) × (s.mem h ≢ settled)
  Reachable-alone s path i j e f =
      let good = Reachable-IsExclusive s path in
      (good.alone i j e f, locked start h (tasks i) s.mem (s.threads i) e (good.local i))
