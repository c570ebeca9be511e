-- ===== src/Threads/Progress.antt =====
-- That calls on one run do not block each other for good: src/nvm_malloc.c and src/arena.c.
use nvm_malloc.Base.{
  true_ne, ℕ, zero, suc, ◌≡◌, ◌≢◌, ◌⊎◌, inl, inr, refl, sym, ◌∙◌, ap, arith, true, false,
  Bool-cases, List, [], ◌∷◌, ◌++◌, ◌==◌, ==→eq, update, update_self, update-ne,
}
use nvm_malloc.Nvm.{Mem, store, fence, flush, exec}
use nvm_malloc.Slot.{settled, unlock}
use nvm_malloc.Threads.{
  Task, Thread, waiting, recording, loaded, marked, fenced, unlocking, returned, step, Machine,
  advance, Reachable, initial, next, holds,
}
use nvm_malloc.Threads.Lock.{IsPlaced, Local}
use nvm_malloc.Threads.Exclusion.{IsExclusive, Reachable-IsExclusive}
use nvm_malloc.Threads.Solo.{
  run, Leads, Leads-trans, run-all, run-loading, run-loaded, run-marked, run-fenced, run-unlocking,
  change-released, released,
}

module _ (start h : ℕ) where
  -- A step that leaves the run locked leaves it to the one who had it, or to the thread itself.
  step-owner :
      (t : Task) (m : Mem) (th : Thread)
      → Local start h t m th
      → let r = step start h t m th in
        r.0 h ≢ settled → (holds r.1 ≡ true) ⊎ ((holds th ≡ false) × (m h ≢ settled))
  unfolding step
  step-owner t m waiting p ne = elim (Bool-cases (m h == settled)) [
    | inl e ↦ inl (rw e refl)
    | inr e ↦ inr (refl, λ z. ground (arith, e, z))
  ]
  step-owner t m (recording (e ∷ es)) p ne = inl refl
  step-owner t m (recording []) p ne = inl refl
  step-owner t m (loaded v) p ne = inl refl
  step-owner t m marked p ne = inl refl
  step-owner t m fenced p ne = absurd (ne (update_self m h settled))
  step-owner t m (unlocking (store b v ∷ es)) p ne =
      inr (refl, λ z. ne (update-ne m b v h (λ e. p.0.0 (sym e)) ∙ z))
  step-owner t m (unlocking (fence ∷ es)) p ne = inr (refl, ne)
  step-owner t m (unlocking (flush b ∷ es)) p ne = inr (refl, ne)
  step-owner t m (unlocking []) p ne = inr (refl, ne)
  step-owner t m returned p ne = inr (refl, ne)

  exec-unlock : (m : Mem) → exec (unlock h) m h ≡ m h
  exec-unlock m = ground arith

  from_release :
      (t : Task) (m n : Mem) (th : Thread)
      → Leads start h t m th (update n h settled) (unlocking (unlock h))
      → (o : Mem) × Leads start h t m th o returned × (o h ≡ settled)
  from_release t m n th l = (
    _,
    Leads-trans start h l (run-unlocking start h t (unlock h) (update n h settled)),
    exec-unlock (update n h settled) ∙ update_self n h settled,
  )

  -- The holder of the lock gets to its return alone, and leaves the run settled.
  holder-returns :
      (t : Task) (m : Mem) (th : Thread)
      → holds th ≡ true
      → (n : Mem) × Leads start h t m th n returned × (n h ≡ settled)
  holder-returns t m waiting e = cc
  holder-returns t m (recording es) e =
      from_release t m _ (recording es)
        (Leads-trans start h (run-all start h t es m) (run-loading start h t (exec es m)))
  holder-returns t m (loaded v) e =
      let (n, l) = run-loaded start h t m v in from_release t m n (loaded v) l
  holder-returns t m marked e = from_release t m m marked (run-marked start h t m)
  holder-returns t m fenced e = from_release t m m fenced (run-fenced start h t m)
  holder-returns t m (unlocking es) e = cc
  holder-returns t m returned e = cc

  -- In a settled run every thread gets to its return alone.
  settled-returns :
      (t : Task) (m : Mem) (th : Thread)
      → IsPlaced start h t
      → m h ≡ settled
      → (n : Mem) × Leads start h t m th n returned
  settled-returns t m waiting placed e = (
    _,
    Leads-trans start h (change-released start h t placed m e)
        (run-unlocking start h t (unlock h) (released start h t placed m)),
  )
  settled-returns t m (recording es) placed e =
      let (n, l, _) = holder-returns t m (recording es) refl in (n, l)
  settled-returns t m (loaded v) placed e =
      let (n, l, _) = holder-returns t m (loaded v) refl in (n, l)
  settled-returns t m marked placed e = let (n, l, _) = holder-returns t m marked refl in (n, l)
  settled-returns t m fenced placed e = let (n, l, _) = holder-returns t m fenced refl in (n, l)
  settled-returns t m (unlocking es) placed e = (_, run-unlocking start h t es m)
  settled-returns t m returned placed e = (m, (0, refl))

module _ (start h : ℕ) (tasks : ℕ → Task) where
  -- The steps of a schedule, which names the thread of each step.
  abbrev pub follow : List ℕ → Machine → Machine
  follow [] s = s
  follow (i ∷ schedule) s = follow schedule (advance start h tasks i s)

  pub follow-append : (xs ys : List ℕ) (s : Machine) → follow (xs ++ ys) s ≡ follow ys (follow xs s)
  follow-append [] ys s = refl
  follow-append (i ∷ xs) ys s = follow-append xs ys (advance start h tasks i s)

  pub follow-Reachable :
      (m₀ : Mem) (schedule : List ℕ) (s : Machine)
      → Reachable start h tasks m₀ s
      → Reachable start h tasks m₀ (follow schedule s)
  follow-Reachable m₀ [] s path = path
  follow-Reachable m₀ (i ∷ schedule) s path =
      follow-Reachable m₀ schedule (advance start h tasks i s) (next i path)

  -- From `s` to a machine in which thread `i` has come to `th` and memory to `n` alone.
  pub record IsAlone (s : Machine) (i : ℕ) (n : Mem) (th : Thread) (s' : Machine) : Type 0 where
    pub mem : s'.mem ≡ n
    pub own : s'.threads i ≡ th
    pub other : (j : ℕ) → j ≢ i → s'.threads j ≡ s.threads j

  steps-IsAlone :
      (k : ℕ) (i : ℕ) (s : Machine)
      → let r = run start h k (tasks i) s.mem (s.threads i) in
        (schedule : List ℕ) × IsAlone s i r.0 r.1 (follow schedule s)
  unfolding advance
  steps-IsAlone zero i s = ([], record { mem = refl; own = refl; other = λ j ne. refl })
  steps-IsAlone (suc k) i s =
      let s' = advance start h tasks i s in
      let (schedule, held) = steps-IsAlone k i s' in
      let r = step start h (tasks i) s.mem (s.threads i) in
      let now : s'.threads i ≡ r.1 = update_self s.threads i r.1 in
      (
        i ∷ schedule,
        record {
          mem = held.mem ∙ ap (λ th. (run start h k (tasks i) r.0 th).0) now;
          own = held.own ∙ ap (λ th. (run start h k (tasks i) r.0 th).1) now;
          other = λ j ne. held.other j ne ∙ update-ne s.threads i r.1 j ne;
        },
      )

  pub Leads-IsAlone :
      (i : ℕ) (s : Machine) {n : Mem} {th : Thread}
      → Leads start h (tasks i) s.mem (s.threads i) n th
      → (schedule : List ℕ) × IsAlone s i n th (follow schedule s)
  Leads-IsAlone i s (k, e) =
      let (schedule, held) = steps-IsAlone k i s in
      (
        schedule,
        record {
          mem = held.mem ∙ ap (λ r. r.0) e;
          own = held.own ∙ ap (λ r. r.1) e;
          other = held.other;
        },
      )

module _ (start h : ℕ) (tasks : ℕ → Task) (placed : (i : ℕ) → IsPlaced start h (tasks i)) where
  abbrev IsOwned : Machine → Type 0
  IsOwned s = s.mem h ≢ settled → (i : ℕ) × (holds (s.threads i) ≡ true)

  advance-IsOwned :
      (s : Machine) (i : ℕ)
      → IsExclusive start h tasks s
      → IsOwned s
      → IsOwned (advance start h tasks i s)
  unfolding advance
  advance-IsOwned s i good owned ne =
      let r = step start h (tasks i) s.mem (s.threads i) in
      elim (step-owner start h (tasks i) s.mem (s.threads i) (good.local i) ne) [
        | inl e ↦ (i, ap holds (update_self s.threads i r.1) ∙ e)
        | inr (idle, before) ↦
            let (j, e) = owned before in
            let apart : j ≢ i = λ z. true_ne (sym e ∙ ap (λ k. holds (s.threads k)) z ∙ idle) in
            (j, ap holds (update-ne s.threads i r.1 j apart) ∙ e)
      ]

  Reachable-IsOwned :
      (m₀ : Mem) → m₀ h ≡ settled → (s : Machine) → Reachable start h tasks m₀ s → IsOwned s
  Reachable-IsOwned m₀ ready s initial ne = absurd (ne ready)
  Reachable-IsOwned m₀ ready s (next {s = r} i path) ne =
      advance-IsOwned r i (Reachable-IsExclusive start h tasks placed m₀ r path)
        (Reachable-IsOwned m₀ ready r path) ne

  from_settled :
      (s : Machine) (i : ℕ)
      → s.mem h ≡ settled
      → (schedule : List ℕ) × ((follow start h tasks schedule s).threads i ≡ returned)
  from_settled s i e =
      let (n, leads) = settled-returns start h (tasks i) s.mem (s.threads i) (placed i) e in
      let (schedule, held) = Leads-IsAlone start h tasks i s leads in (schedule, held.own)

  -- Let every thread change one of the 64 slots, with links, if any, that lie outside the header,
  -- and let the run be settled at first. Wherever the threads have come to, every one of them can
  -- still get to the return of its call: there is a schedule that takes it there.
  pub Reachable-returned :
      (m₀ : Mem)
      → m₀ h ≡ settled
      → (s : Machine) → Reachable start h tasks m₀ s
      → (i : ℕ) → (schedule : List ℕ) × ((follow start h tasks schedule s).threads i ≡ returned)
  Reachable-returned m₀ ready s path i = elim (Bool-cases (s.mem h == settled)) [
    | inl e ↦ from_settled s i (==→eq _ _ e)
    | inr e ↦
        let (j, owns) = Reachable-IsOwned m₀ ready s path (λ z. ground (arith, e, z)) in
        let (n, leads, free) = holder-returns start h (tasks j) s.mem (s.threads j) owns in
        let (xs, held) = Leads-IsAlone start h tasks j s leads in
        let (ys, done) =
          from_settled (follow start h tasks xs s) i (ap (λ m. m h) held.mem ∙ free) in
        (xs ++ ys, ap (λ r. r.threads i) (follow-append start h tasks xs ys s) ∙ done)
  ]
