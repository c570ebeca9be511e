-- ===== src/Locks/Waiting.antt =====
-- What waits while a thread holds a mutex of src/arena.c, src/chunk.c or src/nvm_malloc.c.
use nvm_malloc.Base.{
  ℕ, zero, suc, ◌+◌, ◌<◌, ◌≤◌, ◌≡◌, ◌≢◌, inl, inr, refl, sym, subst, ◌∙◌, ap, arith, true, false,
  Option-cases, List, [], ◌∷◌, ◌++◌, ◌==◌, ==→eq, Bool-cases, update-ne,
}
use nvm_malloc.Locks.{
  Mutex, run_state, bin_mtx, arena_mtx, huge_mtx, space_mtx, same, Program, done, lock, unlock,
  access, Machine, give, execute, advance,
}
use nvm_malloc.Locks.Discipline.{rank, has, IsDescending, IsDisciplined}
use nvm_malloc.Locks.Exclusion.{either, advance-IsOrderly}
use nvm_malloc.Locks.Owners.{same-eq, has-below, IsOrderly}

pub give-lower :
    (owner : Mutex → ℕ) (m k : Mutex) (v : ℕ) → rank k < rank m → give owner m v k ≡ owner k
give-lower owner m k v lt = elim (Bool-cases (same k m)) [
  | inl e ↦ absurd (omega (arith, lt, ap rank (same-eq k m e)))
  | inr e ↦ rw e refl
]

pub owned_before : (x : ℕ) → (x == 0) ≡ false → (y : ℕ) × (x ≡ y + 1)
owned_before zero e = cc
owned_before (suc y) e = (y, omega arith)

pub rank-bound : (m : Mutex) → rank m < 4
rank-bound (run_state h) = omega arith
rank-bound (bin_mtx a i) = omega arith
rank-bound (arena_mtx a) = omega arith
rank-bound huge_mtx = omega arith
rank-bound space_mtx = omega arith

-- None of the mutexes has a greater rank than the last that was locked.
last-highest :
    (n : Mutex) (rest : List Mutex) (m : Mutex)
    → IsDescending (n ∷ rest)
    → has (n ∷ rest) m ≡ true
    → rank m < suc (rank n)
last-highest n rest m d h = elim (Bool-cases (same m n)) [
  | inl e ↦ omega (arith, ap rank (same-eq m n e))
  | inr e ↦ omega (arith, has-below rest (rank n) m d.0 (rw e at h))
]

module _ {A : Type 0} where
  -- The threads of a schedule step in turn.
  unfoldable pub follow : List ℕ → Machine A → Machine A
  follow [] s = s
  follow (i ∷ is) s = follow is (advance i s)

  pub follow-append :
      (is js : List ℕ) (s : Machine A) → follow (is ++ js) s ≡ follow js (follow is s)
  unfolding follow
  follow-append [] js s = refl
  follow-append (i ∷ is) js s = follow-append is js (advance i s)

  pub follow-IsOrderly :
      (is : List ℕ) (s : Machine A) (held : ℕ → List Mutex)
      → IsOrderly s held
      → (after : ℕ → List Mutex) × IsOrderly (follow is s) after
  unfolding follow
  follow-IsOrderly [] s held good = (held, good)
  follow-IsOrderly (i ∷ is) s held good =
      let (after, next) = advance-IsOrderly i s held good in
      follow-IsOrderly is (advance i s) after next

  execute-other :
      (i j : ℕ) (p : Program A) (s : Machine A) → i ≢ j → (execute j p s).threads i ≡ s.threads i
  unfolding execute
  execute-other i j (done a) s ne = refl
  execute-other i j (lock m p) s ne = elim (Bool-cases (s.owner m == 0)) [
    | inl e ↦ rw e (update-ne s.threads j p i ne)
    | inr e ↦ rw e refl
  ]
  execute-other i j (unlock m p) s ne = update-ne s.threads j p i ne
  execute-other i j (access f k) s ne = elim (Option-cases (f s.state)) [
    | inl e ↦ rw (e, execute) refl
    | inr ((b, t), e) ↦ rw (e, execute) (update-ne s.threads j (k b) i ne)
  ]

  -- Threads that wait for a mutex of rank `r` or less still wait for it, and the mutexes of a
  -- smaller rank have the same owners.
  pub record IsHeld (r : ℕ) (s t : Machine A) : Type 1 where
    pub waiting :
        (i : ℕ) (m : Mutex) (p : Program A)
        → rank m ≤ r
        → s.threads i ≡ lock m p
        → t.threads i ≡ lock m p
    pub owners : (m : Mutex) → rank m < r → t.owner m ≡ s.owner m

  pub IsHeld-refl : (r : ℕ) (s : Machine A) → IsHeld r s s
  IsHeld-refl r s = record { waiting = λ i m p le e. e; owners = λ m lt. refl }

  pub IsHeld-trans : (r : ℕ) (s t u : Machine A) → IsHeld r s t → IsHeld r t u → IsHeld r s u
  IsHeld-trans r s t u g h = record {
    waiting = λ i m p le e. h.waiting i m p le (g.waiting i m p le e);
    owners = λ m lt. h.owners m lt ∙ g.owners m lt;
  }

  pub IsHeld-weaken : (r q : ℕ) (s t : Machine A) → r ≤ q → IsHeld q s t → IsHeld r s t
  IsHeld-weaken r q s t le g = record {
    waiting = λ i m p small e. g.waiting i m p (omega arith) e;
    owners = λ m lt. g.owners m (omega arith);
  }

  -- A step of the thread that holds a mutex of rank `r` holds back nothing that waits below it.
  holder-owners :
      (j : ℕ) (p : Program A) (s : Machine A) (held : List Mutex) (m : Mutex)
      → IsDescending held
      → IsDisciplined held p []
      → has held m ≡ true
      → (k : Mutex) → rank k < rank m
      → (execute j p s).owner k ≡ s.owner k
  unfolding execute
  holder-owners j (done a) s held m desc d h k lt = refl
  holder-owners j (lock n p) s held m desc d h k lt = elim (Bool-cases (s.owner n == 0)) [
    | inl e ↦
        rw e (give-lower s.owner n k (j + 1) (omega (arith, lt, has-below held (rank n) m d.0 h)))
    | inr e ↦ rw e refl
  ]
  holder-owners j (unlock n p) s held m desc (rest, e, d) h k lt = give-lower s.owner n k 0 (
      omega (
        arith,
        lt,
        last-highest n rest m (subst IsDescending e desc) (ap (λ l. has l m) (sym e) ∙ h),
      ))
  holder-owners j (access f c) s held m desc d h k lt = elim (Option-cases (f s.state)) [
    | inl e ↦ rw (e, execute) refl
    | inr ((b, t), e) ↦ rw (e, execute) refl
  ]

  advance-other : (i j : ℕ) (s : Machine A) → i ≢ j → (advance j s).threads i ≡ s.threads i
  unfolding advance
  advance-other i j s ne =
      either (λ t. t.threads i ≡ s.threads i) s.exited s _ refl
        (execute-other i j (s.threads j) s ne)

  pub holder-IsHeld :
      (s : Machine A) (held : ℕ → List Mutex) (j : ℕ) (m : Mutex)
      → IsOrderly s held
      → s.owner m ≡ j + 1
      → IsHeld (rank m) s (advance j s)
  unfolding advance
  holder-IsHeld s held j m good o = record {
    waiting = λ i n p le e. elim (Bool-cases (i == j)) [
      | inl f ↦ absurd (
          omega (
            arith,
            le,
            has-below (held j) (rank n) m
                ((subst (λ q. IsDisciplined (held j) q []) (ap s.threads (sym (==→eq i j f)) ∙ e)
                  (good.follows j)).0)
                (good.is_owner j m o),
          ))
      | inr f ↦ advance-other i j s (λ z. ground (arith, f, z)) ∙ e
    ];
    owners = λ n lt.
        either (λ t. t.owner n ≡ s.owner n) s.exited s _ refl
          (holder-owners j (s.threads j) s (held j) m (good.descending j) (good.follows j)
            (good.is_owner j m o) n lt);
  }
