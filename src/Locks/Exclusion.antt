-- ===== src/Locks/Exclusion.antt =====
-- Threads that keep to the order of the mutexes: src/arena.c, src/chunk.c and src/nvm_malloc.c.
use nvm_malloc.Base.{
  true_ne, ℕ, ◌+◌, ◌≡◌, ◌≢◌, inl, inr, refl, sym, subst, ◌∙◌, ap, arith, Bool, true, false,
  Option-cases, List, [], ◌∷◌, ◌==◌, ==→eq, if◌then◌else◌, Bool-cases, update, update-cases,
}
use nvm_malloc.State.{State}
use nvm_malloc.Locks.{
  Mutex, run_state, bin_mtx, arena_mtx, huge_mtx, space_mtx, Program, done, lock, unlock, access,
  Machine, execute, advance, Reachable, initial, next,
}
use nvm_malloc.Locks.Discipline.{has, IsDescending, IsKept, IsDisciplined}
use nvm_malloc.Locks.Owners.{IsOrderly, lock-owned, lock-is_owner, unlock-owned, unlock-is_owner}

module _ {A : Type 0} where
  -- Two maps that are changed at one key.
  updates-cases :
      (P : List Mutex → Program A → Type 0) (f : ℕ → List Mutex) (g : ℕ → Program A) (k : ℕ)
      (v : List Mutex) (w : Program A) (j : ℕ)
      → (j ≡ k → P v w)
      → (j ≢ k → P (f j) (g j))
      → P (update f k v j) (update g k w j)
  updates-cases P f g k v w j p q = elim (Bool-cases (j == k)) [
    | inl e ↦ rw e (p (==→eq j k e))
    | inr e ↦ rw e (q (λ z. ground arith))
  ]

  pub either {κ} :
      (P : Machine A → Type κ) (t : Bool) (x y : Machine A) → P x → P y → P (if t then x else y)
  either P true x y p q = p
  either P false x y p q = q

  -- A step leaves the threads orderly.
  execute-IsOrderly :
      (i : ℕ) (p : Program A) (s : Machine A) (held : ℕ → List Mutex)
      → IsOrderly s held
      → IsDisciplined (held i) p []
      → (after : ℕ → List Mutex) × IsOrderly (execute i p s) after
  unfolding execute
  execute-IsOrderly i (done a) s held good d = (held, good)
  execute-IsOrderly i (lock m p) s held good d = elim (Bool-cases (s.owner m == 0)) [
    | inl e ↦ rw e (
      update held i (m ∷ held i),
      record {
        follows = λ j.
            updates-cases (λ l q. IsDisciplined l q []) held s.threads i (m ∷ held i) p j (λ _. d.1)
              (λ _. good.follows j);
        descending = λ j.
            update-cases IsDescending held i (m ∷ held i) j (λ _. (d.0, good.descending i))
              (λ _. good.descending j);
        owned = lock-owned i m s held good (==→eq _ _ e);
        is_owner = lock-is_owner i m s held good (==→eq _ _ e);
      },
    )
    | inr e ↦ rw e (held, good)
  ]
  execute-IsOrderly i (unlock m p) s held good (rest, last, d) = (
    update held i rest,
    record {
      follows = λ j.
          updates-cases (λ l q. IsDisciplined l q []) held s.threads i rest p j (λ _. d)
            (λ _. good.follows j);
      descending = λ j.
          update-cases IsDescending held i rest j
            (λ _. (subst IsDescending last (good.descending i)).1) (λ _. good.descending j);
      owned = unlock-owned i m rest s held good last;
      is_owner = unlock-is_owner i m rest s held good last;
    },
  )
  execute-IsOrderly i (access f k) s held good d = elim (Option-cases (f s.state)) [
    | inl e ↦ rw e (
      held,
      record {
        follows = good.follows;
        descending = good.descending;
        owned = good.owned;
        is_owner = good.is_owner;
      },
    )
    | inr ((b, t), e) ↦ rw e (
      held,
      record {
        follows = λ j.
            update-cases (λ q. IsDisciplined (held j) q []) s.threads i (k b) j (λ z. rw z (d.1 b))
              (λ _. good.follows j);
        descending = good.descending;
        owned = good.owned;
        is_owner = good.is_owner;
      },
    )
  ]

  pub advance-IsOrderly :
      (i : ℕ) (s : Machine A) (held : ℕ → List Mutex)
      → IsOrderly s held
      → (after : ℕ → List Mutex) × IsOrderly (advance i s) after
  unfolding advance
  advance-IsOrderly i s held good =
      either (λ t. (after : ℕ → List Mutex) × IsOrderly t after) s.exited s
        (execute i (s.threads i) s) (held, good)
        (execute-IsOrderly i (s.threads i) s held good (good.follows i))

IsKept-refl : (m : Mutex) (s : State) → IsKept m s s
IsKept-refl (run_state h) s = tt
IsKept-refl (bin_mtx a i) s = refl
IsKept-refl (arena_mtx a) s = refl
IsKept-refl huge_mtx s = refl
IsKept-refl space_mtx s = refl

execute-IsKept :
    {A : Type 0} (i : ℕ) (p : Program A) (s : Machine A) (m : Mutex) (held : List Mutex)
    → IsDisciplined held p []
    → has held m ≡ false
    → IsKept m s.state (execute i p s).state
unfolding execute
execute-IsKept i (done a) s m held d e = IsKept-refl m s.state
execute-IsKept i (lock k p) s m held d e =
    either (λ t. IsKept m s.state t.state) (s.owner k == 0) _ s (IsKept-refl m s.state)
      (IsKept-refl m s.state)
execute-IsKept i (unlock k p) s m held d e = IsKept-refl m s.state
execute-IsKept i (access f k) s m held d e = elim (Option-cases (f s.state)) [
  | inl z ↦ rw (z, execute) (IsKept-refl m s.state)
  | inr ((b, t), z) ↦ rw (z, execute) (d.0 s.state t b z m e)
]

module _ {A : Type 0} (programs : ℕ → Program A)
    (disciplined : (i : ℕ) → IsDisciplined [] (programs i) []) (s₀ : State) where
  pub Reachable-IsOrderly :
      (s : Machine A) → Reachable programs s₀ s → (held : ℕ → List Mutex) × IsOrderly s held
  Reachable-IsOrderly s initial = (
    λ _. [],
    record {
      follows = disciplined;
      descending = λ i. tt;
      owned = λ i m e. cc;
      is_owner = λ i m e. absurd (omega (arith, e));
    },
  )
  Reachable-IsOrderly s (next {s = r} i path) =
      let (held, good) = Reachable-IsOrderly r path in advance-IsOrderly i r held good

  pub Reachable-IsKept :
      (s : Machine A)
      → Reachable programs s₀ s
      → (i : ℕ) (m : Mutex) → s.owner m ≢ i + 1
      → IsKept m s.state (advance i s).state
  unfolding advance
  Reachable-IsKept s path i m ne =
      let (held, good) = Reachable-IsOrderly s path in
      either (λ t. IsKept m s.state t.state) s.exited s (execute i (s.threads i) s)
        (IsKept-refl m s.state)
        (execute-IsKept i (s.threads i) s m (held i) (good.follows i)
          (elim (Bool-cases (has (held i) m)) [
            | inl e ↦ absurd (ne (good.owned i m e))
            | inr e ↦ e
          ]))

  -- A thread that has returned owns no mutex.
  pub Reachable-released :
      (s : Machine A)
      → Reachable programs s₀ s
      → (i : ℕ) (a : A) → s.threads i ≡ done a
      → (m : Mutex) → s.owner m ≢ i + 1
  Reachable-released s path i a e m o =
      let (held, good) = Reachable-IsOrderly s path in
      true_ne (
        sym (good.is_owner i m o)
        ∙ ap (λ l. has l m) (subst (λ p. IsDisciplined (held i) p []) e (good.follows i)))
