-- ===== src/Locks/Progress.antt =====
-- That threads which keep to the order of the mutexes do not block each other for good:
-- src/arena.c, src/chunk.c and src/nvm_malloc.c.
use nvm_malloc.Base.{
  ℕ, ◌≡◌, ◌⊎◌, inl, inr, refl, sym, subst, ◌∙◌, ap, arith, true, Option-cases, List, [], ◌∷◌, ◌++◌,
  ◌==◌, ==→eq, Bool-cases, update_self,
}
use nvm_malloc.State.{State}
use nvm_malloc.Locks.{
  Mutex, Program, done, lock, unlock, access, Machine, execute, advance, Reachable,
}
use nvm_malloc.Locks.Discipline.{IsDisciplined}
use nvm_malloc.Locks.Exclusion.{advance-IsOrderly, Reachable-IsOrderly}
use nvm_malloc.Locks.Owners.{IsOrderly}
use nvm_malloc.Locks.Waiting.{owned_before, follow, follow-append, follow-IsOrderly}
use nvm_malloc.Locks.Freeing.{advances, locks, frees}

module _ {A : Type 0} where
  abbrev IsReturning : ℕ → Machine A → Type 1
  IsReturning i s =
      (is : List ℕ) × (((follow is s).exited ≡ true)
        ⊎ ((a : A) × ((follow is s).threads i ≡ done a)))

  afterwards : (i : ℕ) (is : List ℕ) (s : Machine A) → IsReturning i (follow is s) → IsReturning i s
  afterwards i is s (js, end) = (
    is ++ js,
    subst (λ t. (t.exited ≡ true) ⊎ ((a : A) × (t.threads i ≡ done a)))
        (sym (follow-append is js s)) end,
  )

  -- A thread that is at a free mutex takes it.
  enters :
      (i : ℕ) (n : Mutex) (q : Program A) (s : Machine A) (held : ℕ → List Mutex)
      → IsOrderly s held
      → s.threads i ≡ lock n q
      → s.owner n ≡ 0
      → ((t : Machine A) (after : ℕ → List Mutex)
          → IsOrderly t after
          → t.threads i ≡ q
          → IsReturning i t)
      → IsReturning i s
  unfolding follow
  enters i n q s held good e free go = elim (Bool-cases s.exited) [
    | inl ended ↦ ([], inl ended)
    | inr live ↦
        let (after, good') = advance-IsOrderly i s held good in
        afterwards i (i ∷ []) s (
          go (advance i s) after good'
            (ap (λ t. t.threads i) (locks i n q s live e free) ∙ update_self s.threads i q))
  ]

  returns :
      (p : Program A) (s : Machine A) (held : ℕ → List Mutex) (i : ℕ)
      → IsOrderly s held
      → s.threads i ≡ p
      → IsReturning i s
  unfolding execute follow
  returns (done a) s held i good e = ([], inr (a, e))
  returns (unlock n q) s held i good e = elim (Bool-cases s.exited) [
    | inl ended ↦ ([], inl ended)
    | inr live ↦
        let (after, good') = advance-IsOrderly i s held good in
        afterwards i (i ∷ []) s (
          returns q (advance i s) after i good'
            (ap (λ t. t.threads i) (advances i (unlock n q) s live e) ∙ update_self s.threads i q))
  ]
  returns (access f c) s held i good e = elim (Bool-cases s.exited) [
    | inl ended ↦ ([], inl ended)
    | inr live ↦
        let now = advances i (access f c) s live e in
        let (after, good') = advance-IsOrderly i s held good in
        elim (Option-cases (f s.state)) [
          | inl z ↦ (i ∷ [], inl (ap (λ t. t.exited) now ∙ rw (z, execute) refl))
          | inr ((b, t), z) ↦ afterwards i (i ∷ []) s (
              returns (c b) (advance i s) after i good'
                (ap (λ t. t.threads i) now ∙ rw (z, execute) (update_self s.threads i (c b))))
        ]
  ]
  returns (lock n q) s held i good e = elim (Bool-cases (s.owner n == 0)) [
    | inl free ↦
        enters i n q s held good e (==→eq _ _ free)
          (λ t after good' e'. returns q t after i good' e')
    | inr taken ↦
        let (j, o) = owned_before (s.owner n) taken in
        let (is, end, keep) = frees 4 (s.threads j) s held j n good o refl (omega arith) in
        let (after, good') = follow-IsOrderly is s held good in
        afterwards i is s (elim end [
          | inl ended ↦ ([], inl ended)
          | inr free ↦
              enters i n q (follow is s) after good' (keep.waiting i n q (omega arith) e) free
                (λ t after' good₁ e'. returns q t after' i good₁ e')
        ])
  ]

module _ {A : Type 0} (programs : ℕ → Program A)
    (disciplined : (i : ℕ) → IsDisciplined [] (programs i) []) (s₀ : State) where
  pub Reachable-returns :
      (s : Machine A)
      → Reachable programs s₀ s
      → (i : ℕ)
      → (is : List ℕ) × (((follow is s).exited ≡ true)
          ⊎ ((a : A) × ((follow is s).threads i ≡ done a)))
  Reachable-returns s path i =
      let (held, good) = Reachable-IsOrderly programs disciplined s₀ s path in
      returns (s.threads i) s held i good refl
