-- ===== src/Locks/Freeing.antt =====
-- The owner of a mutex of src/arena.c, src/chunk.c or src/nvm_malloc.c, and the way to its unlock.
use nvm_malloc.Base.{
  true_ne, ℕ, zero, suc, ◌+◌, ◌<◌, ◌≤◌, ◌≡◌, ◌⊎◌, inl, inr, refl, sym, subst, ◌∙◌, ap, arith, true,
  false, Option-cases, List, [], ◌∷◌, ◌++◌, ◌==◌, ==→eq, if◌then◌else◌, Bool-cases, update,
  update_self,
}
use nvm_malloc.Locks.{
  Mutex, same, Program, done, lock, unlock, access, Machine, give, execute, advance,
}
use nvm_malloc.Locks.Discipline.{rank, has, IsDisciplined}
use nvm_malloc.Locks.Exclusion.{advance-IsOrderly}
use nvm_malloc.Locks.Owners.{has-below, IsOrderly}
use nvm_malloc.Locks.Waiting.{
  give-lower, owned_before, rank-bound, follow, follow-append, follow-IsOrderly, IsHeld,
  IsHeld-refl, IsHeld-trans, IsHeld-weaken, holder-IsHeld,
}

module _ {A : Type 0} where
  -- There is a schedule after which the mutex is free, or the process has ended.
  abbrev pub IsFreed : Mutex → Machine A → Type 1
  IsFreed m s =
      (is : List ℕ) × (((follow is s).exited ≡ true) ⊎ ((follow is s).owner m ≡ 0))
      × IsHeld (rank m) s (follow is s)

  later :
      (m : Mutex) (is : List ℕ) (s : Machine A)
      → IsHeld (rank m) s (follow is s)
      → IsFreed m (follow is s)
      → IsFreed m s
  later m is s g (js, end, h) = (
    is ++ js,
    subst (λ t. (t.exited ≡ true) ⊎ (t.owner m ≡ 0)) (sym (follow-append is js s)) end,
    subst (IsHeld (rank m) s) (sym (follow-append is js s)) (IsHeld-trans (rank m) s _ _ g h),
  )

  pub advances :
      (j : ℕ) (p : Program A) (s : Machine A)
      → s.exited ≡ false
      → s.threads j ≡ p
      → advance j s ≡ execute j p s
  unfolding advance
  advances j p s live e =
      ap (λ t. if t then s else execute j (s.threads j) s) live ∙ ap (λ q. execute j q s) e

  -- A thread that has a free mutex before it locks it.
  pub locks :
      (j : ℕ) (n : Mutex) (p : Program A) (s : Machine A)
      → s.exited ≡ false
      → s.threads j ≡ lock n p
      → s.owner n ≡ 0
      → advance j s ≡ record s { owner = give s.owner n (j + 1); threads = update s.threads j p }
  unfolding execute
  locks j n p s live e free =
      advances j (lock n p) s live e
      ∙ ap
          (λ t.
            if t
            then record s { owner = give s.owner n (j + 1); threads = update s.threads j p }
            else s)
          (ap (λ v. v == 0) free)

  unless_ended : (m : Mutex) (s : Machine A) → (s.exited ≡ false → IsFreed m s) → IsFreed m s
  unfolding follow
  unless_ended m s h = elim (Bool-cases s.exited) [
    | inl ended ↦ ([], inl ended, IsHeld-refl (rank m) s)
    | inr live ↦ h live
  ]

  -- The owner of a mutex takes a free one of a greater rank, and goes on.
  takes :
      (s : Machine A) (held : ℕ → List Mutex) (j : ℕ) (m n : Mutex) (q : Program A)
      → IsOrderly s held
      → s.owner m ≡ j + 1
      → s.threads j ≡ lock n q
      → s.owner n ≡ 0
      → rank m < rank n
      → ((t : Machine A) (after : ℕ → List Mutex)
          → IsOrderly t after
          → t.owner m ≡ j + 1
          → t.threads j ≡ q
          → IsFreed m t)
      → IsFreed m s
  unfolding follow
  takes s held j m n q good o e free lt go = unless_ended m s (λ live.
      let now = locks j n q s live e free in
      let (after, good') = advance-IsOrderly j s held good in
      later m (j ∷ []) s (holder-IsHeld s held j m good o) (
        go (advance j s) after good'
          (ap (λ t. t.owner m) now ∙ give-lower s.owner n m (j + 1) lt ∙ o)
          (ap (λ t. t.threads j) now ∙ update_self s.threads j q)))

  -- The owner of a mutex comes to its unlock, or the process ends.
  pub frees :
      (k : ℕ) (p : Program A) (s : Machine A) (held : ℕ → List Mutex) (j : ℕ) (m : Mutex)
      → IsOrderly s held
      → s.owner m ≡ j + 1
      → s.threads j ≡ p
      → 4 ≤ rank m + k
      → IsFreed m s
  unfolding execute follow
  frees k (done a) s held j m good o e le = absurd (
      true_ne (
        sym (good.is_owner j m o)
        ∙ ap (λ l. has l m) (subst (λ q. IsDisciplined (held j) q []) e (good.follows j))))
  frees k (unlock n q) s held j m good o e le = unless_ended m s (λ live.
      let now = advances j (unlock n q) s live e in
      let (after, good') = advance-IsOrderly j s held good in
      let keep = holder-IsHeld s held j m good o in
      elim (Bool-cases (same m n)) [
        | inl f ↦
            (j ∷ [], inr (ap (λ t. t.owner m) now ∙ ap (λ t. if t then 0 else s.owner m) f), keep)
        | inr f ↦ later m (j ∷ []) s keep (
            frees k q (advance j s) after j m good'
              (ap (λ t. t.owner m) now ∙ ap (λ t. if t then 0 else s.owner m) f ∙ o)
              (ap (λ t. t.threads j) now ∙ update_self s.threads j q) le)
      ])
  frees k (access f c) s held j m good o e le = unless_ended m s (λ live.
      let now = advances j (access f c) s live e in
      let (after, good') = advance-IsOrderly j s held good in
      let keep = holder-IsHeld s held j m good o in
      elim (Option-cases (f s.state)) [
        | inl z ↦ (j ∷ [], inl (ap (λ t. t.exited) now ∙ rw (z, execute) refl), keep)
        | inr ((b, t), z) ↦ later m (j ∷ []) s keep (
            frees k (c b) (advance j s) after j m good'
              (ap (λ t. t.owner m) now ∙ rw (z, execute) o)
              (ap (λ t. t.threads j) now ∙ rw (z, execute) (update_self s.threads j (c b))) le)
      ])
  frees zero (lock n q) s held j m good o e le = absurd (omega (arith, le, rank-bound m))
  frees (suc k) (lock n q) s held j m good o e le =
      let d : IsDisciplined (held j) (lock n q) [] =
        subst (λ p. IsDisciplined (held j) p []) e (good.follows j) in
      let lt : rank m < rank n = has-below (held j) (rank n) m d.0 (good.is_owner j m o) in
      elim (Bool-cases (s.owner n == 0)) [
        | inl free ↦
            takes s held j m n q good o e (==→eq _ _ free) lt
              (λ t after good' o' e'. frees (suc k) q t after j m good' o' e' le)
        | inr taken ↦
            let (i, o₁) = owned_before (s.owner n) taken in
            let (is, end, keep) =
              frees k (s.threads i) s held i n good o₁ refl (omega (arith, le, lt)) in
            let (after, good') = follow-IsOrderly is s held good in
            later m is s (IsHeld-weaken (rank m) (rank n) s _ (omega arith) keep) (elim end [
              | inl ended ↦ ([], inl ended, IsHeld-refl (rank m) _)
              | inr free ↦
                  takes (follow is s) after j m n q good' (keep.owners m lt ∙ o)
                    (keep.waiting j n q (omega arith) e) free lt
                    (λ t after' good₁ o' e'. frees (suc k) q t after' j m good₁ o' e' le)
            ])
      ]
