-- ===== src/Locks/Owners.antt =====
-- Who owns the mutexes of src/arena.c, src/chunk.c and src/nvm_malloc.c, by what the threads hold.
use nvm_malloc.Base.{
  true_ne, ℕ, ◌+◌, ◌<◌, ◌≡◌, inl, inr, refl, sym, subst, ◌∙◌, ap, arith, true, false, List, [], ◌∷◌,
  ==→eq, ==_refl, Bool-cases, update, update-cases,
}
use nvm_malloc.Locks.{
  Mutex, run_state, bin_mtx, arena_mtx, huge_mtx, space_mtx, same, Machine, give,
}
use nvm_malloc.Locks.Discipline.{rank, has, IsBelow, IsDescending, IsDisciplined}

pub same-eq : (m k : Mutex) → same m k ≡ true → m ≡ k
same-eq (run_state h) (run_state k) e = ap run_state (==→eq h k e)
same-eq (bin_mtx a i) (bin_mtx b j) e = ground (arith, e)
same-eq (arena_mtx a) (arena_mtx b) e = ap arena_mtx (==→eq a b e)
same-eq huge_mtx huge_mtx e = refl
same-eq space_mtx space_mtx e = refl
same-eq _ _ e = cc

pub same_refl : (m : Mutex) → same m m ≡ true
same_refl (run_state h) = ==_refl h
same_refl (bin_mtx a i) = rw (==_refl a, ==_refl i) refl
same_refl (arena_mtx a) = ==_refl a
same_refl huge_mtx = refl
same_refl space_mtx = refl

-- A mutex of the list has a rank below one that they all are below.
pub has-below :
    (held : List Mutex) (r : ℕ) (m : Mutex) → IsBelow held r → has held m ≡ true → rank m < r
has-below [] r m b e = cc
has-below (k ∷ held) r m b e = elim (Bool-cases (same m k)) [
  | inl f ↦ rw (same-eq m k f) b.0
  | inr f ↦ has-below held r m b.1 (rw f at e)
]

-- The last mutex that was locked is not also among the others.
last-once : (k : Mutex) (rest : List Mutex) → IsDescending (k ∷ rest) → has rest k ≡ false
last-once k rest d = elim (Bool-cases (has rest k)) [
  | inl e ↦ absurd (omega (arith, has-below rest (rank k) k d.0 e))
  | inr e ↦ e
]

module _ {A : Type 0} where
  -- Each thread with the mutexes that it holds, from which it follows the order.
  pub record IsOrderly (s : Machine A) (held : ℕ → List Mutex) : Type 0 where
    pub follows : (i : ℕ) → IsDisciplined (held i) (s.threads i) []
    pub descending : (i : ℕ) → IsDescending (held i)
    pub owned : (i : ℕ) (m : Mutex) → has (held i) m ≡ true → s.owner m ≡ i + 1
    pub is_owner : (i : ℕ) (m : Mutex) → s.owner m ≡ i + 1 → has (held i) m ≡ true

  module _ (i : ℕ) (m : Mutex) (s : Machine A) (held : ℕ → List Mutex)
      (good : IsOrderly s held) where
    -- What a lock of a free mutex does to who holds what.
    pub lock-owned :
        s.owner m ≡ 0
        → (j : ℕ) (k : Mutex) → has (update held i (m ∷ held i) j) k ≡ true
        → give s.owner m (i + 1) k ≡ j + 1
    lock-owned free j k =
        update-cases (λ l. has l k ≡ true → give s.owner m (i + 1) k ≡ j + 1) held i (m ∷ held i) j
          (λ e h. elim (Bool-cases (same k m)) [
            | inl f ↦ rw (f, e) refl
            | inr f ↦ rw (f, e) (good.owned i k (rw f at h))
          ])
          (λ ne h. elim (Bool-cases (same k m)) [
            | inl f ↦ absurd (omega (arith, free, good.owned j k h, ap s.owner (same-eq k m f)))
            | inr f ↦ rw f (good.owned j k h)
          ])

    pub lock-is_owner :
        s.owner m ≡ 0
        → (j : ℕ) (k : Mutex) → give s.owner m (i + 1) k ≡ j + 1
        → has (update held i (m ∷ held i) j) k ≡ true
    lock-is_owner free j k =
        update-cases (λ l. give s.owner m (i + 1) k ≡ j + 1 → has l k ≡ true) held i (m ∷ held i) j
          (λ e h. elim (Bool-cases (same k m)) [
            | inl f ↦ rw f refl
            | inr f ↦ rw f (good.is_owner i k (omega (arith, e, rw f at h)))
          ])
          (λ ne h. elim (Bool-cases (same k m)) [
            | inl f ↦ absurd (ne (omega (arith, rw f at h)))
            | inr f ↦ good.is_owner j k (rw f at h)
          ])

  module _ (i : ℕ) (m : Mutex) (rest : List Mutex) (s : Machine A) (held : ℕ → List Mutex)
      (good : IsOrderly s held) (last : held i ≡ m ∷ rest) where
    pub holder : s.owner m ≡ i + 1
    holder = good.owned i m (rw (last, same_refl m) refl)

    pub unlock-owned :
        (j : ℕ) (k : Mutex) → has (update held i rest j) k ≡ true → give s.owner m 0 k ≡ j + 1
    unlock-owned j k =
        update-cases (λ l. has l k ≡ true → give s.owner m 0 k ≡ j + 1) held i rest j
          (λ e h. elim (Bool-cases (same k m)) [
            | inl f ↦ absurd (
                true_ne (
                  sym h
                  ∙ ap (has rest) (same-eq k m f)
                  ∙ last-once m rest (subst IsDescending last (good.descending i))))
            | inr f ↦ rw (f, e) (good.owned i k (rw (last, f) h))
          ])
          (λ ne h. elim (Bool-cases (same k m)) [
            | inl f ↦
                absurd (ne (omega (arith, holder, good.owned j k h, ap s.owner (same-eq k m f))))
            | inr f ↦ rw f (good.owned j k h)
          ])

    pub unlock-is_owner :
        (j : ℕ) (k : Mutex) → give s.owner m 0 k ≡ j + 1 → has (update held i rest j) k ≡ true
    unlock-is_owner j k =
        update-cases (λ l. give s.owner m 0 k ≡ j + 1 → has l k ≡ true) held i rest j
          (λ e h. elim (Bool-cases (same k m)) [
            | inl f ↦ absurd (omega (arith, rw f at h))
            | inr f ↦ let g = good.is_owner i k (omega (arith, e, rw f at h)) in rw (last, f) at g
          ])
          (λ ne h. elim (Bool-cases (same k m)) [
            | inl f ↦ absurd (omega (arith, rw f at h))
            | inr f ↦ good.is_owner j k (rw f at h)
          ])
