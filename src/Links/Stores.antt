-- ===== src/Links/Stores.antt =====
-- What the link statements of src/nvm_malloc.c and src/arena.c store, each event by itself.
use nvm_malloc.Base.{
  ℕ, ◌+◌, ◌<◌, ◌≤◌, ◌≡◌, ◌≢◌, refl, ap, inl, inr, arith, Bool-cases, ne→==, ◌∷◌, ◌++◌, [], All,
  All-append, ◌==◌, List,
}
use nvm_malloc.Nvm.{Event, store, fence, flush}
use nvm_malloc.Links.{Links, record_links, write_links, commit_links}

module _ (P : Event → Type 0) (at_fence : P fence) (at_flush : (a : ℕ) → P (flush a)) (start : ℕ)
    (l : Links) where
  record_links-All :
      (on : ℕ)
      → ((a v : ℕ) → on ≤ a → a < on + 32 → P (store a v))
      → All P (record_links start on l)
  unfolding record_links
  record_links-All on p = elim (Bool-cases (l.link2 == 0)) [
    | inl e ↦
        rw e (p on _ (omega arith) (omega arith), (p (on + 8) _ (omega arith) (omega arith), tt))
    | inr e ↦ rw e (
      p on _ (omega arith) (omega arith),
      (
        p (on + 8) _ (omega arith) (omega arith),
        (
          p (on + 16) _ (omega arith) (omega arith),
          (p (on + 24) _ (omega arith) (omega arith), tt),
        ),
      ),
    )
  ]

  write_links-All :
      ((v : ℕ) → P (store l.link1 v))
      → (l.link2 ≢ 0 → (v : ℕ) → P (store l.link2 v))
      → All P (write_links start l)
  unfolding write_links
  write_links-All p q = elim (Bool-cases (l.link2 == 0)) [
    | inl e ↦ rw e (p _, (at_fence, (at_flush _, (at_fence, tt))))
    | inr e ↦ rw e (
      p _,
      (
        at_fence,
        (
          at_flush _,
          (at_fence, (q (λ z. ground arith) _, (at_fence, (at_flush _, (at_fence, tt))))),
        ),
      ),
    )
  ]

  -- A predicate of the stores to the record, of that to the state byte and of those through the
  -- links is one of every event.
  pub commit_links-All :
      (h on st : ℕ)
      → ((a v : ℕ) → on ≤ a → a < on + 32 → P (store a v))
      → P (store h st)
      → (l.link1 ≢ 0 → (v : ℕ) → P (store l.link1 v))
      → (l.link1 ≢ 0 → l.link2 ≢ 0 → (v : ℕ) → P (store l.link2 v))
      → All P (commit_links start h on st l)
  unfolding commit_links
  commit_links-All h on st in_record at_state at1 at2 = elim (Bool-cases (l.link1 == 0)) [
    | inl e ↦ rw e tt
    | inr e ↦
        let ne : l.link1 ≢ 0 = λ z. ground arith in
        rw e (
          All-append P (record_links start on l)
            ((fence ∷ store h st ∷ fence ∷ []) ++ write_links start l)
            (record_links-All on in_record)
            (at_fence, (at_state, (at_fence, write_links-All (at1 ne) (at2 ne)))))
  ]

append-split : (xs ys zs ws : List Event) → (xs ++ (ys ++ zs)) ++ ws ≡ (xs ++ ys) ++ (zs ++ ws)
append-split [] [] zs ws = refl
append-split [] (y ∷ ys) zs ws = ap (λ r. y ∷ r) (append-split [] ys zs ws)
append-split (x ∷ xs) ys zs ws = ap (λ r. x ∷ r) (append-split xs ys zs ws)

-- The events up to the store of the committed state, and the rest.
pub commit_links-split :
    (start h on st : ℕ) (l : Links) (ws : List Event)
    → l.link1 ≢ 0
    → commit_links start h on st l ++ ws
      ≡ (record_links start on l ++ (fence ∷ store h st ∷ []))
        ++ ((fence ∷ write_links start l) ++ ws)
unfolding commit_links
commit_links-split start h on st l ws ne = rw (ne→== l.link1 0 ne) (
    append-split (record_links start on l) (fence ∷ store h st ∷ []) (fence ∷ write_links start l)
      ws)
