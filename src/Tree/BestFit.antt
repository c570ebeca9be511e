-- ===== src/Tree/BestFit.antt =====
-- `tree_upper_bound` of src/arena.c and src/nvm_malloc.c as a search for the best fit.
use nvm_malloc.Base.{
  ℕ, ◌≤◌, ◌<◌, ◌≡◌, ◌⊎◌, inl, inr, refl, arith, Option, none, some, ltb, ◌==◌, Bool-cases, ltb→lt,
  ==→eq, ◌≢◌, ap,
}
use nvm_malloc.Tree.{Tree, leaf, node, Member, IsOrdered, upper_bound_from, tree_upper_bound}

-- `found` is a smallest entry of `t` with at least `req`, or there is none such.
abbrev pub IsBestFit : {A : Type 0} → (A → ℕ) → ℕ → Tree A → Option A → Type 0
IsBestFit {A} key req t none = (x : A) → Member x t → key x < req
IsBestFit {A} key req t (some e) =
    Member e t × (req ≤ key e) × ((x : A) → Member x t → req ≤ key x → key e ≤ key x)

module _ {A : Type 0} (key : A → ℕ) (req : ℕ) where
  -- The same below a node whose entry `last` is above `req`, if it is given.
  abbrev FitsBelow : Tree A → Option A → Option A → Type 0
  FitsBelow t none found = IsBestFit key req t found
  FitsBelow t (some last) none = ⊥
  FitsBelow t (some last) (some e) =
      ((e ≡ last) × ((x : A) → Member x t → key x < req))
      ⊎ (Member e t × (req ≤ key e) × ((x : A) → Member x t → req ≤ key x → key e ≤ key x))

  module _ (l : Tree A) (y : A) (r : Tree A) (o : IsOrdered key (node l y r)) where
    here : key y ≡ req → IsBestFit key req (node l y r) (some y)
    here e = (inr (inl refl), omega arith, λ x i p. omega arith)

    here-below : (last : Option A) → key y ≡ req → FitsBelow (node l y r) last (some y)
    here-below none e = here e
    here-below (some z) e = inr (here e)

    -- Everything on the left of a too small entry is too small.
    small :
        key y < req
        → ((x : A) → Member x r → key x < req)
        → (x : A) → Member x (node l y r)
        → key x < req
    small lt rest x (inl i) = omega (arith, o.2 x i)
    small lt rest x (inr (inl e)) = rw e lt
    small lt rest x (inr (inr i)) = rest x i

    least_right :
        (e : A)
        → key y < req
        → ((x : A) → Member x r → req ≤ key x → key e ≤ key x)
        → (x : A) → Member x (node l y r)
        → req ≤ key x
        → key e ≤ key x
    least_right e lt rest x (inl i) p = absurd (omega (arith, o.2 x i))
    least_right e lt rest x (inr (inl q)) p = absurd (omega (arith, ap key q))
    least_right e lt rest x (inr (inr i)) p = rest x i p

    go_right :
        (last found : Option A)
        → key y < req
        → FitsBelow r last found
        → FitsBelow (node l y r) last found
    go_right none none lt f = small lt f
    go_right none (some e) lt f = (inr (inr f.0), f.1, least_right e lt f.2)
    go_right (some z) none lt f = f
    go_right (some z) (some e) lt (inl f) = inl (f.0, small lt f.1)
    go_right (some z) (some e) lt (inr f) = inr (inr (inr f.0), f.1, least_right e lt f.2)

    least_left :
        (e : A)
        → key e ≤ key y
        → ((x : A) → Member x l → req ≤ key x → key e ≤ key x)
        → (x : A) → Member x (node l y r)
        → req ≤ key x
        → key e ≤ key x
    least_left e le rest x (inl i) p = rest x i p
    least_left e le rest x (inr (inl q)) p = omega (arith, ap key q)
    least_left e le rest x (inr (inr i)) p = omega (arith, o.3 x i)

    go_left :
        (found : Option A)
        → req < key y
        → FitsBelow l (some y) found
        → IsBestFit key req (node l y r) found × (found ≢ none)
    go_left none lt f = absurd f
    go_left (some e) lt (inl f) = (
      (
        inr (inl f.0),
        omega (arith, ap key f.0),
        least_left e (omega (arith, ap key f.0)) (λ x i p. absurd (omega (arith, f.1 x i))),
      ),
      λ q. cc,
    )
    go_left (some e) lt (inr f) =
        ((inl f.0, f.1, least_left e (omega (arith, o.2 e f.0)) f.2), λ q. cc)

    fit-below :
        (last found : Option A)
        → IsBestFit key req (node l y r) found × (found ≢ none)
        → FitsBelow (node l y r) last found
    fit-below none found f = f.0
    fit-below (some z) none f = absurd (f.1 refl)
    fit-below (some z) (some e) f = inr f.0

  below :
      (t : Tree A) (last : Option A)
      → IsOrdered key t
      → FitsBelow t last (upper_bound_from key req last t)
  unfolding upper_bound_from
  below leaf none o = λ x i. absurd i
  below leaf (some last) o = inl (refl, λ x i. absurd i)
  below (node l y r) last o = elim (Bool-cases (key y == req)) [
    | inl e ↦ rw e (here-below l y r o last (==→eq _ _ e))
    | inr ne ↦ elim (Bool-cases (ltb (key y) req)) [
      | inl lt ↦
          rw (ne, lt)
            (go_right l y r o last (upper_bound_from key req last r) (ltb→lt _ _ lt)
              (below r last o.1))
      | inr ge ↦
          rw (ne, ge)
            (fit-below l y r o last (upper_bound_from key req (some y) l) (
              go_left l y r o (upper_bound_from key req (some y) l) (ground arith)
                (below l (some y) o.0)))
    ]
  ]

  -- In an ordered tree the search finds a smallest entry that is large enough, and it finds none
  -- only if every entry is too small.
  pub tree_upper_bound-IsBestFit :
      (t : Tree A) → IsOrdered key t → IsBestFit key req t (tree_upper_bound key req t)
  unfolding tree_upper_bound
  tree_upper_bound-IsBestFit t o = below t none o
