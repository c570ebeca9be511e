-- ===== src/Examples/Trees.antt =====
-- A tree for ulib's, that keeps its entries in order along its right spine.
use nvm_malloc.Base.{
  ℕ, ◌+◌, ◌≤◌, ◌≡◌, ◌⊎◌, inl, inr, refl, ap, ◌∙◌, arith, Bool, true, false, ◌&&◌, List, [], ◌∷◌,
  ◌++◌, leb, ◌==◌, if◌then◌else◌, Bool-cases,
}
use nvm_malloc.Tree.{Tree, leaf, node, Member, weight, IsOrdered, TreeLib}
use nvm_malloc.State.{ArenaBlock, Huge, pages_of, chunks_of}

module _ {A : Type 0} where
  abbrev flatten : Tree A → List A
  flatten leaf = []
  flatten (node l y r) = flatten l ++ (y ∷ flatten r)

  abbrev spine : List A → Tree A
  spine [] = leaf
  spine (x ∷ xs) = node leaf x (spine xs)

  abbrev sum : (A → ℕ) → List A → ℕ
  sum w [] = 0
  sum w (x ∷ xs) = w x + sum w xs

  sum-append : (w : A → ℕ) (xs ys : List A) → sum w (xs ++ ys) ≡ sum w xs + sum w ys
  sum-append w [] ys = omega arith
  sum-append w (x ∷ xs) ys = omega (arith, sum-append w xs ys)

  pub sum-flatten : (w : A → ℕ) (t : Tree A) → sum w (flatten t) ≡ weight w t
  sum-flatten w leaf = refl
  sum-flatten w (node l y r) =
      omega (arith, sum-append w (flatten l) (y ∷ flatten r), sum-flatten w l, sum-flatten w r)

  pub weight-spine : (w : A → ℕ) (xs : List A) → weight w (spine xs) ≡ sum w xs
  weight-spine w [] = refl
  weight-spine w (x ∷ xs) = omega (arith, weight-spine w xs)

  abbrev Within : A → List A → Type 0
  Within x [] = ⊥
  Within x (y ∷ ys) = (x ≡ y) ⊎ Within x ys

  Within-left : (x : A) (xs ys : List A) → Within x xs → Within x (xs ++ ys)
  Within-left x [] ys i = absurd i
  Within-left x (z ∷ xs) ys (inl e) = inl e
  Within-left x (z ∷ xs) ys (inr i) = inr (Within-left x xs ys i)

  Within-right : (x : A) (xs ys : List A) → Within x ys → Within x (xs ++ ys)
  Within-right x [] ys i = i
  Within-right x (z ∷ xs) ys i = inr (Within-right x xs ys i)

  pub Within-flatten : (x : A) (t : Tree A) → Member x t → Within x (flatten t)
  Within-flatten x leaf i = absurd i
  Within-flatten x (node l y r) (inl i) = Within-left x (flatten l) _ (Within-flatten x l i)
  Within-flatten x (node l y r) (inr (inl e)) = Within-right x (flatten l) _ (inl e)
  Within-flatten x (node l y r) (inr (inr i)) =
      Within-right x (flatten l) _ (inr (Within-flatten x r i))

module _ {A : Type 0} (key : A → ℕ) where
  abbrev insert : A → List A → List A
  insert x [] = x ∷ []
  insert x (y ∷ ys) =
      let further = insert x ys in if leb (key x) (key y) then x ∷ y ∷ ys else y ∷ further

  abbrev sort : List A → List A
  sort [] = []
  sort (x ∷ xs) = insert x (sort xs)

  sum-insert : (w : A → ℕ) (x : A) (xs : List A) → sum w (insert x xs) ≡ w x + sum w xs
  sum-insert w x [] = refl
  sum-insert w x (y ∷ ys) = elim (Bool-cases (leb (key x) (key y))) [
    | inl le ↦ rw le
    | inr gt ↦ rw gt (omega (arith, sum-insert w x ys))
  ]

  pub sum-sort : (w : A → ℕ) (xs : List A) → sum w (sort xs) ≡ sum w xs
  sum-sort w [] = refl
  sum-sort w (x ∷ xs) = omega (arith, sum-insert w x (sort xs), sum-sort w xs)

  abbrev Sorted : List A → Type 0
  Sorted xs = IsOrdered key (spine xs)

  Member-insert :
      (z x : A) (xs : List A) → Member z (spine (insert x xs)) → (z ≡ x) ⊎ Member z (spine xs)
  Member-insert z x [] (inl k) = absurd k
  Member-insert z x [] (inr (inl e)) = inl e
  Member-insert z x [] (inr (inr k)) = absurd k
  Member-insert z x (y ∷ ys) i = elim (Bool-cases (leb (key x) (key y))) [
    | inl le ↦ at_front (rw le at i)
    | inr gt ↦ further (Member-insert z x ys) (rw gt at i)
  ]
    where
      at_front : Member z (spine (x ∷ y ∷ ys)) → (z ≡ x) ⊎ Member z (spine (y ∷ ys))
      at_front (inl k) = absurd k
      at_front (inr (inl e)) = inl e
      at_front (inr (inr j)) = inr j

      further :
          (Member z (spine (insert x ys)) → (z ≡ x) ⊎ Member z (spine ys))
          → Member z (spine (y ∷ insert x ys))
          → (z ≡ x) ⊎ Member z (spine (y ∷ ys))
      further rest (inl k) = absurd k
      further rest (inr (inl e)) = inr (inr (inl e))
      further rest (inr (inr j)) = elim (rest j) [ inl e ↦ inl e | inr k ↦ inr (inr (inr k)) ]

  insert-Sorted : (x : A) (xs : List A) → Sorted xs → Sorted (insert x xs)
  insert-Sorted x [] o = (tt, tt, λ z i. absurd i, λ z i. absurd i)
  insert-Sorted x (y ∷ ys) o = elim (Bool-cases (leb (key x) (key y))) [
    | inl le ↦ rw le (tt, o, λ z i. absurd i, below_all (ground arith))
    | inr gt ↦ rw gt (
      tt,
      insert-Sorted x ys o.1,
      λ z i. absurd i,
      λ z i. above z (Member-insert z x ys i) (ground arith),
    )
  ]
    where
      below_all : key x ≤ key y → (z : A) → Member z (spine (y ∷ ys)) → key x ≤ key z
      below_all le z (inl i) = absurd i
      below_all le z (inr (inl e)) = omega (arith, ap key e)
      below_all le z (inr (inr i)) = omega (arith, o.3 z i)

      above : (z : A) → (z ≡ x) ⊎ Member z (spine ys) → key y ≤ key x → key y ≤ key z
      above z (inl e) le = omega (arith, ap key e)
      above z (inr i) le = o.3 z i

  pub sort-Sorted : (xs : List A) → Sorted (sort xs)
  sort-Sorted [] = tt
  sort-Sorted (x ∷ xs) = insert-Sorted x (sort xs) (sort-Sorted xs)

  module _ (same : A → A → Bool) (same-eq : (x y : A) → same x y ≡ true → x ≡ y)
      (same_refl : (x : A) → same x x ≡ true) where
    abbrev delete : A → List A → List A
    delete x [] = []
    delete x (y ∷ ys) = let further = delete x ys in if same x y then ys else y ∷ further

    pub sum-delete :
        (w : A → ℕ) (x : A) (xs : List A) → Within x xs → w x + sum w (delete x xs) ≡ sum w xs
    sum-delete w x [] i = absurd i
    sum-delete w x (y ∷ ys) i = elim (Bool-cases (same x y)) [
      | inl e ↦ rw e (omega (arith, ap w (same-eq x y e)))
      | inr ne ↦ rw ne (omega (arith, sum-delete w x ys (later i ne)))
    ]
      where
        later : Within x (y ∷ ys) → same x y ≡ false → Within x ys
        later (inl e) ne = cc (same_refl x, ne, ap (same x) e)
        later (inr j) ne = j

    unfoldable pub sorted_tree : TreeLib key
    sorted_tree = record {
      tree_add = λ x t. spine (sort (x ∷ flatten t));
      tree_del = λ x t. spine (sort (delete x (flatten t)));
      weight-add = λ w x t.
          weight-spine w (sort (x ∷ flatten t))
          ∙ sum-sort w (x ∷ flatten t)
          ∙ ap (λ n. w x + n) (sum-flatten w t);
      weight-del = λ w x t i.
          ap (λ n. w x + n)
            (weight-spine w (sort (delete x (flatten t))) ∙ sum-sort w (delete x (flatten t)))
          ∙ sum-delete w x (flatten t) (Within-flatten x t i)
          ∙ sum-flatten w t;
      add-IsOrdered = λ x t o. sort-Sorted (x ∷ flatten t);
      del-IsOrdered = λ x t o. sort-Sorted (delete x (flatten t));
    }

abbrev same_block : ArenaBlock → ArenaBlock → Bool
same_block a b = (a.nvm_block == b.nvm_block) && ((a.n_pages == b.n_pages) && (a.arena == b.arena))

abbrev same_huge : Huge → Huge → Bool
same_huge a b = (a.nvm_chunk == b.nvm_chunk) && (a.n_chunks == b.n_chunks)

block-eq :
    (p n a q m c : ℕ)
    → p ≡ q
    → n ≡ m
    → a ≡ c
    → ◌≡◌ {A = ArenaBlock}
        (record { nvm_block = p; n_pages = n; arena = a })
        (record { nvm_block = q; n_pages = m; arena = c })
block-eq p n a q m c e₁ e₂ e₃ = rw (e₁, e₂, e₃)

pub same_block-eq : (a b : ArenaBlock) → same_block a b ≡ true → a ≡ b
same_block-eq a b e =
    block-eq a.nvm_block a.n_pages a.arena b.nvm_block b.n_pages b.arena (ground arith)
      (ground arith) (ground arith)

pub same_block_refl : (a : ArenaBlock) → same_block a a ≡ true
same_block_refl a = ground arith

huge-eq :
    (p n q m : ℕ)
    → p ≡ q
    → n ≡ m
    → ◌≡◌ {A = Huge}
        (record { nvm_chunk = p; n_chunks = n })
        (record { nvm_chunk = q; n_chunks = m })
huge-eq p n q m e₁ e₂ = rw (e₁, e₂)

pub same_huge-eq : (a b : Huge) → same_huge a b ≡ true → a ≡ b
same_huge-eq a b e =
    huge-eq a.nvm_chunk a.n_chunks b.nvm_chunk b.n_chunks (ground arith) (ground arith)

pub same_huge_refl : (a : Huge) → same_huge a a ≡ true
same_huge_refl a = ground arith

unfoldable pub block_tree : TreeLib pages_of
unfolding sorted_tree
block_tree = sorted_tree pages_of same_block same_block-eq same_block_refl

unfoldable pub huge_tree : TreeLib chunks_of
unfolding sorted_tree
huge_tree = sorted_tree chunks_of same_huge same_huge-eq same_huge_refl
