-- ===== src/Tree.antt =====
-- The trees of ulib that keep free blocks and free chunks (`struct tree_root`), and the search that
-- src/arena.c and src/nvm_malloc.c run over them.
--
-- ulib's `tree_add` and `tree_del` are a parameter, `TreeLib`: what they leave is described by the
-- sum of any weight over the entries, which fixes the entries as a multiset, and by the order.
pub mod BestFit
use nvm_malloc.Base.{ℕ, ◌+◌, ◌≤◌, ◌≡◌, ◌⊎◌, Bool, Option, none, some, ltb, ◌==◌, if◌then◌else◌}

pub data Tree (A : Type 0) : Type 0 where
  leaf : Tree A
  node : Tree A → A → Tree A → Tree A

module _ {A : Type 0} where
  abbrev pub Member : A → Tree A → Type 0
  Member x leaf = ⊥
  Member x (node l y r) = Member x l ⊎ (x ≡ y) ⊎ Member x r

  abbrev pub weight : (A → ℕ) → Tree A → ℕ
  weight w leaf = 0
  weight w (node l y r) = weight w l + w y + weight w r

  -- No entry on the left of another is larger, and none on the right smaller.
  abbrev pub IsOrdered : (A → ℕ) → Tree A → Type 0
  IsOrdered key leaf = Unit
  IsOrdered key (node l y r) =
      IsOrdered key l
      × IsOrdered key r
      × ((x : A) → Member x l → key x ≤ key y)
      × ((x : A) → Member x r → key y ≤ key x)

  -- The loop of `tree_upper_bound`: it goes down from `root`, and `last_larger` is the last entry
  -- that it has seen above `req`.
  upper_bound_from : (A → ℕ) → ℕ → Option A → Tree A → Option A
  upper_bound_from key req last_larger leaf = last_larger
  upper_bound_from key req last_larger (node left entry right) =
      let in_right = upper_bound_from key req last_larger right in
      let in_left = upper_bound_from key req (some entry) left in
      if key entry == req then some entry else if ltb (key entry) req then in_right else in_left

  unfoldable pub tree_upper_bound : (A → ℕ) → ℕ → Tree A → Option A
  unfolding upper_bound_from
  tree_upper_bound key req root = upper_bound_from key req none root

-- ulib, as far as the allocator relies on it.
pub record TreeLib {A : Type 0} (key : A → ℕ) : Type 0 where
  pub tree_add : A → Tree A → Tree A
  pub tree_del : A → Tree A → Tree A
  pub weight-add : (w : A → ℕ) (x : A) (t : Tree A) → weight w (tree_add x t) ≡ w x + weight w t
  pub weight-del :
      (w : A → ℕ) (x : A) (t : Tree A) → Member x t → w x + weight w (tree_del x t) ≡ weight w t
  pub add-IsOrdered : (x : A) (t : Tree A) → IsOrdered key t → IsOrdered key (tree_add x t)
  pub del-IsOrdered : (x : A) (t : Tree A) → IsOrdered key t → IsOrdered key (tree_del x t)
