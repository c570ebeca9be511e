-- ===== src/Arena/Pages.antt =====
-- The pages that `arena_create_block` of src/arena.c takes from an arena's tree and puts back.
pub mod Runs
pub mod Freed
use nvm_malloc.Base.{
  passes, ◌==◌, ℕ, ◌+◌, ◌-◌, ◌*◌, ◌≤◌, ◌<◌, ◌≡◌, ◌⊎◌, inl, inr, sym, ap, subst, ◌∙◌, arith, ◌&&◌,
  Option, none, some, ltb, leb, if◌then◌else◌, >>=-eq-some, some-pair, Bool-cases, u64, ltb→lt,
  ltb→le, update_self,
}
use mathlib.Core.Path.{subst₂}
use nvm_malloc.Types.{block_size, chunk_size}
use nvm_malloc.Types.Block
use nvm_malloc.Tree.{Tree, IsOrdered, weight, tree_upper_bound}
use nvm_malloc.Tree.BestFit.{IsBestFit, tree_upper_bound-IsBestFit}
use nvm_malloc.Chunk.{activate_more_chunks}
use nvm_malloc.State.{ArenaBlock, Arena, State, Env, pages_of, set_arena}
use nvm_malloc.Arena.{
  chunk_pages, arena_add_chunk, take_found, take_block, put_block, cut_block, place_block,
  arena_create_block,
}

-- 1 for a byte of the block, 0 for any other
abbrev pub covers : ℕ → ArenaBlock → ℕ
covers x b = if leb b.nvm_block x && ltb x (b.nvm_block + b.n_pages * block_size) then 1 else 0

abbrev pub tree_of : ℕ → State → Tree ArenaBlock
tree_of arena s = (s.arenas arena).free_pageruns

-- The block that a new chunk brings.
abbrev pub chunk_block : ℕ → State → ArenaBlock
chunk_block arena s = record {
  nvm_block = u64 (s.space.region_start + u64 (s.space.next_chunk * chunk_size)) + block_size;
  n_pages = chunk_pages;
  arena = arena;
}

tree_of-set :
    (arena : ℕ) (a : Arena) (s : State) → tree_of arena (set_arena arena a s) ≡ a.free_pageruns
tree_of-set arena a s = ap (λ (b : Arena). b.free_pageruns) (update_self s.arenas arena a)

covers-split :
    (x base k n a₁ a₂ : ℕ)
    → n < k
    → covers x (record { nvm_block = base + (k - n) * block_size; n_pages = n; arena = a₁ })
        + covers x (record { nvm_block = base; n_pages = k - n; arena = a₂ })
      ≡ covers x (record { nvm_block = base; n_pages = k; arena = a₂ })
covers-split x base k n a₁ a₂ lt = ground arith

covers-whole :
    (x : ℕ) (b : ArenaBlock) (n a : ℕ)
    → n ≡ b.n_pages
    → covers x (record { nvm_block = b.nvm_block; n_pages = n; arena = a }) ≡ covers x b
covers-whole x b n a e = rw e

module _ (env : Env) where
  add_chunk-block :
      (arena : ℕ) (s : State) (b : ArenaBlock) (t : State)
      → arena_add_chunk env arena s ≡ some (b, t)
      → (b ≡ chunk_block arena s) × (t.arenas ≡ s.arenas)
  unfolding arena_add_chunk activate_more_chunks
  add_chunk-block arena s b t e = ground arith

  -- What the taken block and the tree hold together: what the tree held, or that and a new chunk.
  record Taken (arena n : ℕ) (s : State) (b : ArenaBlock) (t : State) : Type 0 where
    enough : n ≤ b.n_pages
    ordered : IsOrdered pages_of (tree_of arena t)
    balance :
        ((w : ArenaBlock → ℕ) → w b + weight w (tree_of arena t) ≡ weight w (tree_of arena s))
        ⊎ ((w : ArenaBlock → ℕ)
            → w b + weight w (tree_of arena t)
              ≡ w (chunk_block arena s) + weight w (tree_of arena s))

  found-Taken :
      (arena n : ℕ) (s : State) (found : Option ArenaBlock) (b : ArenaBlock) (t : State)
      → n ≤ chunk_pages
      → IsOrdered pages_of (tree_of arena s)
      → IsBestFit pages_of n (tree_of arena s) found
      → take_found env arena s found ≡ some (b, t)
      → Taken arena n s b t
  unfolding take_found
  found-Taken arena n s none b t small o fit e =
      let (block, same) = add_chunk-block arena s b t e in
      record {
        enough = omega (arith, ap pages_of block);
        ordered = rw same o;
        balance = inr (λ w. rw (block, same));
      }
  found-Taken arena n s (some x) b t small o fit e =
      let (block, last) = some-pair e in
      subst₂ (Taken arena n s) block last (record {
        enough = fit.1;
        ordered =
            subst (IsOrdered pages_of) (sym kept) (env.blocks.del-IsOrdered x (tree_of arena s) o);
        balance = inl (λ w.
            ap (λ k. w x + weight w k) kept ∙ env.blocks.weight-del w x (tree_of arena s) fit.0);
      })
    where
      after : Arena
      after = record (s.arenas arena) { free_pageruns = env.blocks.tree_del x (tree_of arena s) }

      kept : tree_of arena (set_arena arena after s) ≡ env.blocks.tree_del x (tree_of arena s)
      kept = tree_of-set arena after s

  take_block-Taken :
      (arena n : ℕ) (s : State) (b : ArenaBlock) (t : State)
      → n ≤ chunk_pages
      → IsOrdered pages_of (tree_of arena s)
      → take_block env arena n s ≡ some (b, t)
      → Taken arena n s b t
  unfolding take_block
  take_block-Taken arena n s b t small o e =
      found-Taken arena n s (tree_upper_bound pages_of n (tree_of arena s)) b t small o
        (tree_upper_bound-IsBestFit pages_of n (tree_of arena s) o) e

  tree_of-put_block :
      (arena : ℕ) (b : ArenaBlock) (s : State)
      → tree_of arena (put_block env arena b s) ≡ env.blocks.tree_add b (tree_of arena s)
  unfolding put_block
  tree_of-put_block arena b s = tree_of-set arena _ s

  -- The allocated block and the tree hold together what the taken block and the tree held.
  cut_block-covers :
      (arena n : ℕ) (b : ArenaBlock) (s : State) (x : ℕ)
      → n ≤ b.n_pages
      → covers x (record { nvm_block = (cut_block env arena n b s).0; n_pages = n; arena = arena })
          + weight (covers x) (tree_of arena (cut_block env arena n b s).1)
        ≡ covers x b + weight (covers x) (tree_of arena s)
  unfolding cut_block
  cut_block-covers arena n b s x enough = elim (Bool-cases (ltb n b.n_pages)) [
    | inl lt ↦
        rw (lt, tree_of-put_block, env.blocks.weight-add)
          (omega (arith, covers-split x b.nvm_block b.n_pages n arena b.arena (ltb→lt _ _ lt)))
    | inr ge ↦ rw ge (
        ap (λ v. v + weight (covers x) (tree_of arena s))
          (covers-whole x b n arena (omega (arith, ltb→le _ _ ge))))
  ]

  -- A block that is handed out has passed the assertion.
  pub place_block-cut_block :
      (arena n : ℕ) (b : ArenaBlock) (s : State) (r : ℕ × State)
      → place_block env arena n b s ≡ some r
      → cut_block env arena n b s ≡ r
  unfolding place_block
  place_block-cut_block arena n b s r e =
      passes
        (ltb n b.n_pages && ((cut_block env arena n b s).1.mem (b.nvm_block + Block.n_units) == 0))
        (cut_block env arena n b s) r e

  -- Let the arena's tree be in order. A request for at most the pages of a chunk that succeeds
  -- returns a block of that many pages: every byte that the tree held is afterwards in that block
  -- or in the tree, as often as before, and no other byte is, but those of a new chunk if one was
  -- added.
  pub arena_create_block-covers :
      (arena n : ℕ) (s : State) (h : ℕ) (t : State)
      → n ≤ chunk_pages
      → IsOrdered pages_of (tree_of arena s)
      → arena_create_block env arena n s ≡ some (h, t)
      → let block : ArenaBlock = record { nvm_block = h; n_pages = n; arena = arena } in
        ((x : ℕ)
          → covers x block + weight (covers x) (tree_of arena t)
            ≡ weight (covers x) (tree_of arena s))
        ⊎ ((x : ℕ)
            → covers x block + weight (covers x) (tree_of arena t)
              ≡ covers x (chunk_block arena s) + weight (covers x) (tree_of arena s))
  unfolding arena_create_block
  arena_create_block-covers arena n s h t small o e =
      let ((b, u), first, e₁) = >>=-eq-some (take_block env arena n s) _ e in
      let taken = take_block-Taken arena n s b u small o first in
      let placed = place_block-cut_block arena n b u (h, t) e₁ in
      let block = ap (λ (r : ℕ × State). r.0) placed in
      let last = ap (λ (r : ℕ × State). r.1) placed in
      finish b u block last taken.enough taken.balance
    where
      finish :
          (b : ArenaBlock) (u : State)
          → (cut_block env arena n b u).0 ≡ h
          → (cut_block env arena n b u).1 ≡ t
          → n ≤ b.n_pages
          → ((w : ArenaBlock → ℕ) → w b + weight w (tree_of arena u) ≡ weight w (tree_of arena s))
            ⊎ ((w : ArenaBlock → ℕ)
                → w b + weight w (tree_of arena u)
                  ≡ w (chunk_block arena s) + weight w (tree_of arena s))
          → let block : ArenaBlock = record { nvm_block = h; n_pages = n; arena = arena } in
            ((x : ℕ)
              → covers x block + weight (covers x) (tree_of arena t)
                ≡ weight (covers x) (tree_of arena s))
            ⊎ ((x : ℕ)
                → covers x block + weight (covers x) (tree_of arena t)
                  ≡ covers x (chunk_block arena s) + weight (covers x) (tree_of arena s))
      finish b u p q enough (inl balance) =
          inl (λ x. rw (← p, ← q) (cut_block-covers arena n b u x enough ∙ balance (covers x)))
      finish b u p q enough (inr balance) =
          inr (λ x. rw (← p, ← q) (cut_block-covers arena n b u x enough ∙ balance (covers x)))
