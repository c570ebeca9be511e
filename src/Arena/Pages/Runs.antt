-- ===== src/Arena/Pages/Runs.antt =====
-- The page that `arena_create_run` of src/arena.c takes for a run of slots.
use nvm_malloc.Base.{
  ℕ, ◌+◌, ◌-◌, ◌*◌, ◌≤◌, ◌≡◌, ◌⊎◌, inl, inr, refl, ap, ap₂, ◌∙◌, arith, true, false, some, ltb,
  ◌==◌, >>=-eq-some, some-pair, update_self, Bool-cases, ltb→lt, ltb→le,
}
use mathlib.Core.Path.{subst₂}
use nvm_malloc.Types.{block_size}
use nvm_malloc.Tree.{IsOrdered, weight}
use nvm_malloc.State.{Arena, ArenaBlock, ArenaRun, State, Env, pages_of}
use nvm_malloc.Arena.{take_block, put_block, place_run, arena_create_run}
use nvm_malloc.Arena.Pages.{
  covers, tree_of, chunk_block, covers-split, covers-whole, take_block-Taken,
}

-- The page of a run.
abbrev pub page_of : (arena run : ℕ) → State → ArenaBlock
page_of arena run s = record { nvm_block = (s.runs run).nvm_run; n_pages = 1; arena = arena }

module _ (env : Env) where
  -- A block of several pages gives its last page, and the rest goes back into the tree.
  place_run-last :
      (arena bin n_bytes : ℕ) (b : ArenaBlock) (s : State)
      → ltb 1 b.n_pages ≡ true
      → let (run, t) = place_run env arena bin n_bytes b s in
        (page_of arena run t ≡ record {
          nvm_block = b.nvm_block + (b.n_pages - 1) * block_size;
          n_pages = 1;
          arena = arena;
        })
        × (tree_of arena t
            ≡ env.blocks.tree_add (record b { n_pages = b.n_pages - 1 }) (tree_of arena s))
  unfolding place_run put_block
  place_run-last arena bin n_bytes b s lt = rw lt (
    ap (λ (r : ArenaRun). page r.nvm_run) (update_self s.runs s.heap_top _),
    ap (λ (a : Arena). a.free_pageruns)
        (update_self s.arenas arena (record (s.arenas arena) {
          free_pageruns =
              env.blocks.tree_add (record b { n_pages = b.n_pages - 1 }) (tree_of arena s);
        })),
  )
    where
      page : ℕ → ArenaBlock
      page h = record { nvm_block = h; n_pages = 1; arena = arena }

  -- A block of one page is the run's page.
  place_run-whole :
      (arena bin n_bytes : ℕ) (b : ArenaBlock) (s : State)
      → ltb 1 b.n_pages ≡ false
      → let (run, t) = place_run env arena bin n_bytes b s in
        (page_of arena run t ≡ record { nvm_block = b.nvm_block; n_pages = 1; arena = arena })
        × (tree_of arena t ≡ tree_of arena s)
  unfolding place_run
  place_run-whole arena bin n_bytes b s ge =
      rw ge (ap (λ (r : ArenaRun). page r.nvm_run) (update_self s.runs s.heap_top _), refl)
    where
      page : ℕ → ArenaBlock
      page h = record { nvm_block = h; n_pages = 1; arena = arena }

  place_run-covers :
      (arena bin n_bytes : ℕ) (b : ArenaBlock) (s : State) (x : ℕ)
      → 1 ≤ b.n_pages
      → covers x (
            page_of arena
              (place_run env arena bin n_bytes b s).0
              (place_run env arena bin n_bytes b s).1)
          + weight (covers x) (tree_of arena (place_run env arena bin n_bytes b s).1)
        ≡ covers x b + weight (covers x) (tree_of arena s)
  place_run-covers arena bin n_bytes b s x enough = elim (Bool-cases (ltb 1 b.n_pages)) [
    | inl lt ↦
        let (page, tree) = place_run-last arena bin n_bytes b s lt in
        ap₂ (λ p t. covers x p + weight (covers x) t) page tree
        ∙ omega (
          arith,
          env.blocks.weight-add (covers x) (record b { n_pages = b.n_pages - 1 }) (tree_of arena s),
          covers-split x b.nvm_block b.n_pages 1 arena b.arena (ltb→lt _ _ lt),
        )
    | inr ge ↦
        let (page, tree) = place_run-whole arena bin n_bytes b s ge in
        ap₂ (λ p t. covers x p + weight (covers x) t) page tree
        ∙ ap (λ v. v + weight (covers x) (tree_of arena s))
            (covers-whole x b 1 arena (omega (arith, ltb→le _ _ ge)))
  ]

  -- The page of the run `r` and the tree of `t` share out the tree of `s`, with a new chunk or not.
  abbrev pub Split : (arena : ℕ) → State → (r : ℕ) → State → Type 0
  Split arena s r t =
      ((x : ℕ)
        → covers x (page_of arena r t) + weight (covers x) (tree_of arena t)
          ≡ weight (covers x) (tree_of arena s))
      ⊎ ((x : ℕ)
          → covers x (page_of arena r t) + weight (covers x) (tree_of arena t)
            ≡ covers x (chunk_block arena s) + weight (covers x) (tree_of arena s))

  -- Let the arena's tree be in order. A new run gets a page of its own: every byte that the tree
  -- held is afterwards in the run's page or in the tree, as often as before, and no other byte is,
  -- but those of a new chunk if one was added.
  pub arena_create_run-covers :
      (arena bin n_bytes : ℕ) (s : State) (run : ℕ) (t : State)
      → IsOrdered pages_of (tree_of arena s)
      → arena_create_run env arena bin n_bytes s ≡ some (run, t)
      → Split arena s run t
  unfolding arena_create_run
  arena_create_run-covers arena bin n_bytes s run t o e = elim (Bool-cases (n_bytes == 0)) [
    | inl zero_size ↦ cc (rw (zero_size, arena_create_run) at e)
    | inr some_size ↦
        let ((b, u), first, e₁) =
          >>=-eq-some (take_block env arena 1 s) _ (rw (some_size, arena_create_run) at e) in
        let taken = take_block-Taken env arena 1 s b u (omega arith) o first in
        let (at, last) = some-pair e₁ in finish b u at last taken.enough taken.balance
  ]
    where
      finish :
          (b : ArenaBlock) (u : State)
          → (place_run env arena bin n_bytes b u).0 ≡ run
          → (place_run env arena bin n_bytes b u).1 ≡ t
          → 1 ≤ b.n_pages
          → ((w : ArenaBlock → ℕ) → w b + weight w (tree_of arena u) ≡ weight w (tree_of arena s))
            ⊎ ((w : ArenaBlock → ℕ)
                → w b + weight w (tree_of arena u)
                  ≡ w (chunk_block arena s) + weight w (tree_of arena s))
          → Split arena s run t
      finish b u p q enough (inl balance) =
          subst₂ (Split arena s) p q
            (inl (λ x. place_run-covers arena bin n_bytes b u x enough ∙ balance (covers x)))
      finish b u p q enough (inr balance) =
          subst₂ (Split arena s) p q
            (inr (λ x. place_run-covers arena bin n_bytes b u x enough ∙ balance (covers x)))
