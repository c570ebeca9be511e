-- ===== src/Arena/Pages/Freed.antt =====
-- A block of src/arena.c from `arena_create_block` to `arena_free`.
use nvm_malloc.Base.{
  if-true, ◌==◌, ◌/◌, ℕ, ◌+◌, ◌*◌, ◌%◌, ◌^◌, ◌≤◌, ◌<◌, ◌≡◌, ◌⊎◌, inl, inr, sym, ap, ap₂, subst,
  arith, true, Option, none, some, ltb, >>=-eq-some, some-pair, Bool-cases, u16, ltb→lt, ltb→le,
  ◌∙◌, update_self,
}
use mathlib.Core.Path.{subst₂}
use nvm_malloc.Types.{block_size, header_size, get_usage, usage_block}
use nvm_malloc.Types.Block
use nvm_malloc.Nvm.{exec}
use nvm_malloc.Header
use nvm_malloc.Header.{Kind}
use nvm_malloc.Links.{Links}
use nvm_malloc.Tree.{Member, IsOrdered, weight, tree_upper_bound}
use nvm_malloc.Tree.BestFit.{IsBestFit, tree_upper_bound-IsBestFit}
use nvm_malloc.State.{ArenaBlock, Arena, State, Env, pages_of, set_mem}
use nvm_malloc.Arena.{chunk_pages, take_found, take_block, put_block, cut_block, arena_create_block}
use nvm_malloc.Arena.Free.{arena_create_block_header, free_large, arena_free}
use nvm_malloc.Arena.Pages.{
  covers, tree_of, chunk_block, add_chunk-block, take_block-Taken, tree_of-put_block,
  place_block-cut_block, arena_create_block-covers,
}

-- The header at `h` has the block's size and its arena.
pub record IsOwned (h n arena : ℕ) (s : State) : Type 0 where
  pub size : s.mem (h + Block.n_units) ≡ n
  pub owner : s.mem (h + Block.arena_id) ≡ arena

module _ (env : Env) (arena n : ℕ) (s : State)
    (blocks : (b : ArenaBlock) → Member b (tree_of arena s) → IsOwned b.nvm_block b.n_pages arena s)
    (id : (s.arenas arena).id ≡ arena) (small : n < chunk_pages) where
  -- A taken block that is not larger than the request came from the tree.
  found-IsOwned :
      (found : Option ArenaBlock) (b : ArenaBlock) (t : State)
      → IsBestFit pages_of n (tree_of arena s) found
      → take_found env arena s found ≡ some (b, t)
      → ((t.arenas arena).id ≡ arena) × (b.n_pages ≤ n → IsOwned b.nvm_block b.n_pages arena t)
  unfolding take_found
  found-IsOwned none b t fit e =
      let (block, same) = add_chunk-block env arena s b t e in
      (
        ap (λ (k : ℕ → Arena). (k arena).id) same ∙ id,
        λ le. absurd (omega (arith, le, small, ap pages_of block)),
      )
  found-IsOwned (some x) b t fit e =
      let (block, last) = some-pair e in
      subst₂
        (λ (c : ArenaBlock) (u : State).
          ((u.arenas arena).id ≡ arena) × (c.n_pages ≤ n → IsOwned c.nvm_block c.n_pages arena u))
        block last
        (
          ap (λ (a : Arena). a.id) (update_self s.arenas arena _) ∙ id,
          λ le. let o = blocks x fit.0 in record { size = o.size; owner = o.owner },
        )

  cut_block-IsOwned :
      (b : ArenaBlock) (t : State)
      → n ≤ b.n_pages
      → (t.arenas arena).id ≡ arena
      → (b.n_pages ≤ n → IsOwned b.nvm_block b.n_pages arena t)
      → IsOwned (cut_block env arena n b t).0 n arena (cut_block env arena n b t).1
  unfolding cut_block put_block
  cut_block-IsOwned b t enough own whole = elim (Bool-cases (ltb n b.n_pages)) [
    | inl lt ↦ rw lt (record {
      size = ground (arith, ltb→lt _ _ lt);
      owner = ground (arith, ltb→lt _ _ lt, own);
    })
    | inr ge ↦ rw ge (
        subst (λ k. IsOwned b.nvm_block k arena t) (omega (arith, enough, ltb→le _ _ ge))
          (whole (ltb→le _ _ ge)))
  ]

  create_block-IsOwned :
      (h : ℕ) (t : State)
      → IsOrdered pages_of (tree_of arena s)
      → arena_create_block env arena n s ≡ some (h, t)
      → IsOwned h n arena t
  unfolding arena_create_block take_block
  create_block-IsOwned h t order e =
      let ((b, u), first, e₁) = >>=-eq-some (take_block env arena n s) _ e in
      let fit = tree_upper_bound-IsBestFit pages_of n (tree_of arena s) order in
      let taken = take_block-Taken env arena n s b u (omega arith) order first in
      let (own, whole) =
        found-IsOwned (tree_upper_bound pages_of n (tree_of arena s)) b u fit first in
      subst (λ (r : ℕ × State). IsOwned r.0 n arena r.1)
        (place_block-cut_block env arena n b u (h, t) e₁)
        (cut_block-IsOwned b u taken.enough own whole)

-- The block in use, as a later state has it: its header is as the reservation left it.
pub record IsInUse (h : ℕ) (t u : State) : Type 0 where
  pub aligned : h % block_size ≡ 0
  pub usage : get_usage (u.mem h) ≡ usage_block
  pub size : u.mem (h + Block.n_units) ≡ t.mem (h + Block.n_units)
  pub owner : u.mem (h + Block.arena_id) ≡ t.mem (h + Block.arena_id)
  pub arenas : u.arenas ≡ t.arenas

module _ (env : Env) where
  -- A free of the block puts it back into its arena's tree.
  free-returns :
      (h n arena : ℕ) (l : Links) (t u : State)
      → n < 2 ^ 16
      → IsOwned h n arena t
      → IsInUse h t u
      → (v : State) × (arena_free env (h + header_size) l u ≡ some v)
        × (tree_of arena v
            ≡ env.blocks.tree_add
                (record { nvm_block = h; n_pages = n; arena = arena })
                (tree_of arena t))
  unfolding arena_free free_large arena_create_block_header
  free-returns h n arena l t u small owned used =
      let page : (h + header_size) / block_size * block_size ≡ h = omega (arith, used.aligned) in
      let block : (get_usage (u.mem ((h + header_size) / block_size * block_size)) == usage_block)
          ≡ true =
        ground (arith, ap (λ k. get_usage (u.mem k)) page ∙ used.usage) in
      let block_made : ArenaBlock = record { nvm_block = h; n_pages = n; arena = arena } in
      let cleared : State = set_mem (exec (Header.free u.nvm_start Kind.block h l) u.mem) u in
      let header : arena_create_block_header h u
          ≡ record { nvm_block = h; n_pages = n; arena = arena } =
        ap₂ (λ k a. record { nvm_block = h; n_pages = k; arena = a })
          (ap (λ k. u16 k) (used.size ∙ owned.size) ∙ omega (arith, small))
          (used.owner ∙ owned.owner) in
      (
        free_large env h l u,
        if-true _ _ _ block ∙ ap (λ k. some (free_large env k l u)) page,
        subst
            (λ (b : ArenaBlock).
              tree_of arena (put_block env b.arena b cleared)
              ≡ env.blocks.tree_add block_made (tree_of arena t))
            (sym header)
            (tree_of-put_block env arena block_made cleared
              ∙ ap (λ (k : ℕ → Arena). env.blocks.tree_add block_made (k arena).free_pageruns)
                  used.arenas),
      )

  -- Let the arena's tree be in order, and let the header of every block in it have the block's size
  -- and its arena. A request for fewer than the pages of a chunk that succeeds, followed by the free
  -- of the block it returns while the block is in use and its header as it was, succeeds, and the
  -- tree then covers every byte as often as before the request, or also the new chunk if one was
  -- added.
  pub arena_create_block-arena_free :
      (arena n h : ℕ) (l : Links) (s t u : State)
      → n < chunk_pages
      → IsOrdered pages_of (tree_of arena s)
      → ((b : ArenaBlock) → Member b (tree_of arena s) → IsOwned b.nvm_block b.n_pages arena s)
      → (s.arenas arena).id ≡ arena
      → arena_create_block env arena n s ≡ some (h, t)
      → IsInUse h t u
      → (v : State) × (arena_free env (h + header_size) l u ≡ some v)
        × (((x : ℕ) → weight (covers x) (tree_of arena v) ≡ weight (covers x) (tree_of arena s))
            ⊎ ((x : ℕ)
                → weight (covers x) (tree_of arena v)
                  ≡ covers x (chunk_block arena s) + weight (covers x) (tree_of arena s)))
  arena_create_block-arena_free arena n h l s t u small order blocks id e used =
      let owned = create_block-IsOwned env arena n s blocks id small h t order e in
      let (v, freed, tree) = free-returns h n arena l t u (omega (arith, small)) owned used in
      let back = λ (x : ℕ). ap (weight (covers x)) tree ∙ env.blocks.weight-add _ _ _ in
      (
        v,
        freed,
        elim (arena_create_block-covers env arena n s h t (omega (arith, small)) order e) [
          | inl same ↦ inl (λ x. back x ∙ same x)
          | inr more ↦ inr (λ x. back x ∙ more x)
        ],
      )
