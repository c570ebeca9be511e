-- ===== src/Examples/Large.antt =====
-- A block of three pages that is cut off a larger one, activated and freed.
use nvm_malloc.Base.{
  ℕ, ◌+◌, ◌^◌, ◌≡◌, ◌⊎◌, inl, inr, refl, sym, subst, arith, some, ◌==◌, if◌then◌else◌,
}
use nvm_malloc.Types.{block_size, header_size}
use nvm_malloc.Types.Block
use nvm_malloc.Nvm.{exec}
use nvm_malloc.Header
use nvm_malloc.Header.{Kind}
use nvm_malloc.Tree.{leaf, node, Member, tree_upper_bound, weight}
use nvm_malloc.Links.{no_links, commit_links}
use nvm_malloc.State.{ArenaBlock, State, set_mem}
use nvm_malloc.Arena.{arena_create_block, take_block, take_found, cut_block, place_block, put_block}
use nvm_malloc.Arena.Free.{arena_free}
use nvm_malloc.Arena.Pages.{covers, tree_of, chunk_block}
use nvm_malloc.Arena.Pages.Freed.{IsOwned, arena_create_block-arena_free}
use nvm_malloc.Examples.Heap.{from, env, state, first_block}
use nvm_malloc.Examples.Trees.{block_tree, sorted_tree}

-- The heap, with the header of its one free block.
abbrev with_header : State
with_header = record state {
  mem = λ a. if a == 2 ^ 32 + block_size + Block.n_units then 1023 else 0;
}

with_header-IsOwned :
    (b : ArenaBlock)
    → Member b (node leaf first_block leaf)
    → IsOwned b.nvm_block b.n_pages 0 with_header
with_header-IsOwned b (inl i) = absurd i
with_header-IsOwned b (inr (inl e)) =
    subst (λ (c : ArenaBlock). IsOwned c.nvm_block c.n_pages 0 with_header) (sym e)
      (record { size = refl; owner = refl })
with_header-IsOwned b (inr (inr i)) = absurd i

abbrev made : ℕ × State
made = from (0, with_header) (arena_create_block env 0 3 with_header)

abbrev in_use : State
in_use = set_mem (exec (Header.activate (2 ^ 32) Kind.block made.0 no_links) made.1.mem) made.1

arena_create_block-arena_free_example :
    (v : State) × (arena_free env (made.0 + header_size) no_links in_use ≡ some v)
    × (((x : ℕ) → weight (covers x) (tree_of 0 v) ≡ weight (covers x) (tree_of 0 with_header))
        ⊎ ((x : ℕ)
            → weight (covers x) (tree_of 0 v)
              ≡ covers x (chunk_block 0 with_header) + weight (covers x) (tree_of 0 with_header)))
unfolding arena_create_block take_block take_found cut_block place_block put_block tree_upper_bound
    block_tree sorted_tree Header.activate commit_links
arena_create_block-arena_free_example =
    arena_create_block-arena_free env 0 3 made.0 no_links with_header made.1 in_use (omega arith)
      (tt, tt, λ x i. absurd i, λ x i. absurd i) with_header-IsOwned refl refl
      (record { aligned = refl; usage = refl; size = refl; owner = refl; arenas = refl })
