-- ===== src/Examples/Huge.antt =====
-- A huge region that is cut off a larger one, and freed.
use nvm_malloc.Base.{
  ℕ, ◌+◌, ◌-◌, ◌*◌, ◌^◌, ◌<◌, ◌≡◌, ◌⊎◌, inl, inr, refl, sym, subst, arith, some, ◌==◌,
  if◌then◌else◌,
}
use nvm_malloc.Types.{chunk_size, header_size}
use nvm_malloc.Types.Block
use nvm_malloc.Tree.{leaf, node, Member, tree_upper_bound, weight}
use nvm_malloc.Links.{no_links}
use nvm_malloc.State.{Huge, State}
use nvm_malloc.NvmMalloc.{nvm_reserve, nvm_free, reserve_chunks, split_huge, chunks_for}
use nvm_malloc.NvmMalloc.Chunks.{chunk_covers, region_at}
use nvm_malloc.NvmMalloc.Chunks.Freed.{IsRegion, nvm_reserve-nvm_free}
use nvm_malloc.NvmMalloc.Chunks.Short.{nvm_reserve-short}
use nvm_malloc.Examples.Heap.{from, env, state}
use nvm_malloc.Examples.Trees.{huge_tree, sorted_tree}

-- Five free chunks.
abbrev five : Huge
five = record { nvm_chunk = 2 ^ 32 + 4 * chunk_size; n_chunks = 5 }

abbrev with_five : State
with_five = record state {
  free_chunks = node leaf five leaf;
  mem = λ a. if a == 2 ^ 32 + 4 * chunk_size + Block.n_units then 5 else 0;
}

five-IsRegion : IsRegion five.nvm_chunk five.n_chunks with_five
five-IsRegion = record { index = 4; at = refl; within = omega arith; size = refl }

with_five-IsRegion :
    (b : Huge) → Member b (node leaf five leaf) → IsRegion b.nvm_chunk b.n_chunks with_five
with_five-IsRegion b (inl i) = absurd i
with_five-IsRegion b (inr (inl e)) =
    subst (λ (c : Huge). IsRegion c.nvm_chunk c.n_chunks with_five) (sym e) five-IsRegion
with_five-IsRegion b (inr (inr i)) = absurd i

abbrev reserved : ℕ × State
reserved = from (0, with_five) (nvm_reserve env 1 9000000 with_five)

nvm_reserve-nvm_free_example :
    (u : State) × (nvm_free env reserved.0 no_links reserved.1 ≡ some u)
    × (((x : ℕ)
          → weight (chunk_covers x) u.free_chunks ≡ weight (chunk_covers x) with_five.free_chunks)
        ⊎ ((x : ℕ)
            → weight (chunk_covers x) u.free_chunks
              ≡ chunk_covers x (region_at (reserved.0 - header_size) (chunks_for 9000000))
                + weight (chunk_covers x) with_five.free_chunks))
unfolding nvm_reserve reserve_chunks split_huge tree_upper_bound huge_tree sorted_tree
nvm_reserve-nvm_free_example =
    nvm_reserve-nvm_free env 1 9000000 no_links with_five reserved.0 reserved.1 (omega arith)
      (omega arith) (tt, tt, λ x i. absurd i, λ x i. absurd i) with_five-IsRegion refl (omega arith)
      refl

five-short : (x : Huge) → Member x (node leaf five leaf) → x.n_chunks < 2 ^ 32
five-short x (inl i) = absurd i
five-short x (inr (inl e)) = rw e (omega arith)
five-short x (inr (inr i)) = absurd i

nvm_reserve-short_example :
    (huge : Huge) × Member huge with_five.free_chunks
    × (huge.n_chunks * chunk_size < 2 ^ 54)
    × ((t : State) × (nvm_reserve env 1 (2 ^ 54) with_five
          ≡ some (huge.nvm_chunk + header_size, t)))
nvm_reserve-short_example =
    nvm_reserve-short env 1 (2 ^ 54) with_five five (omega arith) (omega arith)
      (tt, tt, λ x i. absurd i, λ x i. absurd i) five-short (inr (inl refl)) (omega arith)
