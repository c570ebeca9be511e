-- ===== src/NvmMalloc/Chunks/Short.antt =====
-- Requests of `nvm_reserve` of src/nvm_malloc.c for 2^54 bytes and more, whose number of chunks
-- does not fit into the parameter of `tree_upper_bound`.
use nvm_malloc.Base.{
  ℕ, ◌+◌, ◌*◌, ◌^◌, ◌≤◌, ◌<◌, ◌≡◌, refl, arith, false, Option, none, some, ltb, leb, u32,
}
use nvm_malloc.Types.{chunk_size, header_size, sclass_large_max}
use nvm_malloc.Tree.{Member, IsOrdered, tree_upper_bound}
use nvm_malloc.Tree.BestFit.{IsBestFit, tree_upper_bound-IsBestFit}
use nvm_malloc.State.{Huge, State, Env, chunks_of}
use nvm_malloc.NvmMalloc.{chunks_for, split_huge, reserve_chunks, nvm_reserve}

module _ (env : Env) where
  -- A found region with fewer chunks than the request is handed out whole.
  reserve_chunks-whole :
      (n : ℕ) (s : State) (found : Option Huge) (b : Huge)
      → IsBestFit chunks_of (u32 n) s.free_chunks found
      → Member b s.free_chunks
      → u32 n ≤ b.n_chunks
      → ((x : Huge) → Member x s.free_chunks → x.n_chunks < 2 ^ 32)
      → 2 ^ 32 ≤ n
      → (huge : Huge) × Member huge s.free_chunks
        × ((t : State) × (reserve_chunks env n s found ≡ some (huge.nvm_chunk, t)))
  unfolding reserve_chunks split_huge
  reserve_chunks-whole n s none b fit i enough sizes long = absurd (omega (arith, fit b i, enough))
  reserve_chunks-whole n s (some huge) b fit i enough sizes long =
      let whole : ltb n huge.n_chunks ≡ false = ground (arith, sizes huge fit.0, long) in
      (
        huge,
        fit.0,
        (record s { free_chunks = env.huges.tree_del huge s.free_chunks }, rw whole refl),
      )

  -- Let the tree of free regions be in order, with fewer than 2^32 chunks in each region. For a
  -- request of 2^54 bytes or more, and below 2^64 with a chunk and a header, let a free region have
  -- the chunks of the request modulo 2^32. Then the request succeeds, and what it returns is a
  -- whole free region that is smaller than the request.
  pub nvm_reserve-short :
      (tid n_bytes : ℕ) (s : State) (b : Huge)
      → 2 ^ 54 ≤ n_bytes
      → n_bytes + header_size + chunk_size < 2 ^ 64
      → IsOrdered chunks_of s.free_chunks
      → ((x : Huge) → Member x s.free_chunks → x.n_chunks < 2 ^ 32)
      → Member b s.free_chunks
      → u32 (chunks_for n_bytes) ≤ b.n_chunks
      → (huge : Huge) × Member huge s.free_chunks
        × (huge.n_chunks * chunk_size < n_bytes)
        × ((t : State) × (nvm_reserve env tid n_bytes s ≡ some (huge.nvm_chunk + header_size, t)))
  unfolding nvm_reserve
  nvm_reserve-short tid n_bytes s b long fits order sizes i enough =
      let beyond : leb n_bytes sclass_large_max ≡ false = ground (arith, long) in
      let (huge, member, (t, e)) =
        reserve_chunks-whole (chunks_for n_bytes) s
          (tree_upper_bound chunks_of (u32 (chunks_for n_bytes)) s.free_chunks) b
          (tree_upper_bound-IsBestFit chunks_of (u32 (chunks_for n_bytes)) s.free_chunks order) i
          enough sizes (omega (arith, long, fits)) in
      (huge, member, omega (arith, long, sizes huge member), (t, rw (beyond, e) refl))
