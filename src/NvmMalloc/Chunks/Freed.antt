-- ===== src/NvmMalloc/Chunks/Freed.antt =====
-- A huge region of src/nvm_malloc.c from `nvm_reserve` to `nvm_free`.
use nvm_malloc.Base.{
  if-true, ℕ, ◌+◌, ◌-◌, ◌*◌, ◌%◌, ◌^◌, ◌≤◌, ◌<◌, ◌≡◌, ◌⊎◌, inl, inr, refl, ap, subst, arith, true,
  Option, none, some, ltb, ◌==◌, >>=-eq-some, some-pair, Bool-cases, sub64, u32, ltb→lt, ltb→le,
  ◌∙◌,
}
use mathlib.Core.Path.{subst₂}
use nvm_malloc.Types.{chunk_size, header_size, sclass_large_max, abs_to_rel}
use nvm_malloc.Types.Block
use nvm_malloc.Tree.{Member, IsOrdered, weight, tree_upper_bound}
use nvm_malloc.Tree.BestFit.{IsBestFit}
use nvm_malloc.Chunk.{activate_more_chunks}
use nvm_malloc.Links.{Links}
use nvm_malloc.State.{Huge, State, Env, chunks_of}
use nvm_malloc.NvmMalloc.{
  chunks_for, nvm_reserve_huge, split_huge, reserve_chunks, nvm_reserve, nvm_free,
}
use nvm_malloc.NvmMalloc.Chunks.{
  chunk_covers, region_at, Reserved, nvm_reserve_huge-fresh, reserve_chunks-Reserved,
  nvm_reserve-found, search-IsBestFit,
}

-- A region of `n` chunks at a chunk of the mapped space, with its size in its header.
pub record IsRegion (h n : ℕ) (s : State) : Type 0 where
  pub index : ℕ
  pub at : h ≡ s.nvm_start + index * chunk_size
  pub within : s.nvm_start + (index + n) * chunk_size < 2 ^ 64
  pub size : s.mem (h + Block.n_units) ≡ n

module _ (env : Env) where
  -- A free puts the region that the header describes back into the tree.
  free-huge :
      (h n : ℕ) (l : Links) (s : State)
      → 0 < n
      → IsRegion h n s
      → (t : State) × (nvm_free env (h + header_size) l s ≡ some t)
        × (t.free_chunks ≡ env.huges.tree_add (region_at h n) s.free_chunks)
  unfolding nvm_free
  free-huge h n l s some_chunk r =
      let back : sub64 (h + header_size) header_size ≡ h = omega (arith, r.at, r.within) in
      let offset : (abs_to_rel s.nvm_start (h + header_size) % chunk_size == header_size) ≡ true =
        ground (arith, r.at, r.within, some_chunk) in
      (
        _,
        if-true _ _ _ offset,
        ap (λ b. env.huges.tree_add b s.free_chunks)
            (ap (λ k. region_at k (s.mem (k + Block.n_units))) back ∙ ap (region_at h) r.size),
      )

  fresh-IsRegion :
      (n : ℕ) (s : State) (h : ℕ) (t : State)
      → n < 2 ^ 32
      → s.space.region_start ≡ s.nvm_start
      → s.nvm_start + (s.space.next_chunk + n) * chunk_size < 2 ^ 64
      → nvm_reserve_huge env n s ≡ some (h, t)
      → IsRegion h n t
  unfolding nvm_reserve_huge
  fresh-IsRegion n s h t small mapped fits e =
      let ((k, space), first, e₁) = >>=-eq-some (activate_more_chunks env.os n s.space) _ e in
      let (start, last) = some-pair e₁ in
      let (_, at, _) = nvm_reserve_huge-fresh env n s h t e in
      subst₂ (λ a u. IsRegion a n u) start last
        (record {
          index = s.space.next_chunk;
          at = start ∙ at ∙ omega (arith, mapped, fits);
          within = fits;
          size = ground (arith, small);
        })

  split-IsRegion :
      (n : ℕ) (huge : Huge) (s : State)
      → n ≤ huge.n_chunks
      → IsRegion huge.nvm_chunk huge.n_chunks s
      → IsRegion (split_huge env n huge s).0 n (split_huge env n huge s).1
  unfolding split_huge
  split-IsRegion n huge s enough r = elim (Bool-cases (ltb n huge.n_chunks)) [
    | inl lt ↦ rw lt (record {
      index = r.index + (huge.n_chunks - n);
      at = omega (arith, r.at);
      within = omega (arith, r.within, ltb→lt _ _ lt);
      size = ground (arith, ltb→lt _ _ lt);
    })
    | inr ge ↦
        let whole = subst (λ k. IsRegion huge.nvm_chunk k s) (omega (arith, ltb→le _ _ ge)) r in
        rw ge
          (record { index = whole.index; at = whole.at; within = whole.within; size = whole.size })
  ]

  -- A large enough free region, or new chunks.
  reserve_chunks-IsRegion :
      (n : ℕ) (s : State) (found : Option Huge) (h : ℕ) (t : State)
      → n < 2 ^ 32
      → s.space.region_start ≡ s.nvm_start
      → s.nvm_start + (s.space.next_chunk + n) * chunk_size < 2 ^ 64
      → ((b : Huge) → Member b s.free_chunks → IsRegion b.nvm_chunk b.n_chunks s)
      → IsBestFit chunks_of n s.free_chunks found
      → reserve_chunks env n s found ≡ some (h, t)
      → IsRegion h n t
  unfolding reserve_chunks
  reserve_chunks-IsRegion n s none h t small mapped fits regions fit e =
      fresh-IsRegion n s h t small mapped fits e
  reserve_chunks-IsRegion n s (some huge) h t small mapped fits regions fit e =
      let (start, last) = some-pair e in
      subst₂ (λ a u. IsRegion a n u) start last (split-IsRegion n huge s fit.1 (regions huge fit.0))

  freed-weight :
      (n h : ℕ) (s t u : State)
      → Reserved env n h s t
      → u.free_chunks ≡ env.huges.tree_add (region_at h n) t.free_chunks
      → ((x : ℕ) → weight (chunk_covers x) u.free_chunks ≡ weight (chunk_covers x) s.free_chunks)
        ⊎ ((x : ℕ)
            → weight (chunk_covers x) u.free_chunks
              ≡ chunk_covers x (region_at h n) + weight (chunk_covers x) s.free_chunks)
  freed-weight n h s t u (inl balance) e = inl (λ x. rw (e, env.huges.weight-add) (balance x))
  freed-weight n h s t u (inr (same, _, _)) e = inr (λ x. rw (e, env.huges.weight-add, same) refl)

  -- Let the tree of free regions be in order; let each of them stand at a chunk of the mapped
  -- space, end before 2^64, and have its size in its header; and let the next chunks not end
  -- above 2^64. A region that a request above the large sizes and below 2^54 bytes gets can be
  -- freed, with any links. Afterwards either every byte of the free regions is free as often as
  -- before the request, and no other is; or the region was new and is free in addition.
  pub nvm_reserve-nvm_free :
      (tid n_bytes : ℕ) (l : Links) (s : State) (p : ℕ) (t : State)
      → sclass_large_max < n_bytes
      → n_bytes + header_size + chunk_size < 2 ^ 54
      → IsOrdered chunks_of s.free_chunks
      → ((b : Huge) → Member b s.free_chunks → IsRegion b.nvm_chunk b.n_chunks s)
      → s.space.region_start ≡ s.nvm_start
      → s.nvm_start + (s.space.next_chunk + chunks_for n_bytes) * chunk_size < 2 ^ 64
      → nvm_reserve env tid n_bytes s ≡ some (p, t)
      → (u : State) × (nvm_free env p l t ≡ some u)
        × (((x : ℕ) → weight (chunk_covers x) u.free_chunks ≡ weight (chunk_covers x) s.free_chunks)
            ⊎ ((x : ℕ)
                → weight (chunk_covers x) u.free_chunks
                  ≡ chunk_covers x (region_at (p - header_size) (chunks_for n_bytes))
                    + weight (chunk_covers x) s.free_chunks))
  nvm_reserve-nvm_free tid n_bytes l s p t large small order regions mapped fits e =
      let n = chunks_for n_bytes in
      let found = tree_upper_bound chunks_of (u32 n) s.free_chunks in
      let fit = search-IsBestFit env n_bytes s small order in
      let (h, at, first) = nvm_reserve-found env tid n_bytes s p t large e in
      let region =
        reserve_chunks-IsRegion n s found h t (omega (arith, small)) mapped fits regions fit
          first in
      let (u, freed, tree) = free-huge h n l t (omega (arith, small)) region in
      let taken = reserve_chunks-Reserved env n s found h t fit first in
      (
        u,
        ap (λ a. nvm_free env a l t) at ∙ freed,
        subst
            (λ k.
              ((x : ℕ)
                → weight (chunk_covers x) u.free_chunks ≡ weight (chunk_covers x) s.free_chunks)
              ⊎ ((x : ℕ)
                  → weight (chunk_covers x) u.free_chunks
                    ≡ chunk_covers x (region_at k n) + weight (chunk_covers x) s.free_chunks))
            (omega (arith, at)) (freed-weight n h s t u taken tree),
      )
