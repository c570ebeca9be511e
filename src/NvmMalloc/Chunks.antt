-- ===== src/NvmMalloc/Chunks.antt =====
-- Huge requests of `nvm_reserve` of src/nvm_malloc.c: the chunks that they take and leave.
pub mod Freed
pub mod Short
use nvm_malloc.Base.{
  ℕ, ◌+◌, ◌-◌, ◌*◌, ◌^◌, ◌≤◌, ◌<◌, ◌≡◌, ◌⊎◌, inl, inr, sym, ap, subst, arith, false, ◌&&◌, Option,
  none, some, ltb, leb, if◌then◌else◌, >>=-eq-some, some-pair, Bool-cases, u32, u64, ltb→lt, ltb→le,
  ◌∙◌,
}
use nvm_malloc.Types.{chunk_size, header_size, sclass_large_max}
use nvm_malloc.Tree.{Member, IsOrdered, weight, tree_upper_bound}
use nvm_malloc.Tree.BestFit.{IsBestFit, tree_upper_bound-IsBestFit}
use nvm_malloc.Chunk.{activate_more_chunks}
use nvm_malloc.State.{Huge, State, Env, chunks_of}
use nvm_malloc.NvmMalloc.{chunks_for, nvm_reserve_huge, split_huge, reserve_chunks, nvm_reserve}

-- 1 for a byte of the region, 0 for any other
abbrev pub chunk_covers : ℕ → Huge → ℕ
chunk_covers x b =
    if leb b.nvm_chunk x && ltb x (b.nvm_chunk + b.n_chunks * chunk_size) then 1 else 0

-- The region with `n` chunks at `h`.
abbrev pub region_at : (h n : ℕ) → Huge
region_at h n = record { nvm_chunk = h; n_chunks = n }

chunk_covers-split :
    (x base k n : ℕ)
    → n < k
    → chunk_covers x (region_at (base + (k - n) * chunk_size) n)
        + chunk_covers x (region_at base (k - n))
      ≡ chunk_covers x (region_at base k)
chunk_covers-split x base k n lt = ground arith

module _ (env : Env) where
  -- What a request took: from the free regions, or fresh chunks.
  abbrev pub Reserved : (n h : ℕ) → State → State → Type 0
  Reserved n h s t =
      ((x : ℕ)
        → chunk_covers x (region_at h n) + weight (chunk_covers x) t.free_chunks
          ≡ weight (chunk_covers x) s.free_chunks)
      ⊎ ((t.free_chunks ≡ s.free_chunks)
          × (h ≡ u64 (s.space.region_start + u64 (s.space.next_chunk * chunk_size)))
          × (t.space.next_chunk ≡ u64 (s.space.next_chunk + n)))

  split_huge-covers :
      (n : ℕ) (huge : Huge) (s : State) (x : ℕ)
      → n ≤ huge.n_chunks
      → Member huge s.free_chunks
      → let (h, t) = split_huge env n huge s in
        chunk_covers x (region_at h n) + weight (chunk_covers x) t.free_chunks
        ≡ weight (chunk_covers x) s.free_chunks
  unfolding split_huge
  split_huge-covers n huge s x enough member =
      let balance = env.huges.weight-del (chunk_covers x) huge s.free_chunks member in
      elim (Bool-cases (ltb n huge.n_chunks)) [
        | inl lt ↦
            rw (lt, env.huges.weight-add)
              (omega (
                arith,
                balance,
                chunk_covers-split x huge.nvm_chunk huge.n_chunks n (ltb→lt _ _ lt),
              ))
        | inr ge ↦ rw ge (
            ap
              (λ k.
                chunk_covers x (region_at huge.nvm_chunk k)
                + weight (chunk_covers x) (env.huges.tree_del huge s.free_chunks))
              (omega (arith, ltb→le _ _ ge))
            ∙ balance)
      ]

  nvm_reserve_huge-fresh :
      (n : ℕ) (s : State) (h : ℕ) (t : State)
      → nvm_reserve_huge env n s ≡ some (h, t)
      → (t.free_chunks ≡ s.free_chunks)
        × (h ≡ u64 (s.space.region_start + u64 (s.space.next_chunk * chunk_size)))
        × (t.space.next_chunk ≡ u64 (s.space.next_chunk + n))
  unfolding nvm_reserve_huge activate_more_chunks
  nvm_reserve_huge-fresh n s h t e = (ground arith, ground arith, ground arith)

  reserve_chunks-Reserved :
      (n : ℕ) (s : State) (found : Option Huge) (h : ℕ) (t : State)
      → IsBestFit chunks_of n s.free_chunks found
      → reserve_chunks env n s found ≡ some (h, t)
      → Reserved n h s t
  unfolding reserve_chunks
  reserve_chunks-Reserved n s none h t fit e = inr (nvm_reserve_huge-fresh n s h t e)
  reserve_chunks-Reserved n s (some huge) h t fit e =
      let (start, last) = some-pair e in
      inl (λ x. rw (← start, ← last) (split_huge-covers n huge s x fit.1 fit.0))

  -- A request above the large sizes, by its search.
  pub nvm_reserve-found :
      (tid n_bytes : ℕ) (s : State) (p : ℕ) (t : State)
      → sclass_large_max < n_bytes
      → nvm_reserve env tid n_bytes s ≡ some (p, t)
      → (h : ℕ) × (p ≡ h + header_size)
        × (reserve_chunks env
              (chunks_for n_bytes)
              s
              (tree_upper_bound chunks_of (u32 (chunks_for n_bytes)) s.free_chunks)
            ≡ some (h, t))
  unfolding nvm_reserve
  nvm_reserve-found tid n_bytes s p t large e =
      let found = tree_upper_bound chunks_of (u32 (chunks_for n_bytes)) s.free_chunks in
      let beyond : leb n_bytes sclass_large_max ≡ false = ground arith in
      let ((h, u), first, e₁) =
        >>=-eq-some (reserve_chunks env (chunks_for n_bytes) s found) _
          (rw (beyond, nvm_reserve) at e) in
      let (at, last) = some-pair e₁ in
      (
        h,
        sym at,
        subst (λ v. reserve_chunks env (chunks_for n_bytes) s found ≡ some (h, v)) last first,
      )

  -- The search has the whole number of chunks of a request below 2^54 bytes.
  pub search-IsBestFit :
      (n_bytes : ℕ) (s : State)
      → n_bytes + header_size + chunk_size < 2 ^ 54
      → IsOrdered chunks_of s.free_chunks
      → IsBestFit chunks_of
          (chunks_for n_bytes)
          s.free_chunks
          (tree_upper_bound chunks_of (u32 (chunks_for n_bytes)) s.free_chunks)
  search-IsBestFit n_bytes s small o =
      subst
        (λ n.
          IsBestFit chunks_of (chunks_for n_bytes) s.free_chunks
            (tree_upper_bound chunks_of n s.free_chunks))
        (omega (arith, small))
        (tree_upper_bound-IsBestFit chunks_of (chunks_for n_bytes) s.free_chunks o)
