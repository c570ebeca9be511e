-- ===== src/NvmMalloc/Startup/Heap.antt =====
-- The walk over all chunks by `nvm_recovery_thread` of src/nvm_malloc.c: it ends, and finds the
-- free blocks.
use nvm_malloc.Base.{
  ℕ, zero, suc, ◌+◌, ◌-◌, ◌*◌, ◌/◌, ◌%◌, ◌<◌, ◌≤◌, ◌≡◌, refl, arith, true, false, some, List, [],
  ◌∷◌, ltb, length,
}
use nvm_malloc.Types.{chunk_size, block_size}
use nvm_malloc.Types.Block
use nvm_malloc.Types.Run
use nvm_malloc.Nvm.{Mem}
use nvm_malloc.State.{State, Env}
use nvm_malloc.NvmMalloc.Startup.{walk_pages}
use nvm_malloc.NvmMalloc.Startup.Walk.{
  Segment, unused, run, in_use, pages_in, IsHeader, Consists, weigh, weigh_all, IsKept, IsWalked,
  IsWalked-trans, IsWalked-refl, walk_page-IsWalked,
}

-- Memory that differs in what the walk writes describes the same segments.
module _ (m n : Mem) (same : (x : ℕ) → IsKept x → n x ≡ m x) (chunk : ℕ)
    (aligned : chunk % block_size ≡ 0) where
  IsHeader-kept :
      (j : ℕ) (g : Segment)
      → IsHeader m (chunk + j * block_size) g
      → IsHeader n (chunk + j * block_size) g
  IsHeader-kept j (unused k a) held =
      let h = chunk + j * block_size in
      let e0 = same h (omega (arith, aligned), omega (arith, aligned)) in
      let e1 = same (h + Block.n_units) (omega (arith, aligned), omega (arith, aligned)) in
      let e2 = same (h + Block.arena_id) (omega (arith, aligned), omega (arith, aligned)) in
      rw (e0, e1, e2) held
  IsHeader-kept j run held =
      let h = chunk + j * block_size in
      let e0 = same h (omega (arith, aligned), omega (arith, aligned)) in
      let e1 = same (h + Run.n_bytes) (omega (arith, aligned), omega (arith, aligned)) in
      rw (e0, e1) held
  IsHeader-kept j (in_use k) held =
      let h = chunk + j * block_size in
      let e0 = same h (omega (arith, aligned), omega (arith, aligned)) in
      let e1 = same (h + Block.n_units) (omega (arith, aligned), omega (arith, aligned)) in
      rw (e0, e1) held

  pub Consists-kept : (j : ℕ) (gs : List Segment) → Consists m chunk j gs → Consists n chunk j gs
  Consists-kept j [] held = held
  Consists-kept j (g ∷ gs) held =
      (held.0, IsHeader-kept j g held.1, Consists-kept (j + pages_in g) gs held.2)

pages_in-positive : (m : Mem) (h : ℕ) (g : Segment) → IsHeader m h g → 0 < pages_in g
pages_in-positive m h (unused n a) held = held.3
pages_in-positive m h run held = omega arith
pages_in-positive m h (in_use n) held = held.3

-- A chunk has at most as many segments as pages.
pub Consists-length :
    (m : Mem) (chunk j : ℕ) (gs : List Segment)
    → Consists m chunk j gs
    → length gs ≤ chunk_size / block_size - j
Consists-length m chunk j [] held = omega arith
Consists-length m chunk j (g ∷ gs) held = omega (
  arith,
  held.0,
  pages_in-positive m (chunk + j * block_size) g held.1,
  Consists-length m chunk (j + pages_in g) gs held.2,
)

module _ (env : Env) where
  pub walk_pages-IsWalked :
      (chunk : ℕ)
      → chunk % block_size ≡ 0
      → (gs : List Segment) (fuel j : ℕ) (s : State) → length gs < fuel
      → Consists s.mem chunk j gs
      → (t : State) × (walk_pages env chunk fuel j s ≡ some t)
        × IsWalked s t (λ w a. weigh_all w a chunk j gs)
  unfolding walk_pages
  walk_pages-IsWalked chunk aligned gs zero j s enough held = absurd (omega (arith, enough))
  walk_pages-IsWalked chunk aligned [] (suc fuel) j s enough held =
      let past : ltb j (chunk_size / block_size) ≡ false = ground (arith, held) in
      (s, rw past refl, IsWalked-refl s)
  walk_pages-IsWalked chunk aligned (g ∷ gs) (suc fuel) j s enough held =
      let before : ltb j (chunk_size / block_size) ≡ true = ground (arith, held.0) in
      let (t, e, first) = walk_page-IsWalked env chunk aligned j g s held.1 in
      let (u, f, rest) =
        walk_pages-IsWalked chunk aligned gs fuel (j + pages_in g) t (omega (arith, enough))
          (Consists-kept s.mem t.mem first.kept chunk aligned (j + pages_in g) gs held.2) in
      (
        u,
        rw (before, e, f) refl,
        IsWalked-trans s t u (λ w a. weigh w a (chunk + j * block_size) g)
            (λ w a. weigh_all w a chunk (j + pages_in g) gs) first rest,
      )
