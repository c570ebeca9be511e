-- ===== src/NvmMalloc/Startup/Thread.antt =====
-- `nvm_recovery_thread` of src/nvm_malloc.c on a heap whose headers lead from each chunk to the
-- next.
use nvm_malloc.Base.{
  ℕ, zero, suc, ◌+◌, ◌-◌, ◌*◌, ◌%◌, ◌<◌, ◌≤◌, ◌≡◌, ◌≢◌, refl, sym, ◌∙◌, arith, true, false, some,
  List, [], ◌∷◌, ne→==, ltb, subst, length,
}
use nvm_malloc.Types.{chunk_size, block_size, get_usage, usage_arena}
use nvm_malloc.Types.Block
use nvm_malloc.Nvm.{Mem}
use nvm_malloc.State.{ArenaBlock, State, Env}
use nvm_malloc.NvmMalloc.Startup.{walk_pages, walk_chunks, nvm_recovery_thread}
use nvm_malloc.NvmMalloc.Startup.Walk.{
  Segment, Consists, weigh_all, IsKept, IsWalked, IsWalked-trans, IsWalked-refl,
}
use nvm_malloc.NvmMalloc.Startup.Heap.{Consists-kept, Consists-length, walk_pages-IsWalked}

-- A chunk of an arena, or the first chunk of a huge region, in use or free.
pub data Extent : Type 0 where
  arena : List Segment → Extent
  huge : (chunks : ℕ) → Extent

abbrev pub chunks_in : Extent → ℕ
chunks_in (arena gs) = 1
chunks_in (huge n) = n

abbrev pub IsExtent : Mem → (chunk : ℕ) → Extent → Type 0
IsExtent m chunk (arena gs) = (get_usage (m chunk) ≡ usage_arena) × Consists m chunk 1 gs
IsExtent m chunk (huge n) =
    (get_usage (m chunk) ≢ usage_arena) × (m (chunk + Block.n_units) ≡ n) × (0 < n)

-- From chunk `i` on the `n` chunks of the heap consist of the extents.
abbrev pub IsHeap : Mem → (start n i : ℕ) → List Extent → Type 0
IsHeap m start n i [] = n ≤ i
IsHeap m start n i (x ∷ xs) =
    (i < n) × IsExtent m (start + i * chunk_size) x × IsHeap m start n (i + chunks_in x) xs

-- What a weight of blocks comes to on the free blocks of arena `a` in the heap.
abbrev pub weigh_extent : (ArenaBlock → ℕ) → (a chunk : ℕ) → Extent → ℕ
weigh_extent w a chunk (arena gs) = weigh_all w a chunk 1 gs
weigh_extent w a chunk (huge n) = 0

abbrev pub weigh_heap : (ArenaBlock → ℕ) → (a start i : ℕ) → List Extent → ℕ
weigh_heap w a start i [] = 0
weigh_heap w a start i (x ∷ xs) =
    weigh_extent w a (start + i * chunk_size) x + weigh_heap w a start (i + chunks_in x) xs

-- One round of the walk on each kind of extent, from the runs of its parts.
module _ (env : Env) (fuel n i : ℕ) (s : State) (lt : i < n) where
  before : ltb i n ≡ true
  before = ground (arith, lt)

  walk_chunks-arena :
      (start : ℕ) (t u : State)
      → start ≡ s.nvm_start
      → get_usage (s.mem (start + i * chunk_size)) ≡ usage_arena
      → walk_pages env (start + i * chunk_size) 1024 1 s ≡ some t
      → walk_chunks env fuel n (i + 1) t ≡ some u
      → walk_chunks env (suc fuel) n i s ≡ some u
  unfolding walk_chunks
  walk_chunks-arena start t u at usage e f =
      rw
        (
          before,
          subst (λ z. get_usage (s.mem (z + i * chunk_size)) ≡ usage_arena) at usage,
          subst (λ z. walk_pages env (z + i * chunk_size) 1024 1 s ≡ some t) at e,
          f,
        )
        refl

  walk_chunks-huge :
      (start k : ℕ) (u : State)
      → start ≡ s.nvm_start
      → get_usage (s.mem (start + i * chunk_size)) ≢ usage_arena
      → s.mem (start + i * chunk_size + Block.n_units) ≡ k
      → walk_chunks env fuel n (i + k) s ≡ some u
      → walk_chunks env (suc fuel) n i s ≡ some u
  unfolding walk_chunks
  walk_chunks-huge start k u at usage units f =
      rw
        (
          before,
          ne→== _ _ (subst (λ z. get_usage (s.mem (z + i * chunk_size)) ≢ usage_arena) at usage),
          subst (λ z. s.mem (z + i * chunk_size + Block.n_units) ≡ k) at units,
          f,
        )
        refl

module _ (start : ℕ) (aligned : start % block_size ≡ 0) where
  IsHeap-kept :
      (m o : Mem)
      → ((x : ℕ) → IsKept x → o x ≡ m x)
      → (n i : ℕ) (xs : List Extent) → IsHeap m start n i xs
      → IsHeap o start n i xs
  IsHeap-kept m o same n i [] held = held
  IsHeap-kept m o same n i (arena gs ∷ xs) held =
      let chunk = start + i * chunk_size in
      let e0 = same chunk (omega (arith, aligned), omega (arith, aligned)) in
      (
        held.0,
        (rw e0 held.1.0, Consists-kept m o same chunk (omega (arith, aligned)) 1 gs held.1.1),
        IsHeap-kept m o same n (i + 1) xs held.2,
      )
  IsHeap-kept m o same n i (huge k ∷ xs) held =
      let chunk = start + i * chunk_size in
      let e0 = same chunk (omega (arith, aligned), omega (arith, aligned)) in
      let e1 = same (chunk + Block.n_units) (omega (arith, aligned), omega (arith, aligned)) in
      (held.0, rw (e0, e1) held.1, IsHeap-kept m o same n (i + k) xs held.2)

  IsHeap-length : (m : Mem) (n i : ℕ) (xs : List Extent) → IsHeap m start n i xs → length xs ≤ n - i
  IsHeap-length m n i [] held = omega arith
  IsHeap-length m n i (arena gs ∷ xs) held =
      omega (arith, held.0, IsHeap-length m n (i + 1) xs held.2)
  IsHeap-length m n i (huge k ∷ xs) held =
      omega (arith, held.0, held.1.2, IsHeap-length m n (i + k) xs held.2)

  walk_chunks-IsWalked :
      (env : Env) (n : ℕ) (xs : List Extent) (fuel i : ℕ) (s : State)
      → s.nvm_start ≡ start
      → length xs < fuel
      → IsHeap s.mem start n i xs
      → (t : State) × (walk_chunks env fuel n i s ≡ some t)
        × IsWalked s t (λ w a. weigh_heap w a start i xs)
  unfolding walk_chunks
  walk_chunks-IsWalked env n xs zero i s at enough held = absurd (omega (arith, enough))
  walk_chunks-IsWalked env n [] (suc fuel) i s at enough held =
      let past : ltb i n ≡ false = ground (arith, held) in (s, rw past refl, IsWalked-refl s)
  walk_chunks-IsWalked env n (arena gs ∷ xs) (suc fuel) i s at enough held =
      let chunk = start + i * chunk_size in
      let (t, e, first) =
        walk_pages-IsWalked env chunk (omega (arith, aligned)) gs 1024 1 s
          (omega (arith, Consists-length s.mem chunk 1 gs held.1.1)) held.1.1 in
      let (u, f, rest) =
        walk_chunks-IsWalked env n xs fuel (i + 1) t (first.nvm_start ∙ at) (omega (arith, enough))
          (IsHeap-kept s.mem t.mem first.kept n (i + 1) xs held.2) in
      (
        u,
        walk_chunks-arena env fuel n i s held.0 start t u (sym at) held.1.0 e f,
        IsWalked-trans s t u (λ w a. weigh_all w a chunk 1 gs)
            (λ w a. weigh_heap w a start (i + 1) xs) first rest,
      )
  walk_chunks-IsWalked env n (huge k ∷ xs) (suc fuel) i s at enough held =
      let (u, f, rest) =
        walk_chunks-IsWalked env n xs fuel (i + k) s at (omega (arith, enough)) held.2 in
      (
        u,
        walk_chunks-huge env fuel n i s held.0 start k u (sym at) held.1.0 held.1.1 f,
        IsWalked-trans s s u (λ w a. 0) (λ w a. weigh_heap w a start (i + k) xs) (IsWalked-refl s)
            rest,
      )

-- Let NVRAM start at a page, and let the headers of `n` chunks lead from each chunk or region to
-- the next, and in each chunk of an arena from each page or block to the next, with sizes above 0
-- and slots of at least 64 bytes. Then the recovery thread ends. It has added each free block once
-- to the tree of the arena that its header names, and nothing else: any weight of an arena's tree
-- has grown by what it comes to on these blocks. It leaves the free chunks as they were, and
-- changes at most those cells of memory that stand in their page where a run has its version and
-- its pointer to the volatile header.
pub nvm_recovery_thread-IsWalked :
    (env : Env) (n : ℕ) (xs : List Extent) (s : State)
    → s.nvm_start % block_size ≡ 0
    → IsHeap s.mem s.nvm_start n 0 xs
    → (t : State) × (nvm_recovery_thread env n s ≡ some t)
      × IsWalked s t (λ w a. weigh_heap w a s.nvm_start 0 xs)
unfolding nvm_recovery_thread
nvm_recovery_thread-IsWalked env n xs s aligned held =
    walk_chunks-IsWalked s.nvm_start aligned env n xs (n + 1) 0 s refl
      (omega (arith, IsHeap-length s.nvm_start aligned s.mem n 0 xs held)) held
