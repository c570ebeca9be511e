-- ===== src/NvmMalloc/Startup/Fresh.antt =====
-- What `nvm_initialize_empty` of src/nvm_malloc.c leaves: a heap of arena chunks with one free
-- block each.
use nvm_malloc.Base.{
  some-same, ℕ, zero, suc, ◌+◌, ◌-◌, ◌*◌, ◌≤◌, ◌<◌, ◌≡◌, ◌≢◌, ◌⊎◌, inl, inr, refl, sym, subst, ◌∙◌,
  ap, arith, bit_or, true, some, ltb, ◌==◌, if◌then◌else◌, update, update_self, update-ne,
  Bool-cases, ==→eq, >>=-eq-some,
}
use nvm_malloc.Types.{
  block_size, chunk_size, usage_arena, state_initialized, state_initializing, initial_arenas,
}
use nvm_malloc.Types.Block
use nvm_malloc.Nvm.{Mem, signature}
use nvm_malloc.Nvm.Bytes.{write_bytes-other, length-signature}
use nvm_malloc.Tree.{leaf}
use nvm_malloc.Chunk.{Space, initialize_chunks, activate_more_chunks}
use nvm_malloc.State.{ArenaBlock, Arena, State, Env}
use nvm_malloc.Arena.{free_initialized, chunk_pages}
use nvm_malloc.Arena.Pages.{tree_of}
use nvm_malloc.Arena.Setup.{arena_init}
use nvm_malloc.NvmMalloc.Startup.{init_chunk, seal_chunk, repeat, nvm_initialize_empty}

-- What every round leaves is there after all of them.
pub repeat-kept {ℓ κ} :
    {S : Type ℓ} (body : ℕ → S → S) (P : S → Type κ)
    → ((i : ℕ) (s : S) → P s → P (body i s))
    → (n i : ℕ) (s : S) → P s
    → P (repeat body n i s)
repeat-kept body P keep zero i s p = p
repeat-kept body P keep (suc n) i s p = repeat-kept body P keep n (i + 1) (body i s) (keep i s p)

-- What round `j` does and no other round undoes is there after all of them.
pub repeat-each {ℓ κ} :
    {S : Type ℓ} (body : ℕ → S → S) (Q : ℕ → S → Type κ)
    → ((i : ℕ) (s : S) → Q i (body i s))
    → ((i j : ℕ) (s : S) → j ≢ i → Q j s → Q j (body i s))
    → (n i : ℕ) (s : S) (j : ℕ) → i ≤ j
    → j < i + n
    → Q j (repeat body n i s)
repeat-each body Q make keep zero i s j le lt = absurd (omega arith)
repeat-each body Q make keep (suc n) i s j le lt = elim (Bool-cases (j == i)) [
  | inl e ↦
      later n (i + 1) (body i s) (omega (arith, ==→eq j i e))
        (subst (λ k. Q k (body i s)) (sym (==→eq j i e)) (make i s))
  | inr e ↦ repeat-each body Q make keep n (i + 1) (body i s) j (ground (arith, e)) (omega arith)
]
  where
    later : (n k : ℕ) (t : _) → j < k → Q j t → Q j (repeat body n k t)
    later zero k t lt q = q
    later (suc n) k t lt q = later n (k + 1) (body k t) (omega arith) (keep k j t (omega arith) q)

abbrev pub next_table : ℕ → ℕ
next_table i = if ltb i (initial_arenas - 1) then (i + 1) * chunk_size else 0

module _ (env : Env) (start i : ℕ) (m : Mem) where
  init_chunk-next : init_chunk env start i m (start + i * chunk_size + 56) ≡ next_table i
  unfolding init_chunk
  init_chunk-next = ground arith

  init_chunk-other :
      (a : ℕ)
      → (a < start + i * chunk_size) ⊎ (start + i * chunk_size + 8192 ≤ a)
      → init_chunk env start i m a ≡ m a
  unfolding init_chunk
  init_chunk-other a out =
      let chunk = start + i * chunk_size in
      let begun = update m chunk (bit_or usage_arena state_initializing) in
      ground (
        arith,
        out,
        write_bytes-other (chunk + 1) signature begun a (ground (arith, out, length-signature)),
      )

  seal_chunk-sealed :
      seal_chunk env start i m (start + i * chunk_size) ≡ bit_or usage_arena state_initialized
  unfolding seal_chunk
  seal_chunk-sealed = ground arith

  seal_chunk-other : (a : ℕ) → a ≢ start + i * chunk_size → seal_chunk env start i m a ≡ m a
  unfolding seal_chunk
  seal_chunk-other a ne = ground arith

-- A chunk that is an arena's, with the link of the object tables.
pub record IsSealed (start j : ℕ) (m : Mem) : Type 0 where
  pub chunk : m (start + j * chunk_size) ≡ bit_or usage_arena state_initialized
  pub next : m (start + j * chunk_size + 56) ≡ next_table j

module _ (env : Env) (start : ℕ) (m : Mem) where
  -- The memory after the two loops of `nvm_initialize_empty` over the chunks.
  abbrev chunks_made : Mem
  chunks_made =
      repeat (seal_chunk env start) initial_arenas 0
        (repeat (init_chunk env start) initial_arenas 0 m)

  linked :
      (j : ℕ)
      → j < 20
      → repeat (init_chunk env start) 20 0 m (start + j * chunk_size + 56) ≡ next_table j
  linked j lt =
      repeat-each (init_chunk env start) (λ k o. o (start + k * chunk_size + 56) ≡ next_table k)
        (λ i o. init_chunk-next env start i o)
        (λ i k o ne e.
          init_chunk-other env start i o (start + k * chunk_size + 56) (ground (arith, ne)) ∙ e)
        20 0 m j (omega arith) lt

  chunks_made-IsSealed : (j : ℕ) → j < 20 → IsSealed start j chunks_made
  chunks_made-IsSealed j lt = record {
    chunk =
        repeat-each (seal_chunk env start)
          (λ k o. o (start + k * chunk_size) ≡ bit_or usage_arena state_initialized)
          (λ i o. seal_chunk-sealed env start i o)
          (λ i k o ne e.
            seal_chunk-other env start i o (start + k * chunk_size) (λ z. ne (omega (arith, z)))
            ∙ e)
          20 0 (repeat (init_chunk env start) 20 0 m) j (omega arith) lt;
    next =
        repeat-kept (seal_chunk env start) (λ o. o (start + j * chunk_size + 56) ≡ next_table j)
          (λ i o e.
            seal_chunk-other env start i o (start + j * chunk_size + 56) (λ z. omega (arith, z))
            ∙ e)
          20 0 (repeat (init_chunk env start) 20 0 m) (linked j lt);
  }

-- The free block of chunk `j`.
abbrev pub fresh_block : (start j : ℕ) → ArenaBlock
fresh_block start j = record {
  nvm_block = start + j * chunk_size + block_size;
  n_pages = chunk_pages;
  arena = j;
}

module _ (env : Env) (start : ℕ) where
  -- Arena `j` with its block, in its tree and in NVRAM.
  pub record IsGiven (j : ℕ) (t : State) : Type 0 where
    pub state : t.mem (start + j * chunk_size + block_size) ≡ free_initialized
    pub pages : t.mem (start + j * chunk_size + block_size + Block.n_units) ≡ chunk_pages
    pub arena_id : t.mem (start + j * chunk_size + block_size + Block.arena_id) ≡ j
    pub tree : tree_of j t ≡ env.blocks.tree_add (fresh_block start j) leaf

  abbrev begin : ℕ → State → State
  begin i t = arena_init env i (start + i * chunk_size) true t

  begin-IsGiven : (i : ℕ) (t : State) → IsGiven i (begin i t)
  unfolding arena_init
  begin-IsGiven i t = record {
    state = ground arith;
    pages = ground arith;
    arena_id = ground arith;
    tree = ap (λ (a : Arena). a.free_pageruns) (update_self t.arenas i _);
  }

  begin-other :
      (i : ℕ) (t : State) (a : ℕ)
      → a ≢ start + i * chunk_size + block_size
      → a ≢ start + i * chunk_size + block_size + Block.n_units
      → a ≢ start + i * chunk_size + block_size + Block.arena_id
      → (begin i t).mem a ≡ t.mem a
  unfolding arena_init
  begin-other i t a n1 n2 n3 = ground arith

  begin-arenas : (i j : ℕ) (t : State) → j ≢ i → (begin i t).arenas j ≡ t.arenas j
  unfolding arena_init
  begin-arenas i j t ne = update-ne t.arenas i _ j ne

  begin-kept : (i j : ℕ) (t : State) → j ≢ i → IsGiven j t → IsGiven j (begin i t)
  begin-kept i j t ne g = record {
    state =
        begin-other i t _ (λ z. ne (omega (arith, z))) (λ z. omega (arith, z))
          (λ z. omega (arith, z))
        ∙ g.state;
    pages =
        begin-other i t _ (λ z. omega (arith, z)) (λ z. ne (omega (arith, z)))
          (λ z. omega (arith, z))
        ∙ g.pages;
    arena_id =
        begin-other i t _ (λ z. omega (arith, z)) (λ z. omega (arith, z))
          (λ z. ne (omega (arith, z)))
        ∙ g.arena_id;
    tree = ap (λ (a : Arena). a.free_pageruns) (begin-arenas i j t ne) ∙ g.tree;
  }

  begin-IsSealed : (j i : ℕ) (t : State) → IsSealed start j t.mem → IsSealed start j (begin i t).mem
  begin-IsSealed j i t g = record {
    chunk =
        begin-other i t _ (λ z. omega (arith, z)) (λ z. omega (arith, z)) (λ z. omega (arith, z))
        ∙ g.chunk;
    next =
        begin-other i t _ (λ z. omega (arith, z)) (λ z. omega (arith, z)) (λ z. omega (arith, z))
        ∙ g.next;
  }

  -- The initial arenas, over sealed chunks.
  begun :
      (t : State) (j : ℕ)
      → j < 20
      → IsSealed start j t.mem
      → IsSealed start j (repeat begin 20 0 t).mem × IsGiven j (repeat begin 20 0 t)
  begun t j lt sealed = (
    repeat-kept begin (λ u. IsSealed start j u.mem) (begin-IsSealed j) 20 0 t sealed,
    repeat-each begin IsGiven begin-IsGiven begin-kept 20 0 t j (omega arith) lt,
  )

-- The state before the arenas begin.
abbrev ready : Env → State → (meta : ℕ) → Space → State
ready env s meta space = record s {
  mem = chunks_made env s.nvm_start (update s.mem meta 1);
  space = space;
  current_version = 0;
}

-- After a fresh start each of the initial chunks is an arena's, and the arena has its one block.
pub nvm_initialize_empty-IsGiven :
    (env : Env) (s t : State)
    → nvm_initialize_empty env s ≡ some t
    → (j : ℕ) → j < 20
    → IsSealed s.nvm_start j t.mem × IsGiven env s.nvm_start j t
unfolding nvm_initialize_empty
nvm_initialize_empty-IsGiven env s t e j lt =
    let (space₁, _, e₁) = >>=-eq-some (initialize_chunks env.os s.space) _ e in
    let ((first, space₂), _, e₂) =
      >>=-eq-some (activate_more_chunks env.os initial_arenas space₁) _ e₁ in
    let made = ready env s space₁.meta_info space₂ in
    subst (λ u. IsSealed s.nvm_start j u.mem × IsGiven env s.nvm_start j u) (some-same e₂)
      (begun env s.nvm_start made j lt
        (chunks_made-IsSealed env s.nvm_start (update s.mem space₁.meta_info 1) j lt))

pub nvm_initialize_empty-nvm_start :
    (env : Env) (s t : State) → nvm_initialize_empty env s ≡ some t → t.nvm_start ≡ s.nvm_start
unfolding nvm_initialize_empty arena_init
nvm_initialize_empty-nvm_start env s t e =
    let (space₁, _, e₁) = >>=-eq-some (initialize_chunks env.os s.space) _ e in
    let ((first, space₂), _, e₂) =
      >>=-eq-some (activate_more_chunks env.os initial_arenas space₁) _ e₁ in
    ap (λ (u : State). u.nvm_start) (sym (some-same e₂))
    ∙ repeat-kept (begin env s.nvm_start) (λ (u : State). u.nvm_start ≡ s.nvm_start) (λ i u p. p) 20
        0 (ready env s space₁.meta_info space₂) refl
