-- ===== src/NvmMalloc/Initialize/Start.antt =====
-- A fresh start by `nvm_initialize` of src/nvm_malloc.c with `ot_init` of src/object_table.c.
use nvm_malloc.Base.{
  if-true, >>=-total, >>=-after, some-same, ℕ, zero, suc, ◌+◌, ◌*◌, ◌^◌, ◌<◌, ◌≡◌, refl, sym, ◌∙◌,
  ap, arith, Bool, true, false, none, some, ◌==◌, if◌then◌else◌, u64, ltb,
}
use nvm_malloc.Types.{block_size, chunk_size, max_nvm_chunks}
use nvm_malloc.Nvm.{Mem}
use nvm_malloc.Chunk.{Space, initialize_nvm_space, initialize_chunks, activate_more_chunks}
use nvm_malloc.State.{State, Env}
use nvm_malloc.ObjectTable.{ObjectId, HashMap, Table, count_slots, ot_init}
use nvm_malloc.NvmMalloc.Ids.{System}
use nvm_malloc.NvmMalloc.Startup.{nvm_initialize_empty}
use nvm_malloc.NvmMalloc.Startup.Fresh.{
  IsSealed, IsGiven, next_table, nvm_initialize_empty-IsGiven, nvm_initialize_empty-nvm_start,
}
use nvm_malloc.NvmMalloc.Initialize.{nvm_initialize, start_chunks, start_empty}

module _ (lib : HashMap) (mem : Mem) (start : ℕ) where
  count_slots-last :
      (fuel chunk total : ℕ)
      → mem (chunk + 56) ≡ 0
      → count_slots lib mem (suc fuel) start chunk total ≡ some (total + 63)
  unfolding count_slots
  count_slots-last fuel chunk total e = rw e refl

  count_slots-next :
      (fuel chunk total next : ℕ)
      → mem (chunk + 56) ≡ next
      → (next == 0) ≡ false
      → count_slots lib mem (suc fuel) start chunk total
        ≡ count_slots lib mem fuel start (u64 (start + next)) (total + 63)
  unfolding count_slots
  count_slots-next fuel chunk total next e ne = rw (e, ne) refl

  -- The chain of the tables in the chunks from `i` on, `n` more behind it.
  count_slots-chain :
      start + 20 * chunk_size < 2 ^ 64
      → ((j : ℕ) → j < 20 → mem (start + j * chunk_size + 56) ≡ next_table j)
      → (n i total : ℕ) → i + n ≡ 19
      → count_slots lib mem (suc n) start (start + i * chunk_size) total
        ≡ some (total + (n + 1) * 63)
  count_slots-chain fits chain zero i total at =
      count_slots-last 0 (start + i * chunk_size) total
        (chain i (omega (arith, at)) ∙ ground (arith, at))
      ∙ ap some (omega arith)
  count_slots-chain fits chain (suc n) i total at =
      count_slots-next (suc n) (start + i * chunk_size) total ((i + 1) * chunk_size)
        (chain i (omega (arith, at)) ∙ ground (arith, at)) (ground arith)
      ∙ ap (λ c. count_slots lib mem (suc n) start c (total + 63)) (omega (arith, at, fits))
      ∙ count_slots-chain fits chain n (i + 1) (total + 63) (omega (arith, at))
      ∙ ap some (omega arith)

  -- The object table of a fresh start has the slots of 20 chunks.
  ot_init-slots :
      (s : Table lib)
      → start + 20 * chunk_size < 2 ^ 64
      → ((j : ℕ) → j < 20 → mem (start + j * chunk_size + 56) ≡ next_table j)
      → ot_init lib mem 20 start s
        ≡ some (record s {
          hashmap = lib.empty;
          first_chunk = start;
          total_slots_available = s.total_slots_available + 1260;
        })
  unfolding ot_init
  ot_init-slots s fits chain =
      let counted =
        ap (λ c. count_slots lib mem 20 start c s.total_slots_available) (omega arith)
        ∙ count_slots-chain fits chain 19 0 s.total_slots_available refl in
      ap
        (λ o. elim o [
          | none ↦ none
          | some total ↦
              some (record s {
                hashmap = lib.empty;
                first_chunk = start;
                total_slots_available = total;
              })
        ])
        counted

all-granted :
    {A : Type 0} (a b c : Bool) (x : A)
    → a ≡ false
    → b ≡ true
    → c ≡ true
    → (r : A) × ((if a then none else if b then (if c then some x else none) else none) ≡ some r)
all-granted false true true x e f g = (x, refl)
all-granted true b c x e f g = cc
all-granted false false c x e f g = cc
all-granted false true false x e f g = cc

module _ (env : Env) where
  -- What a fresh start gives: the slots of the object table, and the arenas with their chunks.
  pub record IsStarted (lib : HashMap) (slots start : ℕ) (r : System lib) : Type 0 where
    pub total : r.table.total_slots_available ≡ slots
    pub first : r.table.first_chunk ≡ start
    pub sealed : (j : ℕ) → j < 20 → IsSealed start j r.state.mem
    pub given : (j : ℕ) → j < 20 → IsGiven env start j r.state

-- A system that grants every allocation of file space and every mapping.
module _ (env : Env) (allocates : (offset len : ℕ) → env.os.fallocate offset len ≡ true)
    (maps : (offset len : ℕ) → env.os.map offset len ≡ true) where
  space-mapped :
      (n : ℕ) (p : Space)
      → initialize_nvm_space env.os n p
        ≡ some (record p { region_start = env.os.region; max_chunks = n })
  unfolding initialize_nvm_space
  space-mapped n p = rw (maps 0 (n * chunk_size)) refl

  chunks-opened :
      (p : Space)
      → initialize_chunks env.os p
        ≡ some (record p { file_size = 1024 * 1024; meta_info = env.os.meta })
  unfolding initialize_chunks
  chunks-opened p = rw (allocates 0 (1024 * 1024), allocates 0 block_size, maps 0 block_size) refl

  chunks-activated :
      (p : Space)
      → p.next_chunk ≡ 0
      → p.max_chunks ≡ max_nvm_chunks
      → (r : ℕ × Space) × (activate_more_chunks env.os 20 p ≡ some r)
  unfolding activate_more_chunks
  chunks-activated p next top =
      let within : ltb p.max_chunks (u64 (p.next_chunk + 20)) ≡ false = ground (arith, next, top) in
      all-granted _ _ _ _ within (allocates _ _) (maps _ _)

  empty-starts :
      (s : State)
      → s.space.next_chunk ≡ 0
      → s.space.max_chunks ≡ max_nvm_chunks
      → (t : State) × (nvm_initialize_empty env s ≡ some t)
  unfolding nvm_initialize_empty
  empty-starts s next top =
      >>=-total (initialize_chunks env.os s.space) _ (_, chunks-opened s.space)
        (λ p e.
          >>=-total (activate_more_chunks env.os 20 p) _
            (chunks-activated p
              (ap (λ (q : Space). q.next_chunk) (some-same (sym e ∙ chunks-opened s.space)) ∙ next)
              (ap (λ (q : Space). q.max_chunks) (some-same (sym e ∙ chunks-opened s.space)) ∙ top))
            (λ r f. (_, refl)))

  start_empty-IsStarted :
      (lib : HashMap) (mapped : State) (s : System lib)
      → mapped.space.next_chunk ≡ 0
      → mapped.space.max_chunks ≡ max_nvm_chunks
      → mapped.nvm_start + 20 * chunk_size < 2 ^ 64
      → (r : System lib) × (start_empty lib env mapped s ≡ some r)
        × IsStarted env lib (s.table.total_slots_available + 1260) mapped.nvm_start r
  unfolding start_empty
  start_empty-IsStarted lib mapped s next top fits =
      let (t, e) = empty-starts mapped next top in
      let at = nvm_initialize_empty-nvm_start env mapped t e in
      let here = nvm_initialize_empty-IsGiven env mapped t e in
      let slots =
        ot_init-slots lib t.mem t.nvm_start s.table (omega (arith, at, fits))
          (λ j lt. ap (λ k. t.mem (k + j * chunk_size + 56)) at ∙ (here j lt).0.next) in
      (
        _,
        >>=-after (nvm_initialize_empty env mapped) _ t e
            ∙ >>=-after (ot_init lib t.mem 20 t.nvm_start s.table) _ _ slots,
        record {
          total = refl;
          first = at;
          sealed = λ j lt. (here j lt).0;
          given = λ j lt.
              let g = (here j lt).1 in
              record { state = g.state; pages = g.pages; arena_id = g.arena_id; tree = g.tree };
        },
      )

  -- Let the system grant every allocation of file space and every mapping, and let the reserved
  -- region end before 2^64. A start of a library that is not initialised and has no chunks, with
  -- recovery turned off, succeeds: the loop over the chain of object tables ends and counts 1260
  -- slots, each of the 20 chunks is sealed as an arena's with the link to the next table, and each
  -- arena has one free block of 1023 pages, in NVRAM as in its tree.
  pub nvm_initialize-IsStarted :
      (lib : HashMap) (behind : ℕ → ObjectId) (s : System lib)
      → s.state.nvm_start ≡ 0
      → s.state.space.next_chunk ≡ 0
      → env.os.region + 20 * chunk_size < 2 ^ 64
      → (r : System lib) × (nvm_initialize lib env behind false s ≡ some r)
        × IsStarted env lib (s.table.total_slots_available + 1260) env.os.region r
  unfolding nvm_initialize start_chunks
  nvm_initialize-IsStarted lib behind s unset next fits =
      let space : Space = record s.state.space {
        region_start = env.os.region;
        max_chunks = max_nvm_chunks;
      } in
      let mapped : State = record s.state {
        space = space;
        nvm_start = env.os.region;
        tidmap = λ t. 0;
      } in
      let (r, e, started) = start_empty-IsStarted lib mapped s next refl fits in
      (
        r,
        if-true _ _ _ (ap (λ v. v == 0) unset)
            ∙ >>=-after (initialize_nvm_space env.os max_nvm_chunks s.state.space) _ space
                (space-mapped max_nvm_chunks s.state.space)
            ∙ e,
        started,
      )
