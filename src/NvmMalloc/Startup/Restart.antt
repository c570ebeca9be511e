-- ===== src/NvmMalloc/Startup/Restart.antt =====
-- A restart of src/nvm_malloc.c, `nvm_initialize_recovered`, on what a fresh start has left.
use nvm_malloc.Base.{
  ℕ, zero, suc, ◌+◌, ◌*◌, ◌%◌, ◌≤◌, ◌<◌, ◌≡◌, inl, inr, refl, sym, subst, ◌∙◌, ap, arith, Option,
  some, List, [], leb, ltb, ◌&&◌, ◌∷◌, ◌==◌, ==→eq, if◌then◌else◌, ◌>>=◌, update_self, update-ne,
  Bool-cases, true, false,
}
use nvm_malloc.Types.{block_size, chunk_size}
use nvm_malloc.Types.Block
use nvm_malloc.Nvm.{Mem}
use nvm_malloc.Tree.{leaf, weight}
use nvm_malloc.State.{ArenaBlock, Arena, State, Env}
use nvm_malloc.Arena.{chunk_pages}
use nvm_malloc.Arena.Pages.{tree_of}
use nvm_malloc.Arena.Setup.{arena_init}
use nvm_malloc.NvmMalloc.{max_log_entries}
use nvm_malloc.NvmMalloc.Startup.{
  repeat, repeat_option, recover_entry, nvm_recovery_thread, nvm_initialize_empty,
  nvm_initialize_recovered,
}
use nvm_malloc.NvmMalloc.Startup.Walk.{unused, IsWalked}
use nvm_malloc.NvmMalloc.Startup.Thread.{
  Extent, arena, IsHeap, weigh_heap, nvm_recovery_thread-IsWalked,
}
use nvm_malloc.NvmMalloc.Startup.Fresh.{
  IsSealed, IsGiven, fresh_block, repeat-kept, repeat-each, nvm_initialize_empty-IsGiven,
}

-- `n` chunks from chunk `i` on, each of one free block.
abbrev fresh_extents : (n i : ℕ) → List Extent
fresh_extents zero i = []
fresh_extents (suc n) i = arena (unused chunk_pages i ∷ []) ∷ fresh_extents n (i + 1)

fresh_extents-IsHeap :
    (env : Env) (m : Mem) (start : ℕ) (t : State) (n i : ℕ)
    → ((a : ℕ) → start ≤ a → m a ≡ t.mem a)
    → ((j : ℕ) → j < i + n → IsSealed start j t.mem × IsGiven env start j t)
    → IsHeap m start (i + n) i (fresh_extents n i)
fresh_extents-IsHeap env m start t zero i same given = omega arith
fresh_extents-IsHeap env m start t (suc n) i same given =
    let (sealed, block) = given i (omega arith) in
    (
      omega arith,
      (
        rw (same (start + i * chunk_size) (omega arith), sealed.chunk) refl,
        (
          omega arith,
          (
            rw (same (start + i * chunk_size + 1 * block_size) (omega arith), block.state) refl,
            rw
                (
                  same (start + i * chunk_size + 1 * block_size + Block.n_units) (omega arith),
                  block.pages,
                )
                refl,
            rw
                (
                  same (start + i * chunk_size + 1 * block_size + Block.arena_id) (omega arith),
                  block.arena_id,
                )
                refl,
            omega arith,
            omega arith,
          ),
          omega arith,
        ),
      ),
      subst (λ k. IsHeap m start k (i + 1) (fresh_extents n (i + 1))) (omega arith)
          (fresh_extents-IsHeap env m start t n (i + 1) same (λ j lt. given j (omega arith))),
    )

-- What a weight comes to on the free blocks of arena `a` there.
weigh-fresh :
    (w : ArenaBlock → ℕ) (a start n i : ℕ)
    → weigh_heap w a start i (fresh_extents n i)
      ≡ (if leb i a && ltb a (i + n) then w (fresh_block start a) else 0)
weigh-fresh w a start zero i = ground arith
weigh-fresh w a start (suc n) i = elim (Bool-cases (a == i)) [
  | inl e ↦
      subst
        (λ k.
          weigh_heap w a start k (fresh_extents (suc n) k)
          ≡ (if leb k a && ltb a (k + suc n) then w (fresh_block start a) else 0))
        (==→eq a i e) (rw (weigh-fresh w a start n (a + 1)) (ground arith))
  | inr e ↦ rw (e, weigh-fresh w a start n (i + 1)) (ground (arith, e))
]

-- The tests that all pass by.
repeat_option-skips :
    (body : ℕ → State → Option State) (n i : ℕ) (s : State)
    → ((j : ℕ) → j < i + n → body j s ≡ some s)
    → repeat_option body n i s ≡ some s
repeat_option-skips body zero i s skip = refl
repeat_option-skips body (suc n) i s skip =
    rw (skip i (omega arith)) (repeat_option-skips body n (i + 1) s (λ j lt. skip j (omega arith)))

module _ (env : Env) where
  recover_entry-skips :
      (i : ℕ) (s : State) → s.mem (s.log_start + 8 * i) ≡ 0 → recover_entry env i s ≡ some s
  unfolding recover_entry
  recover_entry-skips i s e = rw e refl

  -- Empty arenas, before the log is read.
  abbrev emptied : State → State
  emptied u = repeat (λ i t. arena_init env i 0 false t) 20 0 u

  emptied-same :
      (u : State)
      → ((emptied u).mem ≡ u.mem)
        × ((emptied u).nvm_start ≡ u.nvm_start)
        × ((emptied u).log_start ≡ u.log_start)
  unfolding arena_init
  emptied-same u =
      repeat-kept (λ i t. arena_init env i 0 false t)
        (λ t. (t.mem ≡ u.mem) × (t.nvm_start ≡ u.nvm_start) × (t.log_start ≡ u.log_start))
        (λ i t p. p) 20 0 u (refl, refl, refl)

  emptied-leaf : (u : State) (j : ℕ) → j < 20 → tree_of j (emptied u) ≡ leaf
  unfolding arena_init
  emptied-leaf u j lt =
      repeat-each (λ i t. arena_init env i 0 false t) (λ k t. tree_of k t ≡ leaf)
        (λ i t. ap (λ (a : Arena). a.free_pageruns) (update_self t.arenas i _))
        (λ i k t ne e. ap (λ (a : Arena). a.free_pageruns) (update-ne t.arenas i _ k ne) ∙ e) 20 0 u
        j (omega arith) lt

  emptied-quiet :
      (u : State) (k : ℕ)
      → u.mem (u.log_start + 8 * k) ≡ 0
      → (emptied u).mem ((emptied u).log_start + 8 * k) ≡ 0
  emptied-quiet u k e =
      let (same, _, log) = emptied-same u in
      ap (λ (m : Mem). m ((emptied u).log_start + 8 * k)) same ∙ ap (λ l. u.mem (l + 8 * k)) log ∙ e

  given-weight :
      (start j : ℕ) (t : State) (w : ArenaBlock → ℕ)
      → IsGiven env start j t
      → weight w (tree_of j t) ≡ w (fresh_block start j)
  given-weight start j t w g =
      ap (weight w) g.tree ∙ env.blocks.weight-add w (fresh_block start j) leaf ∙ omega arith

  walked-weight :
      (start j : ℕ) (f v : State) (w : ArenaBlock → ℕ)
      → j < 20
      → tree_of j f ≡ leaf
      → IsWalked f v (λ w a. weigh_heap w a start 0 (fresh_extents 20 0))
      → weight w (tree_of j v) ≡ w (fresh_block start j)
  walked-weight start j f v w lt empty walked =
      let shown : (leb 0 j && ltb j 20) ≡ true = ground arith in
      omega (
        arith,
        walked.trees w j,
        ap (weight w) empty,
        weigh-fresh w j start 20 0 ∙ ap (λ b. if b then w (fresh_block start j) else 0) shown,
      )

  -- Let NVRAM start at a page, and let a fresh start succeed. A restart on the same NVRAM, of
  -- which only cells before the chunks may have changed, with no pointer in the log, ends, and
  -- gives each of the 20 initial arenas the free block of 1023 pages that the fresh start gave it,
  -- once and nothing else.
  pub nvm_initialize_recovered-nvm_initialize_empty :
      (s t u : State)
      → s.nvm_start % block_size ≡ 0
      → nvm_initialize_empty env s ≡ some t
      → u.nvm_start ≡ s.nvm_start
      → ((a : ℕ) → s.nvm_start ≤ a → u.mem a ≡ t.mem a)
      → ((k : ℕ) → k < 127 → u.mem (u.log_start + 8 * k) ≡ 0)
      → (v : State) × (nvm_initialize_recovered env 20 u ≡ some v)
        × ((w : ArenaBlock → ℕ) (j : ℕ)
            → j < 20
            → (weight w (tree_of j v) ≡ weight w (tree_of j t))
              × (weight w (tree_of j t) ≡ w (fresh_block s.nvm_start j)))
  unfolding nvm_initialize_recovered
  nvm_initialize_recovered-nvm_initialize_empty s t u aligned e at same quiet =
      let f = emptied u in
      let (kept, start, _) = emptied-same u in
      let given = nvm_initialize_empty-IsGiven env s t e in
      let skipped =
        repeat_option-skips (recover_entry env) max_log_entries 0 f
          (λ j lt. recover_entry-skips j f (emptied-quiet u j (quiet j lt))) in
      let heap =
        fresh_extents-IsHeap env f.mem s.nvm_start t 20 0
          (λ a le. ap (λ (m : Mem). m a) kept ∙ same a le) given in
      let (v, run, walked) =
        subst
          (λ z.
            z % block_size ≡ 0
            → IsHeap f.mem z 20 0 (fresh_extents 20 0)
            → (v : State) × (nvm_recovery_thread env 20 f ≡ some v)
              × IsWalked f v (λ w a. weigh_heap w a z 0 (fresh_extents 20 0)))
          (start ∙ at) (nvm_recovery_thread-IsWalked env 20 (fresh_extents 20 0) f) aligned heap in
      (
        v,
        ap (λ o. o >>= nvm_recovery_thread env 20) skipped ∙ run,
        λ w j lt.
            let after = given-weight s.nvm_start j t w (given j lt).1 in
            (walked-weight s.nvm_start j f v w lt (emptied-leaf u j lt) walked ∙ sym after, after),
      )
