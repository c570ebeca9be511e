-- ===== src/NvmMalloc/Startup/Twice.antt =====
-- A block that both the log and the recovery thread find free: `nvm_initialize_recovered` and
-- `nvm_recovery_thread` of src/nvm_malloc.c.
use nvm_malloc.Base.{
  ℕ, ◌+◌, ◌*◌, ◌%◌, ◌≤◌, ◌<◌, ◌≡◌, ◌≢◌, refl, sym, ◌∙◌, ap, arith, true, some, List, update,
  update_self, ◌==◌, ==_refl, if◌then◌else◌, subst,
}
use nvm_malloc.Types.{block_size, header_size, usage_block, rel_to_abs}
use nvm_malloc.Types.Block
use nvm_malloc.Util.{identify_usage}
use nvm_malloc.Nvm.{Mem, Event, exec}
use nvm_malloc.Header.{block, recover}
use nvm_malloc.Tree.{weight}
use nvm_malloc.State.{ArenaBlock, Arena, State, Env, set_mem}
use nvm_malloc.Arena.{put_block}
use nvm_malloc.Arena.Pages.{tree_of}
use nvm_malloc.Arena.Free.Renew.{arena_create_block_header_lem}
use nvm_malloc.NvmMalloc.Startup.{recover_entry, nvm_recovery_thread}
use nvm_malloc.NvmMalloc.Startup.Entry.{repaired, recover_entry-region}
use nvm_malloc.NvmMalloc.Startup.Thread.{Extent, IsHeap, weigh_heap, nvm_recovery_thread-IsWalked}

-- 1 for a block whose header is at `h`
abbrev pub is_at : ℕ → ArenaBlock → ℕ
is_at h b = if b.nvm_block == h then 1 else 0

module _ (env : Env) (s : State) (h i a pages : ℕ) (es : List Event) where
  abbrev pub slot : ℕ
  slot = s.log_start + 8 * i

  -- Memory behind the repair of the block and of its log entry.
  abbrev pub mended : Mem
  mended = update (exec es s.mem) slot 0

  abbrev listed : State
  listed = let t = repaired env s h i block es true in set_mem (update t.mem slot 0) t

  listed-tree :
      exec es s.mem (h + Block.n_units) ≡ pages
      → pages < 65536
      → exec es s.mem (h + Block.arena_id) ≡ a
      → (listed.mem ≡ mended)
        × (listed.nvm_start ≡ s.nvm_start)
        × (weight (is_at h) (tree_of a listed) ≡ 1 + weight (is_at h) (tree_of a s))
  unfolding put_block
  listed-tree units small id =
      let entry : ArenaBlock = record { nvm_block = h; n_pages = pages; arena = a } in
      let read =
        arena_create_block_header_lem h pages a (set_mem (exec es s.mem) s) units id small in
      rw read (
        refl,
        refl,
        ap (λ (r : Arena). weight (is_at h) r.free_pageruns) (update_self s.arenas a _)
            ∙ env.blocks.weight-add (is_at h) entry ((s.arenas a).free_pageruns)
            ∙ rw (==_refl h) refl,
      )

  -- Let NVRAM start at a page, let an entry of the log name a large block of less than 2 ^ 16 pages,
  -- and let the repair of its header hand the block to the free tree, as it does for a committed
  -- free. Let the headers of the heap, as the repair leaves them, lead from each to the next, with
  -- this block among the free ones of its arena. Then the processing of the entry and the recovery
  -- thread behind it succeed, but at the end the tree of the block's arena has at least two entries
  -- for the block.
  pub recover_entry-twice :
      (n : ℕ) (xs : List Extent)
      → s.mem slot ≢ 0
      → rel_to_abs s.nvm_start (s.mem slot) ≡ h + header_size
      → h % block_size ≡ 0
      → identify_usage s.mem s.nvm_start (rel_to_abs s.nvm_start (s.mem slot)) ≡ usage_block
      → recover s.nvm_start block s.mem h ≡ some (es, true)
      → exec es s.mem (h + Block.n_units) ≡ pages
      → pages < 65536
      → exec es s.mem (h + Block.arena_id) ≡ a
      → s.nvm_start % block_size ≡ 0
      → IsHeap mended s.nvm_start n 0 xs
      → 0 < weigh_heap (is_at h) a s.nvm_start 0 xs
      → (t : State) × (u : State) × (recover_entry env i s ≡ some t)
        × (nvm_recovery_thread env n t ≡ some u)
        × (2 ≤ weight (is_at h) (tree_of a u))
  recover_entry-twice n xs ne at page usage e units small id aligned heap found =
      let (same, from, once) = listed-tree units small id in
      let (u, f, is) = nvm_recovery_thread-IsWalked env n xs listed (rw from aligned) (
        subst (λ m. IsHeap m listed.nvm_start n 0 xs) (sym same)
          (subst (λ z. IsHeap mended z n 0 xs) (sym from) heap)) in
      let more : 0 < weigh_heap (is_at h) a listed.nvm_start 0 xs =
        subst (λ z. 0 < weigh_heap (is_at h) a z 0 xs) (sym from) found in
      (
        listed,
        u,
        recover_entry-region env s h i block es true ne at page usage e,
        f,
        omega (arith, is.trees (is_at h) a, once, more),
      )
