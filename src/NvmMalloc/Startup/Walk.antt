-- ===== src/NvmMalloc/Startup/Walk.antt =====
-- The walk over the pages of a chunk by `nvm_recovery_thread` of src/nvm_malloc.c.
use nvm_malloc.Base.{
  ℕ, ◌+◌, ◌*◌, ◌/◌, ◌%◌, ◌^◌, ◌<◌, ◌≤◌, ◌≡◌, ◌≢◌, refl, ◌∙◌, ap, arith, some, List, [], ◌∷◌, ◌==◌,
  ne→==, if◌then◌else◌, update-cases, ==_refl,
}
use nvm_malloc.Types.{chunk_size, block_size, get_usage, usage_free, usage_run}
use nvm_malloc.Types.Block
use nvm_malloc.Types.Run
use nvm_malloc.Nvm.{Mem}
use nvm_malloc.Tree.{weight}
use nvm_malloc.State.{ArenaBlock, Arena, State, Env}
use nvm_malloc.Arena.{put_block}
use nvm_malloc.Arena.Pages.{tree_of}
use nvm_malloc.Arena.Free.Renew.{arena_create_block_header_lem, renew_run-IsRenewed}
use nvm_malloc.NvmMalloc.Startup.{walk_page}

-- What stands behind the header of a chunk: a free block of an arena, a run, or a block in use.
pub data Segment : Type 0 where
  unused : (pages arena : ℕ) → Segment
  run : Segment
  in_use : (pages : ℕ) → Segment

abbrev pub pages_in : Segment → ℕ
pages_in (unused n a) = n
pages_in run = 1
pages_in (in_use n) = n

-- The header at `h` describes a segment.
abbrev pub IsHeader : Mem → ℕ → Segment → Type 0
IsHeader m h (unused n a) =
    (get_usage (m h) ≡ usage_free)
    × (m (h + Block.n_units) ≡ n)
    × (m (h + Block.arena_id) ≡ a)
    × (0 < n)
    × (n < 2 ^ 16)
IsHeader m h run = (get_usage (m h) ≡ usage_run) × (64 ≤ m (h + Run.n_bytes))
IsHeader m h (in_use n) =
    (get_usage (m h) ≢ usage_free)
    × (get_usage (m h) ≢ usage_run)
    × (m (h + Block.n_units) ≡ n)
    × (0 < n)

-- From page `j` on the chunk consists of the segments.
abbrev pub Consists : Mem → (chunk : ℕ) → ℕ → List Segment → Type 0
Consists m chunk j [] = chunk_size / block_size ≤ j
Consists m chunk j (g ∷ gs) =
    (j < chunk_size / block_size)
    × IsHeader m (chunk + j * block_size) g
    × Consists m chunk (j + pages_in g) gs

-- What a weight of blocks comes to on the free block of a segment, if it is of arena `a`.
abbrev pub weigh : (ArenaBlock → ℕ) → (a h : ℕ) → Segment → ℕ
weigh w a h (unused n b) =
    if a == b then w (record { nvm_block = h; n_pages = n; arena = b }) else 0
weigh w a h run = 0
weigh w a h (in_use n) = 0

abbrev pub weigh_all : (ArenaBlock → ℕ) → (a chunk j : ℕ) → List Segment → ℕ
weigh_all w a chunk j [] = 0
weigh_all w a chunk j (g ∷ gs) =
    weigh w a (chunk + j * block_size) g + weigh_all w a chunk (j + pages_in g) gs

-- A cell that the walk leaves as it is: it stands in its page neither where a run has its pointer to
-- the volatile header nor where it has its version.
abbrev pub IsKept : ℕ → Type 0
IsKept x = (x % block_size ≢ Run.vdata) × (x % block_size ≢ Run.version)

-- A part of the walk from `s` to `t` that has found the free blocks which `found` weighs.
pub record IsWalked (s t : State) (found : (ArenaBlock → ℕ) → ℕ → ℕ) : Type 0 where
  pub trees :
      (w : ArenaBlock → ℕ) (a : ℕ) → weight w (tree_of a t) ≡ found w a + weight w (tree_of a s)
  pub free_chunks : t.free_chunks ≡ s.free_chunks
  pub nvm_start : t.nvm_start ≡ s.nvm_start
  pub kept : (x : ℕ) → IsKept x → t.mem x ≡ s.mem x

pub IsWalked-trans :
    (s t u : State) (f g : (ArenaBlock → ℕ) → ℕ → ℕ)
    → IsWalked s t f
    → IsWalked t u g
    → IsWalked s u (λ w a. f w a + g w a)
IsWalked-trans s t u f g p q = record {
  trees = λ w a. omega (arith, p.trees w a, q.trees w a);
  free_chunks = q.free_chunks ∙ p.free_chunks;
  nvm_start = q.nvm_start ∙ p.nvm_start;
  kept = λ x k. q.kept x k ∙ p.kept x k;
}

pub IsWalked-refl : (s : State) → IsWalked s s (λ w a. 0)
IsWalked-refl s = record {
  trees = λ w a. omega arith;
  free_chunks = refl;
  nvm_start = refl;
  kept = λ x k. refl;
}

module _ (env : Env) (chunk : ℕ) (aligned : chunk % block_size ≡ 0) where
  put_block-IsWalked :
      (b : ArenaBlock) (s : State)
      → IsWalked s (put_block env b.arena b s) (λ w a. if a == b.arena then w b else 0)
  unfolding put_block
  put_block-IsWalked b s = record {
    trees = λ w a.
        update-cases
          (λ (r : Arena).
            weight w r.free_pageruns ≡ (if a == b.arena then w b else 0) + weight w (tree_of a s))
          s.arenas b.arena _ a
          (λ e.
            rw (e, ==_refl b.arena) (env.blocks.weight-add w b ((s.arenas b.arena).free_pageruns)))
          (λ ne. rw (ne→== a b.arena ne) (omega arith));
    free_chunks = refl;
    nvm_start = refl;
    kept = λ x k. refl;
  }

  -- One page of the walk goes on to the header of the next segment.
  pub walk_page-IsWalked :
      (j : ℕ) (g : Segment) (s : State)
      → IsHeader s.mem (chunk + j * block_size) g
      → (t : State) × (walk_page env chunk j s ≡ some (j + pages_in g, t))
        × IsWalked s t (λ w a. weigh w a (chunk + j * block_size) g)
  unfolding walk_page
  walk_page-IsWalked j (unused n b) s held =
      let h = chunk + j * block_size in
      let entry : ArenaBlock = record { nvm_block = h; n_pages = n; arena = b } in
      let (usage, units, id, some_pages, small) = held in
      let read = arena_create_block_header_lem h n b s units id small in
      (put_block env b entry s, rw (usage, units, read) refl, put_block-IsWalked entry s)
  walk_page-IsWalked j run s held =
      let h = chunk + j * block_size in
      let (found, t, e, is) = renew_run-IsRenewed h s held.1 in
      (
        t,
        rw (held.0, e) refl,
        record {
          trees = λ w a. ap (λ r. weight w (r a).free_pageruns) is.arenas ∙ omega arith;
          free_chunks = is.free_chunks;
          nvm_start = is.nvm_start;
          kept = λ x k.
              is.kept x (λ z. k.0 (omega (arith, z, aligned)))
                (λ z. k.1 (omega (arith, z, aligned)));
        },
      )
  walk_page-IsWalked j (in_use n) s held =
      (s, rw (ne→== _ _ held.0, ne→== _ _ held.1, held.2) refl, IsWalked-refl s)
