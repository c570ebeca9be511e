-- ===== src/Locks/Effects.antt =====
-- What the parts of src/arena.c, src/chunk.c and src/nvm_malloc.c that stand under a mutex change.
use nvm_malloc.Base.{
  none-some, ℕ, ◌≡◌, inl, inr, refl, subst, arith, true, false, ◌||◌, Option, none, some,
  Option-cases, some-pair, ltb, ◌==◌, Bool-cases,
}
use nvm_malloc.Chunk.{activate_more_chunks}
use nvm_malloc.State.{ArenaBlock, State, Env, set_run}
use nvm_malloc.Arena.{
  put_block, place_run, cut_block, place_block, take_slot, slot_taken, find_slot, slots_per_run,
}
use nvm_malloc.Arena.Pages.{place_block-cut_block}
use nvm_malloc.Arena.Allocate.{install_run, listed_run}
use nvm_malloc.NvmMalloc.{thread_arena}
use nvm_malloc.Locks.{bin_mtx, arena_mtx, space_mtx}
use nvm_malloc.Locks.Guards.{
  IsQuiet, fields-IsQuiet, IsOnly, set_tree-IsOnly, set_bin-IsOnly, set_space-IsOnly, IsKept-trans,
}
use nvm_malloc.Locks.Calls.{grow}

pub install_run-IsOnly :
    (arena bin n_bytes run : ℕ) (s : State)
    → IsOnly (bin_mtx arena bin) s (install_run arena bin n_bytes run s)
install_run-IsOnly arena bin n_bytes run s = set_bin-IsOnly arena bin _ s

pub listed_run-IsOnly :
    (arena bin : ℕ) (s t : State) (run : ℕ)
    → listed_run arena bin s ≡ some (run, t)
    → IsOnly (bin_mtx arena bin) s t
listed_run-IsOnly arena bin s t run e =
    let b = (s.arenas arena).bins bin in
    elim (Bool-cases ((b.current_run == 0) || ((s.runs b.current_run).n_free == 0))) [
      | inl z ↦ elim (Bool-cases (b.runs == 0)) [
        | inl w ↦ absurd (none-some (rw (z, w) at e))
        | inr w ↦
            subst (IsOnly (bin_mtx arena bin) s) (some-pair (rw (z, w) at e)).1
              (set_bin-IsOnly arena bin _ s)
      ]
      | inr z ↦
          subst (IsOnly (bin_mtx arena bin) s) (some-pair (rw z at e)).1
            (λ m _. fields-IsQuiet s s refl refl refl m)
    ]

slot_taken-IsOnly :
    (arena bin n_bytes run : ℕ) (s : State) (found : Option ℕ)
    → IsOnly (bin_mtx arena bin) s (slot_taken arena bin n_bytes run s found).1
unfolding slot_taken
slot_taken-IsOnly arena bin n_bytes run s none m e =
    IsKept-trans m s (set_run run _ s) _ (fields-IsQuiet s _ refl refl refl m)
      (set_bin-IsOnly arena bin _ (set_run run _ s) m e)
slot_taken-IsOnly arena bin n_bytes run s (some i) m e =
    IsKept-trans m s (set_run run _ s) _ (fields-IsQuiet s _ refl refl refl m)
      (set_bin-IsOnly arena bin _ (set_run run _ s) m e)

pub take_slot-IsOnly :
    (arena bin n_bytes run : ℕ) (s : State)
    → IsOnly (bin_mtx arena bin) s (take_slot arena bin n_bytes run s).1
unfolding take_slot
take_slot-IsOnly arena bin n_bytes run s =
    slot_taken-IsOnly arena bin n_bytes run s
      (find_slot (s.runs run).bitmap (slots_per_run n_bytes) 0)

pub thread_arena-IsQuiet : (tid : ℕ) (s : State) → IsQuiet s (thread_arena tid s).1
unfolding thread_arena
thread_arena-IsQuiet tid s m = elim (Bool-cases (s.tidmap tid == 0)) [
  | inl z ↦ rw z (fields-IsQuiet s _ refl refl refl m)
  | inr z ↦ rw z (fields-IsQuiet s s refl refl refl m)
]

module _ (env : Env) where
  pub grow-IsOnly :
      (n : ℕ) (s t : State) (b : ℕ) → grow env n s ≡ some (b, t) → IsOnly space_mtx s t
  grow-IsOnly n s t b e = elim (Option-cases (activate_more_chunks env.os n s.space)) [
    | inl z ↦ ground (arith, z, e)
    | inr ((chunk, space), z) ↦
        subst (IsOnly space_mtx s) (some-pair (rw (z, grow) at e)).1 (set_space-IsOnly space s)
  ]

  pub put_block-IsOnly :
      (arena : ℕ) (b : ArenaBlock) (s : State)
      → IsOnly (arena_mtx arena) s (put_block env arena b s)
  unfolding put_block
  put_block-IsOnly arena b s = set_tree-IsOnly arena _ s

  pub place_run-IsOnly :
      (arena bin n_bytes : ℕ) (b : ArenaBlock) (s : State)
      → ltb 1 b.n_pages ≡ true
      → IsOnly (arena_mtx arena) s (place_run env arena bin n_bytes b s).1
  unfolding place_run
  place_run-IsOnly arena bin n_bytes b s z m e =
      rw z (
        IsKept-trans m s _ _ (fields-IsQuiet s _ refl refl refl m) (put_block-IsOnly arena _ _ m e))

  pub place_run-IsQuiet :
      (arena bin n_bytes : ℕ) (b : ArenaBlock) (s : State)
      → ltb 1 b.n_pages ≡ false
      → IsQuiet s (place_run env arena bin n_bytes b s).1
  unfolding place_run
  place_run-IsQuiet arena bin n_bytes b s z m = rw z (fields-IsQuiet s _ refl refl refl m)

  cut_block-IsOnly :
      (arena n : ℕ) (b : ArenaBlock) (s : State)
      → ltb n b.n_pages ≡ true
      → IsOnly (arena_mtx arena) s (cut_block env arena n b s).1
  unfolding cut_block
  cut_block-IsOnly arena n b s z m e =
      rw z (
        IsKept-trans m s _ _ (fields-IsQuiet s _ refl refl refl m) (put_block-IsOnly arena _ _ m e))

  pub place_block-IsOnly :
      (arena n : ℕ) (b : ArenaBlock) (s t : State) (h : ℕ)
      → ltb n b.n_pages ≡ true
      → place_block env arena n b s ≡ some (h, t)
      → IsOnly (arena_mtx arena) s t
  place_block-IsOnly arena n b s t h z e =
      subst (λ (r : ℕ × State). IsOnly (arena_mtx arena) s r.1)
        (place_block-cut_block env arena n b s (h, t) e) (cut_block-IsOnly arena n b s z)

  pub cut_block-IsQuiet :
      (arena n : ℕ) (b : ArenaBlock) (s : State)
      → ltb n b.n_pages ≡ false
      → IsQuiet s (cut_block env arena n b s).1
  unfolding cut_block
  cut_block-IsQuiet arena n b s z m = rw z (fields-IsQuiet s s refl refl refl m)
