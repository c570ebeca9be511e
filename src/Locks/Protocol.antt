-- ===== src/Locks/Protocol.antt =====
-- The order of the mutexes in the calls of src/nvm_malloc.c and src/arena.c.
pub mod Frees
pub mod Recovery
use nvm_malloc.Base.{
  none-some, ℕ, ◌+◌, ◌-◌, ◌*◌, ◌/◌, ◌<◌, ◌≡◌, inl, inr, refl, sym, subst, ◌∙◌, ap, arith, Bool,
  true, false, ◌||◌, Option, none, some, Option-cases, some-pair, List, [], ◌∷◌, ltb, leb, ◌==◌,
  if◌then◌else◌, Bool-cases, update, update_self,
}
use nvm_malloc.Types.{block_size, sclass_small_max, sclass_large_max}
use nvm_malloc.Tree.{tree_upper_bound}
use nvm_malloc.Chunk.{activate_more_chunks}
use nvm_malloc.State.{
  ArenaBlock, Huge, Bin, Arena, State, Env, pages_of, chunks_of, set_mem, set_arena, set_bin,
  set_run,
}
use nvm_malloc.Arena.{
  take_found, put_block, place_run, cut_block, place_block, take_slot, slot_taken, find_slot,
  slots_per_run, small_size, large_size, bin_of, fresh_chunk,
}
use nvm_malloc.Arena.Allocate.{install_run, listed_run}
use nvm_malloc.NvmMalloc.{fresh_huge, cut_huge, chunks_for, thread_arena}
use nvm_malloc.Locks.{
  Mutex, run_state, bin_mtx, arena_mtx, huge_mtx, space_mtx, same, Program, done, lock, unlock,
  access, ◌>>=◌, ◌>>◌, acquire, release, perform,
}
use nvm_malloc.Locks.Discipline.{
  rank, has, IsBelow, IsKept, IsGuarded, IsDisciplined, >>=-IsDisciplined, if-IsDisciplined,
}
use nvm_malloc.Locks.Guards.{
  IsQuiet, fields-IsQuiet, IsQuiet-IsGuarded, IsOnly, only-IsGuarded, IsOnly-IsGuarded,
  set_tree-IsOnly, set_bin-IsOnly, set_space-IsOnly, set_huges-IsOnly, IsKept-trans,
}
use nvm_malloc.Locks.Calls.{
  compute, read, modify, grow, activate_chunks_steps, add_chunk_steps, take_found_steps,
  take_block_steps, create_run_steps, create_block_steps, choose_run_steps, allocate_small_steps,
  arena_allocate_steps, reserve_huge_steps, reserve_chunks_steps, nvm_reserve_steps,
}
use nvm_malloc.Locks.Effects.{
  install_run-IsOnly, listed_run-IsOnly, take_slot-IsOnly, thread_arena-IsQuiet, grow-IsOnly,
  put_block-IsOnly, place_run-IsOnly, place_run-IsQuiet, place_block-IsOnly, cut_block-IsQuiet,
}

-- A program that leaves the mutexes as it found them.
abbrev pub IsNeutral : {A : Type 0} → List Mutex → Program A → Type 0
IsNeutral held p = IsDisciplined held p held

IsBelow-weaken : (held : List Mutex) (r q : ℕ) → r < q → IsBelow held r → IsBelow held q
IsBelow-weaken [] r q lt b = tt
IsBelow-weaken (k ∷ held) r q lt b = (omega arith, IsBelow-weaken held r q lt b.1)

pub quiet :
    {B : Type 0} (held : List Mutex) (f : State → B × State)
    → ((s : State) → IsQuiet s (f s).1)
    → IsNeutral held (compute f)
quiet held f q = (IsQuiet-IsGuarded held f q, λ b. refl)

module _ (env : Env) where
  activate_chunks-IsNeutral :
      (held : List Mutex) (n : ℕ) → IsBelow held 3 → IsNeutral held (activate_chunks_steps env n)
  unfolding activate_chunks_steps
  activate_chunks-IsNeutral held n b = (
    b,
    (only-IsGuarded space_mtx held (grow env n) (grow-IsOnly env n), λ chunk. (held, refl, refl)),
  )

  add_chunk-IsNeutral :
      (held : List Mutex) (arena : ℕ) → IsBelow held 3 → IsNeutral held (add_chunk_steps env arena)
  unfolding add_chunk_steps
  add_chunk-IsNeutral held arena b =
      >>=-IsDisciplined held held held (activate_chunks_steps env 1) _
        (activate_chunks-IsNeutral held 1 b)
        (λ chunk. quiet held (fresh_chunk arena chunk) (λ s. fields-IsQuiet s _ refl refl refl))

  take_found-IsNeutral :
      (held : List Mutex) (arena : ℕ) (found : Option ArenaBlock)
      → IsBelow held 2
      → IsNeutral (arena_mtx arena ∷ held) (take_found_steps env arena found)
  unfolding take_found_steps take_found
  take_found-IsNeutral held arena none b =
      add_chunk-IsNeutral (arena_mtx arena ∷ held) arena
        (omega arith, IsBelow-weaken held 2 3 (omega arith) b)
  take_found-IsNeutral held arena (some x) b =
      (IsOnly-IsGuarded (arena_mtx arena) held _ (λ s. set_tree-IsOnly arena _ s), λ y. refl)

  take_block-IsNeutral :
      (held : List Mutex) (arena n : ℕ)
      → IsBelow held 2
      → IsNeutral (arena_mtx arena ∷ held) (take_block_steps env arena n)
  unfolding take_block_steps
  take_block-IsNeutral held arena n b = (
    IsQuiet-IsGuarded (arena_mtx arena ∷ held) _ (λ s. fields-IsQuiet s s refl refl refl),
    λ found. take_found-IsNeutral held arena found b,
  )

  create_run-IsNeutral :
      (held : List Mutex) (arena bin n_bytes : ℕ)
      → IsBelow held 2
      → IsNeutral held (create_run_steps env arena bin n_bytes)
  unfolding create_run_steps
  create_run-IsNeutral held arena bin n_bytes b =
      if-IsDisciplined held held (n_bytes == 0) _ _ (λ _. ((λ s t r e m h. cc), λ r. refl))
        (λ _. (
          b,
          >>=-IsDisciplined (arena_mtx arena ∷ held) _ held (take_block_steps env arena 1) _
              (take_block-IsNeutral held arena 1 b)
              (λ free.
                if-IsDisciplined (arena_mtx arena ∷ held) held (ltb 1 free.n_pages) _ _
                  (λ z. (
                    IsOnly-IsGuarded (arena_mtx arena) held _
                        (λ s. place_run-IsOnly env arena bin n_bytes free s z),
                    λ run. (held, refl, refl),
                  ))
                  (λ z. (
                    held,
                    refl,
                    quiet held _ (λ s. place_run-IsQuiet env arena bin n_bytes free s z),
                  ))),
        ))

  create_block-IsNeutral :
      (held : List Mutex) (arena n : ℕ)
      → IsBelow held 2
      → IsNeutral held (create_block_steps env arena n)
  unfolding create_block_steps
  create_block-IsNeutral held arena n b = (
    b,
    >>=-IsDisciplined (arena_mtx arena ∷ held) _ held (take_block_steps env arena n) _
        (take_block-IsNeutral held arena n b)
        (λ free.
          if-IsDisciplined (arena_mtx arena ∷ held) held (ltb n free.n_pages) _ _
            (λ z. (
              only-IsGuarded (arena_mtx arena) held _
                  (λ s t h. place_block-IsOnly env arena n free s t h z),
              λ h. (held, refl, refl),
            ))
            (λ z. (held, refl, quiet held _ (λ s. cut_block-IsQuiet env arena n free s z)))),
  )

  choose_run-IsNeutral :
      (arena bin n_bytes : ℕ)
      → IsNeutral (bin_mtx arena bin ∷ []) (choose_run_steps env arena bin n_bytes)
  unfolding choose_run_steps
  choose_run-IsNeutral arena bin n_bytes =
      let held = bin_mtx arena bin ∷ [] in
      (
        IsQuiet-IsGuarded held _ (λ s. fields-IsQuiet s s refl refl refl),
        λ full.
            if-IsDisciplined held held full _ _
              (λ _.
                >>=-IsDisciplined held held held (create_run_steps env arena bin n_bytes) _
                  (create_run-IsNeutral held arena bin n_bytes (omega arith, tt))
                  (λ run. (
                    IsOnly-IsGuarded (bin_mtx arena bin) [] _
                        (install_run-IsOnly arena bin n_bytes run),
                    λ _. refl,
                  )))
              (λ _. (
                only-IsGuarded (bin_mtx arena bin) [] _ (listed_run-IsOnly arena bin),
                λ run. refl,
              )),
      )

  allocate_small-IsNeutral :
      (arena bin n_bytes : ℕ) → IsNeutral [] (allocate_small_steps env arena bin n_bytes)
  unfolding allocate_small_steps
  allocate_small-IsNeutral arena bin n_bytes =
      let held = bin_mtx arena bin ∷ [] in
      (
        tt,
        >>=-IsDisciplined held held [] (choose_run_steps env arena bin n_bytes) _
            (choose_run-IsNeutral arena bin n_bytes)
            (λ run. (
              IsOnly-IsGuarded (bin_mtx arena bin) [] _ (take_slot-IsOnly arena bin n_bytes run),
              λ ptr. ([], refl, refl),
            )),
      )

  arena_allocate-IsNeutral :
      (arena n_bytes : ℕ) → IsNeutral [] (arena_allocate_steps env arena n_bytes)
  unfolding arena_allocate_steps
  arena_allocate-IsNeutral arena n_bytes =
      if-IsDisciplined [] [] (ltb sclass_large_max n_bytes) _ _
        (λ _. (λ s t r e m h. cc, λ r. refl))
        (λ _.
          if-IsDisciplined [] [] (leb n_bytes sclass_small_max) _ _
            (λ _.
              if-IsDisciplined [] [] (ltb (bin_of (small_size n_bytes)) 31) _ _
                (λ _.
                  allocate_small-IsNeutral arena (bin_of (small_size n_bytes)) (small_size n_bytes))
                (λ _. (λ s t r e m h. cc, λ r. refl)))
            (λ _.
              >>=-IsDisciplined [] [] []
                (create_block_steps env arena (large_size n_bytes / block_size)) _
                (create_block-IsNeutral [] arena (large_size n_bytes / block_size) tt) (λ h. refl)))

  reserve_huge-IsNeutral : (n : ℕ) → IsNeutral [] (reserve_huge_steps env n)
  unfolding reserve_huge_steps
  reserve_huge-IsNeutral n =
      >>=-IsDisciplined [] [] [] (activate_chunks_steps env n) _ (activate_chunks-IsNeutral [] n tt)
        (λ h. (IsQuiet-IsGuarded [] _ (λ s. fields-IsQuiet s _ refl refl refl), λ _. refl))

  reserve_chunks-IsDisciplined :
      (n : ℕ) (found : Option Huge)
      → IsDisciplined (huge_mtx ∷ []) (reserve_chunks_steps env n found) []
  unfolding reserve_chunks_steps
  reserve_chunks-IsDisciplined n none = ([], refl, reserve_huge-IsNeutral n)
  reserve_chunks-IsDisciplined n (some huge) = (
    IsOnly-IsGuarded huge_mtx [] _ (λ s. set_huges-IsOnly _ s),
    λ _. (
      [],
      refl,
      if-IsDisciplined [] [] (ltb n huge.n_chunks) _ _
          (λ _. (
            IsQuiet-IsGuarded [] _ (λ s. fields-IsQuiet s _ refl refl refl),
            λ _. (
              tt,
              (IsOnly-IsGuarded huge_mtx [] _ (λ s. set_huges-IsOnly _ s), λ _. ([], refl, refl)),
            ),
          ))
          (λ _. refl),
    ),
  )

  pub nvm_reserve-IsNeutral : (tid n_bytes : ℕ) → IsNeutral [] (nvm_reserve_steps env tid n_bytes)
  unfolding nvm_reserve_steps
  nvm_reserve-IsNeutral tid n_bytes =
      if-IsDisciplined [] [] (leb n_bytes sclass_large_max) _ _
        (λ _. (
          IsQuiet-IsGuarded [] _ (thread_arena-IsQuiet tid),
          λ arena. arena_allocate-IsNeutral arena n_bytes,
        ))
        (λ _. (
          tt,
          (
            IsQuiet-IsGuarded (huge_mtx ∷ []) _ (λ s. fields-IsQuiet s s refl refl refl),
            λ found.
                >>=-IsDisciplined (huge_mtx ∷ []) [] []
                  (reserve_chunks_steps env (chunks_for n_bytes) found) _
                  (reserve_chunks-IsDisciplined (chunks_for n_bytes) found) (λ h. refl),
          ),
        ))
