-- ===== src/Locks/Protocol/Recovery.antt =====
-- The order of the mutexes in `nvm_recovery_thread` of src/nvm_malloc.c.
use nvm_malloc.Base.{ℕ, zero, suc, ◌+◌, ◌*◌, ◌/◌, refl, [], ltb, ◌==◌}
use nvm_malloc.Types.{block_size, chunk_size, usage_free, usage_run, usage_arena}
use nvm_malloc.State.{Env}
use nvm_malloc.Locks.{arena_mtx}
use nvm_malloc.Locks.Discipline.{>>=-IsDisciplined, if-IsDisciplined}
use nvm_malloc.Locks.Guards.{fields-IsQuiet, IsQuiet-IsGuarded, IsOnly-IsGuarded}
use nvm_malloc.Locks.Effects.{put_block-IsOnly}
use nvm_malloc.Locks.Protocol.{IsNeutral, quiet}
use nvm_malloc.Locks.Protocol.Frees.{renew_run-IsNeutral}
use nvm_malloc.Locks.Calls.Frees.{renew_run_steps}
use nvm_malloc.Locks.Calls.Recovery.{
  list_block_steps, walk_page_steps, walk_pages_steps, walk_chunk_steps, walk_chunks_steps,
  recovery_steps,
}

module _ (env : Env) where
  list_block-IsNeutral : (h j : ℕ) → IsNeutral [] (list_block_steps env h j)
  unfolding list_block_steps
  list_block-IsNeutral h j = (
    IsQuiet-IsGuarded [] _ (λ s. fields-IsQuiet s s refl refl refl),
    λ b. (
      tt,
      (
        IsOnly-IsGuarded (arena_mtx b.arena) [] _ (put_block-IsOnly env b.arena b),
        λ _. ([], refl, quiet [] _ (λ s. fields-IsQuiet s s refl refl refl)),
      ),
    ),
  )

  walk_page-IsNeutral : (h j : ℕ) → IsNeutral [] (walk_page_steps env h j)
  unfolding walk_page_steps
  walk_page-IsNeutral h j = (
    IsQuiet-IsGuarded [] _ (λ s. fields-IsQuiet s s refl refl refl),
    λ usage.
        if-IsDisciplined [] [] (usage == usage_free) _ _ (λ _. list_block-IsNeutral h j)
          (λ _.
            if-IsDisciplined [] [] (usage == usage_run) _ _
              (λ _.
                >>=-IsDisciplined [] [] [] (renew_run_steps h) _ (renew_run-IsNeutral [] h tt)
                  (λ run. refl))
              (λ _. quiet [] _ (λ s. fields-IsQuiet s s refl refl refl))),
  )

  walk_pages-IsNeutral : (chunk fuel j : ℕ) → IsNeutral [] (walk_pages_steps env chunk fuel j)
  unfolding walk_pages_steps
  walk_pages-IsNeutral chunk zero j = (λ s t b e m h. cc, λ _. refl)
  walk_pages-IsNeutral chunk (suc fuel) j =
      if-IsDisciplined [] [] (ltb j (chunk_size / block_size)) _ _
        (λ _.
          >>=-IsDisciplined [] [] [] (walk_page_steps env (chunk + j * block_size) j) _
            (walk_page-IsNeutral (chunk + j * block_size) j)
            (λ j'. walk_pages-IsNeutral chunk fuel j'))
        (λ _. refl)

  walk_chunk-IsNeutral : (i : ℕ) → IsNeutral [] (walk_chunk_steps env i)
  unfolding walk_chunk_steps
  walk_chunk-IsNeutral i = (
    IsQuiet-IsGuarded [] _ (λ s. fields-IsQuiet s s refl refl refl),
    λ (chunk, usage).
        if-IsDisciplined [] [] (usage == usage_arena) _ _
          (λ _.
            >>=-IsDisciplined [] [] [] (walk_pages_steps env chunk 1024 1) _
              (walk_pages-IsNeutral chunk 1024 1) (λ _. refl))
          (λ _. quiet [] _ (λ s. fields-IsQuiet s s refl refl refl)),
  )

  walk_chunks-IsNeutral :
      (fuel n_chunks i : ℕ) → IsNeutral [] (walk_chunks_steps env fuel n_chunks i)
  unfolding walk_chunks_steps
  walk_chunks-IsNeutral zero n_chunks i = (λ s t b e m h. cc, λ _. refl)
  walk_chunks-IsNeutral (suc fuel) n_chunks i =
      if-IsDisciplined [] [] (ltb i n_chunks) _ _
        (λ _.
          >>=-IsDisciplined [] [] [] (walk_chunk_steps env i) _ (walk_chunk-IsNeutral i)
            (λ i'. walk_chunks-IsNeutral fuel n_chunks i'))
        (λ _. refl)

  pub recovery-IsNeutral : (n_chunks : ℕ) → IsNeutral [] (recovery_steps env n_chunks)
  unfolding recovery_steps
  recovery-IsNeutral n_chunks = walk_chunks-IsNeutral (n_chunks + 1) n_chunks 0
