-- ===== src/Locks/Protocol/Frees.antt =====
-- The order of the mutexes in `nvm_free` and `nvm_activate` of src/nvm_malloc.c.
use nvm_malloc.Base.{
  ℕ, ◌+◌, ◌*◌, ◌/◌, ◌%◌, ◌≡◌, inl, inr, refl, subst, arith, Bool, true, false, Option, none, some,
  some-pair, none-some, List, [], ◌∷◌, ltb, ◌==◌, if◌then◌else◌, Bool-cases,
}
use nvm_malloc.Types.{block_size, chunk_size, header_size, usage_free, usage_block, usage_run}
use nvm_malloc.Types.Run
use nvm_malloc.Links.{Links}
use nvm_malloc.State.{State, Env, set_run}
use nvm_malloc.Arena.{run_initialized}
use nvm_malloc.Arena.Free.{arena_create_run_header, release_in}
use nvm_malloc.NvmMalloc.{log_activate}
use nvm_malloc.Locks.{Mutex, run_state, bin_mtx, arena_mtx, huge_mtx}
use nvm_malloc.Locks.Discipline.{IsBelow, IsGuarded, >>=-IsDisciplined, if-IsDisciplined}
use nvm_malloc.Locks.Guards.{
  IsQuiet, fields-IsQuiet, IsQuiet-IsGuarded, IsOnly, IsOnly-IsGuarded, set_bin-IsOnly,
  set_huges-IsOnly, IsKept-trans,
}
use nvm_malloc.Locks.Effects.{put_block-IsOnly}
use nvm_malloc.Locks.Protocol.{IsNeutral, quiet}
use nvm_malloc.Locks.Calls.Frees.{
  seize, set_header, renew_run_steps, free_large_steps, nvm_free_huge_steps, free_small_steps,
  arena_free_steps, nvm_free_steps, activate_slot_steps, nvm_activate_steps,
}

-- A part that may end the process, and changes nothing that a mutex guards.
part-IsGuarded :
    {B : Type 0} (held : List Mutex) (f : State → Option (B × State))
    → ((s t : State) (b : B) → f s ≡ some (b, t) → IsQuiet s t)
    → IsGuarded held f
part-IsGuarded held f q s t b e m h = q s t b e m

if-IsQuiet :
    {B : Type 0} (t : Bool) (b c : B) (s u v : State)
    → IsQuiet s v
    → ◌≡◌ {A = Option (B × State)} (if t then some (b, v) else none) (some (c, u))
    → IsQuiet s u
if-IsQuiet true b c s u v q e m = subst (λ w. IsQuiet s w) (some-pair e).1 q m
if-IsQuiet false b c s u v q e m = absurd (none-some e)

create_header-IsQuiet :
    (h : ℕ) (s t : State) (run : ℕ) → arena_create_run_header h s ≡ some (run, t) → IsQuiet s t
unfolding arena_create_run_header
create_header-IsQuiet h s t run e = elim (Bool-cases (ltb (s.mem (h + Run.n_bytes)) 64)) [
  | inl z ↦ absurd (none-some (rw z at e))
  | inr z ↦
      λ m. subst (λ w. IsQuiet s w) (some-pair (rw z at e)).1 (fields-IsQuiet s _ refl refl refl) m
]

set_header-IsQuiet : (h old run : ℕ) (s : State) → IsQuiet s (set_header h old run s)
set_header-IsQuiet h old run s m = elim (Bool-cases (s.mem (h + Run.vdata) == old)) [
  | inl z ↦ rw (z, set_header) (fields-IsQuiet s _ refl refl refl m)
  | inr z ↦ rw (z, set_header) (fields-IsQuiet s s refl refl refl m)
]

release_in-IsOnly :
    (arena bin run idx : ℕ) (s : State)
    → IsOnly (bin_mtx arena bin) s (release_in arena bin run idx s)
release_in-IsOnly arena bin run idx s m e =
    IsKept-trans m s (set_run run _ s) _ (fields-IsQuiet s _ refl refl refl m)
      (set_bin-IsOnly arena bin _ (set_run run _ s) m e)

pub renew_run-IsNeutral :
    (held : List Mutex) (h : ℕ) → IsBelow held 1 → IsNeutral held (renew_run_steps h)
unfolding renew_run_steps
renew_run-IsNeutral held h below = (
  IsQuiet-IsGuarded held _ (λ s. fields-IsQuiet s s refl refl refl),
  λ (older, old).
      if-IsDisciplined held held older _ _
        (λ _. (
          part-IsGuarded held (arena_create_run_header h) (create_header-IsQuiet h),
          λ run. (
            IsQuiet-IsGuarded held _ (λ s. fields-IsQuiet s s refl refl refl),
            λ (arena, bin). (
              below,
              (
                IsQuiet-IsGuarded (bin_mtx arena bin ∷ held) _ (set_header-IsQuiet h old run),
                λ _. (held, refl, quiet held _ (λ s. fields-IsQuiet s s refl refl refl)),
              ),
            ),
          ),
        ))
        (λ _. refl),
)

free_small-IsNeutral : (h ptr : ℕ) (l : Links) → IsNeutral [] (free_small_steps h ptr l)
unfolding free_small_steps
free_small-IsNeutral h ptr l =
    let held = run_state h ∷ [] in
    (
      tt,
      (
        part-IsGuarded held (seize h _) (λ s t b e.
            if-IsQuiet (s.mem h == run_initialized) _ b s t _ (fields-IsQuiet s _ refl refl refl)
              e),
        λ _.
            >>=-IsDisciplined held held [] (renew_run_steps h) _
              (renew_run-IsNeutral held h (omega arith, tt))
              (λ run. (
                IsQuiet-IsGuarded held _ (λ s. fields-IsQuiet s _ refl refl refl),
                λ (idx, arena, bin). (
                  [],
                  refl,
                  (
                    tt,
                    (
                      IsOnly-IsGuarded (bin_mtx arena bin) [] _
                          (release_in-IsOnly arena bin run idx),
                      λ _. ([], refl, refl),
                    ),
                  ),
                ),
              )),
      ),
    )

module _ (env : Env) where
  free_large-IsNeutral : (h : ℕ) (l : Links) → IsNeutral [] (free_large_steps env h l)
  unfolding free_large_steps
  free_large-IsNeutral h l = (
    IsQuiet-IsGuarded [] _ (λ s. fields-IsQuiet s _ refl refl refl),
    λ b. (
      tt,
      (
        IsOnly-IsGuarded (arena_mtx b.arena) [] _ (put_block-IsOnly env b.arena b),
        λ _. ([], refl, refl),
      ),
    ),
  )

  nvm_free_huge-IsNeutral : (h : ℕ) (l : Links) → IsNeutral [] (nvm_free_huge_steps env h l)
  unfolding nvm_free_huge_steps
  nvm_free_huge-IsNeutral h l = (
    IsQuiet-IsGuarded [] _ (λ s. fields-IsQuiet s _ refl refl refl),
    λ huge.
        (tt, (IsOnly-IsGuarded huge_mtx [] _ (λ s. set_huges-IsOnly _ s), λ _. ([], refl, refl))),
  )

  pub nvm_free-IsNeutral : (ptr : ℕ) (l : Links) → IsNeutral [] (nvm_free_steps env ptr l)
  unfolding nvm_free_steps arena_free_steps
  nvm_free-IsNeutral ptr l =
      let h = ptr / block_size * block_size in
      (
        IsQuiet-IsGuarded [] _ (λ s. fields-IsQuiet s s refl refl refl),
        λ rel_ptr.
            if-IsDisciplined [] [] (rel_ptr % chunk_size == header_size) _ _
              (λ _. nvm_free_huge-IsNeutral _ l)
              (λ _. (
                IsQuiet-IsGuarded [] _ (λ s. fields-IsQuiet s s refl refl refl),
                λ usage.
                    if-IsDisciplined [] [] (usage == usage_block) _ _
                      (λ _. free_large-IsNeutral h l)
                      (λ _.
                        if-IsDisciplined [] [] (usage == usage_run) _ _
                          (λ _. free_small-IsNeutral h ptr l) (λ _. refl)),
              )),
      )

activate_slot-IsNeutral : (h ptr : ℕ) (l : Links) → IsNeutral [] (activate_slot_steps h ptr l)
unfolding activate_slot_steps
activate_slot-IsNeutral h ptr l = (
  part-IsGuarded [] _ (λ s t b e.
      if-IsQuiet (ltb 0 (s.mem (h + Run.n_bytes))) _ b s t _ (fields-IsQuiet s s refl refl refl) e),
  λ idx. (
    tt,
    (
      part-IsGuarded (run_state h ∷ []) _ (λ s t b e.
          if-IsQuiet (s.mem h == run_initialized) _ b s t _ (fields-IsQuiet s _ refl refl refl) e),
      λ _. ([], refl, refl),
    ),
  ),
)

pub nvm_activate-IsNeutral : (ptr : ℕ) (l : Links) → IsNeutral [] (nvm_activate_steps ptr l)
unfolding nvm_activate_steps log_activate
nvm_activate-IsNeutral ptr l = (
  IsQuiet-IsGuarded [] _ (λ s. fields-IsQuiet s _ refl refl refl),
  λ _. (
    IsQuiet-IsGuarded [] _ (λ s. fields-IsQuiet s s refl refl refl),
    λ (rel_ptr, usage).
        if-IsDisciplined [] [] (rel_ptr % chunk_size == header_size) _ _
          (λ _. quiet [] _ (λ s. fields-IsQuiet s _ refl refl refl))
          (λ _.
            if-IsDisciplined [] [] (usage == usage_free) _ _
              (λ _. quiet [] _ (λ s. fields-IsQuiet s _ refl refl refl))
              (λ _. activate_slot-IsNeutral _ ptr l)),
  ),
)
