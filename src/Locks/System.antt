-- ===== src/Locks/System.antt =====
-- Threads that make any calls of src/nvm_malloc.c at the same time, with the recovery thread.
use nvm_malloc.Base.{ℕ, ◌+◌, ◌≡◌, ◌≢◌, ◌⊎◌, refl, true, List, [], ◌∷◌}
use nvm_malloc.Links.{Links}
use nvm_malloc.State.{State, Env}
use nvm_malloc.Locks.{Mutex, Program, done, ◌>>=◌, ◌>>◌, Machine, advance, Reachable}
use nvm_malloc.Locks.Discipline.{IsKept, >>=-IsDisciplined}
use nvm_malloc.Locks.Exclusion.{Reachable-IsKept, Reachable-released}
use nvm_malloc.Locks.Waiting.{follow}
use nvm_malloc.Locks.Progress.{Reachable-returns}
use nvm_malloc.Locks.Calls.{nvm_reserve_steps}
use nvm_malloc.Locks.Calls.Frees.{nvm_free_steps, nvm_activate_steps}
use nvm_malloc.Locks.Calls.Recovery.{recovery_steps}
use nvm_malloc.Locks.Protocol.{IsNeutral, nvm_reserve-IsNeutral}
use nvm_malloc.Locks.Protocol.Frees.{nvm_free-IsNeutral, nvm_activate-IsNeutral}
use nvm_malloc.Locks.Protocol.Recovery.{recovery-IsNeutral}

-- `tid` is the thread's own number; the recovery thread has the number of chunks.
pub data Call : Type 0 where
  reserve : (tid n_bytes : ℕ) → Call
  activate free : (ptr : ℕ) → Links → Call
  recover : (n_chunks : ℕ) → Call

module _ (env : Env) where
  -- The result of a call without one is 0.
  unfoldable pub call_steps : Call → Program ℕ
  call_steps (reserve tid n_bytes) = nvm_reserve_steps env tid n_bytes
  call_steps (activate ptr l) = do nvm_activate_steps ptr l; done 0
  call_steps (free ptr l) = do nvm_free_steps env ptr l; done 0
  call_steps (recover n_chunks) = do recovery_steps env n_chunks; done 0

  -- The calls of a thread in turn, with their results.
  unfoldable pub session : List Call → Program (List ℕ)
  session [] = done []
  session (c ∷ cs) = do r ← call_steps c; rs ← session cs; done (r ∷ rs)

  call_steps-IsNeutral : (c : Call) → IsNeutral [] (call_steps c)
  unfolding call_steps
  call_steps-IsNeutral (reserve tid n_bytes) = nvm_reserve-IsNeutral env tid n_bytes
  call_steps-IsNeutral (activate ptr l) =
      >>=-IsDisciplined [] [] [] (nvm_activate_steps ptr l) _ (nvm_activate-IsNeutral ptr l)
        (λ _. refl)
  call_steps-IsNeutral (free ptr l) =
      >>=-IsDisciplined [] [] [] (nvm_free_steps env ptr l) _ (nvm_free-IsNeutral env ptr l)
        (λ _. refl)
  call_steps-IsNeutral (recover n_chunks) =
      >>=-IsDisciplined [] [] [] (recovery_steps env n_chunks) _ (recovery-IsNeutral env n_chunks)
        (λ _. refl)

  session-IsNeutral : (cs : List Call) → IsNeutral [] (session cs)
  unfolding session
  session-IsNeutral [] = refl
  session-IsNeutral (c ∷ cs) =
      >>=-IsDisciplined [] [] [] (call_steps c) _ (call_steps-IsNeutral c)
        (λ r. >>=-IsDisciplined [] [] [] (session cs) _ (session-IsNeutral cs) (λ rs. refl))

  module _ (calls : ℕ → List Call) (s₀ : State) (s : Machine (List ℕ))
      (path : Reachable (λ i. session (calls i)) s₀ s) where
    -- Let each thread make any calls of `nvm_reserve`, `nvm_activate` and `nvm_free`, or be the
    -- recovery thread. However the threads are interleaved, a step of a thread that is not the
    -- owner of a mutex leaves what the mutex guards as it is: the free blocks of an arena, a bin,
    -- the free huge regions, or the mapped space.
    pub session-IsKept :
        (i : ℕ) (m : Mutex) → s.owner m ≢ i + 1 → IsKept m s.state (advance i s).state
    session-IsKept =
        Reachable-IsKept (λ i. session (calls i)) (λ i. session-IsNeutral (calls i)) s₀ s path

    -- A thread that has made all of its calls owns no mutex.
    session-released :
        (i : ℕ) (rs : List ℕ) → s.threads i ≡ done rs → (m : Mutex) → s.owner m ≢ i + 1
    session-released =
        Reachable-released (λ i. session (calls i)) (λ i. session-IsNeutral (calls i)) s₀ s path

    -- Let each thread make any calls of `nvm_reserve`, `nvm_activate` and `nvm_free`, or be the
    -- recovery thread. There is no deadlock: from whatever they have come to, there is for each
    -- thread a schedule by which it makes all of its calls, or by which the process ends in an
    -- assertion, an error exit, a wild access or a loop for ever.
    pub session-returns :
        (i : ℕ)
        → (is : List ℕ) × (((follow is s).exited ≡ true)
            ⊎ ((rs : List ℕ) × ((follow is s).threads i ≡ done rs)))
    session-returns =
        Reachable-returns (λ i. session (calls i)) (λ i. session-IsNeutral (calls i)) s₀ s path
