-- ===== src/Header/Plain.antt =====
-- An activation or a free of a huge region or a large block without links.
use nvm_malloc.Base.{
  ℕ, ◌+◌, ◌≡◌, ◌⊎◌, inl, inr, arith, bit_or, ◌∷◌, [], ◌++◌, All, All-map, update, update_self, refl,
}
use nvm_malloc.Types.{get_state, state_initialized, state_activating, state_freeing, usage_free}
use nvm_malloc.Types.Block
use nvm_malloc.Nvm.{Mem, Event, store, fence, crash, clear_on, persist}
use nvm_malloc.Nvm.Crash.{Keeps, Always-crash, Always-of_Keeps}
use nvm_malloc.Links.{no_links}
use nvm_malloc.Links.Exec.{commit_links-none}
use nvm_malloc.Links.Phases.{IsBodyStore, Before}
use nvm_malloc.Links.Keeps.{Before-Keeps}
use nvm_malloc.Header.{Kind, huge, block, usage_of, settle, activate, free}
use nvm_malloc.Header.Atomic.{Recovers}
use nvm_malloc.Header.Repair.{Anything, recover-initialized}

module _ (start : ℕ) (kind : Kind) (h : ℕ) (m : Mem) (ready : get_state (m h) ≡ state_initialized)
    (k : ℕ) where
  -- The state byte is as it was or `fin`, and no cell outside the header has changed.
  abbrev pub Settled : (fin : ℕ) → Mem → Type 0
  Settled fin n = Before h h Anything m (m h) n ⊎ Before h h Anything m fin n

  body-Keeps : (fin : ℕ) (e : Event) → IsBodyStore h h e → Keeps (Settled fin) e
  body-Keeps fin e body n (inl b) = inl (Before-Keeps h h Anything m (m h) e body n b)
  body-Keeps fin e body n (inr b) = inr (Before-Keeps h h Anything m fin e body n b)

  with_state :
      (fin old : ℕ) (n : Mem)
      → Before h h Anything m old n
      → Before h h Anything m fin (update n h fin)
  with_state fin old n b = record {
    state = update_self n h fin;
    cell = tt;
    same = λ a out. ground (arith, b.same a out);
  }

  state-Keeps : (fin : ℕ) → Keeps (Settled fin) (store h fin)
  state-Keeps fin n (inl b) = inr (with_state fin (m h) n b)
  state-Keeps fin n (inr b) = inr (with_state fin fin n b)

  settle-Keeps : (fin : ℕ) → All (Keeps (Settled fin)) (settle h fin)
  settle-Keeps fin = (
    state-Keeps fin,
    All-map {P = IsBodyStore h h} (fence ∷ (clear_on (h + Block.on) ++ persist h)) (body-Keeps fin)
        (omega arith),
  )

  settle-Recovers :
      (fin : ℕ)
      → get_state fin ≡ state_initialized
      → Recovers start kind h (Settled fin) (crash k (settle h fin) m)
  settle-Recovers fin fin_state = recovers (crash k (settle h fin) m) (
      Always-crash (Settled fin) (settle h fin) m
        (Always-of_Keeps (Settled fin) (settle h fin) m (settle-Keeps fin)
          (inl (record { state = refl; cell = tt; same = λ a out. refl })))
        k)
    where
      recovers : (n : Mem) → Settled fin n → Recovers start kind h (Settled fin) n
      recovers n (inl b) = ([], _, recover-initialized start kind h n (rw b.state ready), inl b)
      recovers n (inr b) = ([], _, recover-initialized start kind h n (rw b.state fin_state), inr b)

  in_use : (kd : Kind) → get_state (bit_or (usage_of kd) state_initialized) ≡ state_initialized
  in_use huge = refl
  in_use block = refl

  -- Let a header's state be INITIALIZED. Wherever a crash falls in an activation or in a free
  -- without links, recovery passes its assertion, leaves the state byte as it was or as the
  -- operation ends it, and changes no cell outside the header.
  activate-free-Settled :
      Recovers start kind h
        (Settled (bit_or (usage_of kind) state_initialized))
        (crash k (activate start kind h no_links) m)
      × Recovers start kind h
          (Settled (bit_or usage_free state_initialized))
          (crash k (free start kind h no_links) m)
  unfolding activate free
  activate-free-Settled = (
    rw (commit_links-none start h (h + Block.on) (bit_or (usage_of kind) state_activating))
        (settle-Recovers (bit_or (usage_of kind) state_initialized) (in_use kind)),
    rw (commit_links-none start h (h + Block.on) (bit_or (usage_of kind) state_freeing))
        (settle-Recovers (bit_or usage_free state_initialized) refl),
  )
