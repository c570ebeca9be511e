-- ===== src/Header/Atomic.antt =====
-- Crashes in an activation or a free, with links, of a huge region or a large block, and their
-- recovery: src/nvm_malloc.c and src/arena.c.
use nvm_malloc.Base.{
  ℕ, ◌+◌, ◌≡◌, ◌⊎◌, inl, inr, arith, bit_or, Bool, some, List, [], ◌∷◌, ◌++◌, refl,
}
use nvm_malloc.Types.{
  get_state, state_initialized, state_freeing, state_activating, rel_to_abs_with_null,
}
use nvm_malloc.Types.Block
use nvm_malloc.Nvm.{Mem, Event, fence, exec, crash, clear_on, persist}
use nvm_malloc.Nvm.Crash.{Always-crash}
use nvm_malloc.Links.{Links, record_links, commit_links}
use nvm_malloc.Links.Phases.{Fits, Before, Committed, Finished, Recorded}
use nvm_malloc.Links.Commit.{record_links-Recorded}
use nvm_malloc.Links.Atomic.{Phase, transaction-Phase}
use nvm_malloc.Header.{Kind, huge, block, usage_of, settle, recover}
use nvm_malloc.Header.Repair.{Anything, recover-initialized}

-- Undone: the state byte is `old`, and no cell outside the header has changed. Or done: the state
-- byte is `fin`, the links hold their targets, and no other cell outside the header has changed.
-- The targets are relative addresses if the crash came after the last state byte was written, and
-- absolute ones if recovery had to write them.
abbrev pub Outcome : (start h old fin : ℕ) → Links → Mem → Mem → Type 0
Outcome start h old fin l m₀ m =
    Before h h Anything m₀ old m
    ⊎ Finished h h Anything m₀ start fin (λ v. v) l m
    ⊎ Finished h h Anything m₀ start fin (rel_to_abs_with_null start) l m

-- Recovery of the header at `h` passes its assertion, and ends in a memory for which `P` holds.
abbrev pub Recovers : (start : ℕ) → Kind → ℕ → (Mem → Type 0) → Mem → Type 0
Recovers start kind h P m =
    (es : List Event) × (added : Bool) × (recover start kind m h ≡ some (es, added)) × P (exec es m)

module _ (start : ℕ) (kind : Kind) (h : ℕ) (l : Links) (fit : Fits start h l) (m₀ : Mem)
    (clear : m₀ (h + Block.on + 16) ≡ 0) where
  module _ (old st fin : ℕ) (m₁ : Mem) (rec : Recorded start (h + Block.on) l m₁)
      (old_state : get_state old ≡ state_initialized)
      (fin_state : get_state fin ≡ state_initialized) where
    -- `replays` says what recovery does in the committed state of this transaction.
    recover-Outcome :
        ((m : Mem)
          → Committed h h Anything m₀ st l m₁ m
          → Recovers start kind h
              (Finished h h Anything m₀ start fin (rel_to_abs_with_null start) l)
              m)
        → (m : Mem) → Phase start h h (h + Block.on) l Anything Anything Anything m₀ old st fin m₁ m
        → Recovers start kind h (Outcome start h old fin l m₀) m
    recover-Outcome replays m (inl b) =
        ([], _, recover-initialized start kind h m (rw b.state old_state), inl b)
    recover-Outcome replays m (inr (inl p)) =
        let (es, added, e, done) = replays m p in (es, added, e, inr (inr done))
    recover-Outcome replays m (inr (inr f)) =
        ([], _, recover-initialized start kind h m (rw f.state fin_state), inr (inl f))

pub states :
    (kind : Kind)
    → (get_state (bit_or (usage_of kind) state_initialized) ≡ state_initialized)
      × (get_state (bit_or (usage_of kind) state_activating) ≡ state_activating)
      × (get_state (bit_or (usage_of kind) state_freeing) ≡ state_freeing)
states huge = (refl, refl, refl)
states block = (refl, refl, refl)

module _ (start : ℕ) (kind : Kind) (h : ℕ) (l : Links) (fit : Fits start h l) (m : Mem)
    (clear : m (h + Block.on + 16) ≡ 0) (ready : get_state (m h) ≡ state_initialized) (k : ℕ) where
  untouched : Before h h Anything m (m h) m
  untouched = record { state = refl; cell = tt; same = λ a out. refl }

  -- Memory once the links are recorded.
  pub recorded : Mem
  recorded = exec (record_links start (h + Block.on) l) m

  -- The phases of an activation or a free, with its committed state `st` and its last state `fin`.
  pub settle-Phase :
      (st fin : ℕ)
      → Phase start h h
          (h + Block.on)
          l
          Anything
          Anything
          Anything
          m
          (m h)
          st
          fin
          recorded
          (crash k (commit_links start h (h + Block.on) st l ++ settle h fin) m)
  unfolding recorded
  settle-Phase st fin =
      Always-crash
        (Phase start h h (h + Block.on) l Anything Anything Anything m (m h) st fin recorded)
        (commit_links start h (h + Block.on) st l ++ settle h fin) m
        (transaction-Phase start h h (h + Block.on) l Anything Anything Anything m (m h) st fin fit
          (omega arith) (omega arith) (λ n v. tt) m untouched []
          (fence ∷ (clear_on (h + Block.on) ++ persist h)) tt (λ n a out. refl) (λ n. tt)
          (omega arith) (omega (arith, fit.first)))
        k

  pub recorded-Recorded : Recorded start (h + Block.on) l recorded
  unfolding recorded
  recorded-Recorded = record_links-Recorded start h h (h + Block.on) l m clear
