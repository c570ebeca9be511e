-- ===== src/Slot/Plain.antt =====
-- A change of a slot without links, as `nvm_activate_id` and `nvm_free_id` make it.
use nvm_malloc.Base.{
  ℕ, ◌+◌, ◌%◌, ◌≡◌, ◌⊎◌, inl, inr, ◌<◌, arith, [], All, All-map, update, update_self, update-ne,
  ◌∙◌, refl,
}
use nvm_malloc.Types.Run
use nvm_malloc.Nvm.{Mem, Event, store, crash}
use nvm_malloc.Nvm.Crash.{Keeps, Always-crash, Always-of_Keeps}
use nvm_malloc.Links.{no_links}
use nvm_malloc.Links.Phases.{IsBodyStore, Before}
use nvm_malloc.Links.Exec.{commit_links-none}
use nvm_malloc.Links.Keeps.{Before-Keeps}
use nvm_malloc.Slot.{Change, pending, committed, changed, settled, byte_of, unlock, change}
use nvm_malloc.Slot.Atomic.{Recovers}
use nvm_malloc.Slot.Repair.{reset-Before, recover-settled, recover-pending}

module _ (start version run : ℕ) (ch : Change) (h idx : ℕ) (m : Mem) (range : idx < 64)
    (ready : m h ≡ settled) where
  abbrev c : ℕ
  c = byte_of h idx

  -- The bit's byte is as before, or has the bit changed.
  abbrev IsEither : ℕ → Type 0
  IsEither v = (v ≡ m (byte_of h idx)) ⊎ (v ≡ changed ch (m (byte_of h idx)) (idx % 8))

  abbrev Started : Mem → Type 0
  Started n = Before h c IsEither m settled n ⊎ Before h c IsEither m (pending ch) n

  body-Keeps : (e : Event) → IsBodyStore h c e → Keeps Started e
  body-Keeps e body n (inl b) = inl (Before-Keeps h c IsEither m settled e body n b)
  body-Keeps e body n (inr b) = inr (Before-Keeps h c IsEither m (pending ch) e body n b)

  with_state :
      (st old : ℕ) (n : Mem)
      → Before h c IsEither m old n
      → Before h c IsEither m st (update n h st)
  with_state st old n b = record {
    state = update_self n h st;
    cell = ground (arith, b.cell);
    same = λ a out. ground (arith, b.same a out);
  }

  lock-Keeps : Keeps Started (store h (pending ch))
  lock-Keeps n (inl b) = inr (with_state (pending ch) settled n b)
  lock-Keeps n (inr b) = inr (with_state (pending ch) (pending ch) n b)

  unlock-Keeps : Keeps Started (store h settled)
  unlock-Keeps n (inl b) = inl (with_state settled settled n b)
  unlock-Keeps n (inr b) = inl (with_state settled (pending ch) n b)

  marked :
      (st : ℕ) (n : Mem)
      → Before h c IsEither m st n
      → Before h c IsEither m st (update n c (changed ch (m c) (idx % 8)))
  marked st n b = record {
    state = update-ne n c (changed ch (m c) (idx % 8)) h (omega arith) ∙ b.state;
    cell = inr (update_self n c (changed ch (m c) (idx % 8)));
    same = λ a out. ground (arith, b.same a out);
  }

  mark_bit-Keeps : Keeps Started (store c (changed ch (m c) (idx % 8)))
  mark_bit-Keeps n (inl b) = inl (marked settled n b)
  mark_bit-Keeps n (inr b) = inr (marked (pending ch) n b)

  rest-Keeps : All (Keeps Started) (unlock h)
  rest-Keeps = All-map {P = IsBodyStore h c} (unlock h) body-Keeps (omega arith)

  change-Keeps : All (Keeps Started) (change start ch m h idx no_links)
  unfolding change
  change-Keeps = rw (commit_links-none start h (h + Run.on) (committed ch)) (
    lock-Keeps,
    (
      body-Keeps (store (h + Run.bit_idx) idx) (omega arith),
      (λ n p. p, (mark_bit-Keeps, (λ n p. p, (unlock-Keeps, rest-Keeps)))),
    ),
  )

  recover-Started :
      (n : Mem) → Started n → Recovers start version run h (Before h c IsEither m settled) n
  recover-Started n (inl b) = (
    [],
    recover-settled start h n b.state,
    reset-Before h c (omega arith) version run IsEither m settled n b,
  )
  recover-Started n (inr b) = (
    [],
    recover-pending start h n ch b.state,
    reset-Before h c (omega arith) version run IsEither m (pending ch) n b,
  )

  -- Let a run be settled, and one of its 64 slots be changed without links. Wherever a crash falls
  -- in the change, recovery passes its assertion, settles the run, leaves the byte of the bitmap
  -- as it was or with the slot's bit changed, and changes no cell outside the header.
  change-Before :
      (k : ℕ)
      → Recovers start version run h
          (Before h c IsEither m settled)
          (crash k (change start ch m h idx no_links) m)
  change-Before k = recover-Started (crash k (change start ch m h idx no_links) m) (
      Always-crash Started (change start ch m h idx no_links) m
        (Always-of_Keeps Started (change start ch m h idx no_links) m change-Keeps
          (inl (record { state = ready; cell = inl refl; same = λ a out. refl })))
        k)
