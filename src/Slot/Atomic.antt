-- ===== src/Slot/Atomic.antt =====
-- Crashes in an activation or a free, with links, of a slot of a run, and their recovery:
-- src/nvm_malloc.c and src/arena.c.
use nvm_malloc.Base.{
  ℕ, ◌+◌, ◌%◌, ◌≡◌, ◌⊎◌, inl, inr, arith, some, List, [], ◌∷◌, ◌++◌, All, ◌<◌, refl, update,
  update_self, update-ne, ◌∙◌,
}
use nvm_malloc.Bits.{set_bit_idem, clear_bit_idem}
use nvm_malloc.Types.{rel_to_abs_with_null}
use nvm_malloc.Types.Run
use nvm_malloc.Nvm.{Mem, Event, store, exec, crash}
use nvm_malloc.Nvm.Crash.{Keeps, exec-append, Always, Always-crash, Always-map}
use nvm_malloc.Links.{Links, replay_links, record_links, commit_links}
use nvm_malloc.Links.Phases.{Fits, Before, Committed, Finished}
use nvm_malloc.Links.Commit.{record_links-Recorded, record_links-other}
use nvm_malloc.Links.Replay.{replay_links-Finished}
use nvm_malloc.Links.Atomic.{transaction-Phase}
use nvm_malloc.Slot.{
  Change, activating, freeing, pending, committed, changed, settled, byte_of, mark, unlock, change,
  recover, reset,
}
use nvm_malloc.Slot.Repair.{
  reset-Before, reset-Finished, mark-Finished, recover-settled, recover-pending, recover-committed,
}

-- The state byte is settled. Undone: the bit's byte is as before, and no cell outside the header
-- has changed. Or done: the bit is changed, the links hold their targets, relative or (where
-- recovery wrote them) absolute, and no other cell outside the header has changed.
abbrev pub Outcome : (start : ℕ) → Change → (h idx : ℕ) → Links → Mem → Mem → Type 0
Outcome start ch h idx l m₀ m =
    Before h (byte_of h idx) (λ v. v ≡ m₀ (byte_of h idx)) m₀ settled m
    ⊎ Finished h (byte_of h idx) (λ v. v ≡ changed ch (m₀ (byte_of h idx)) (idx % 8)) m₀ start
        settled (λ v. v) l m
    ⊎ Finished h (byte_of h idx) (λ v. v ≡ changed ch (m₀ (byte_of h idx)) (idx % 8)) m₀ start
        settled (rel_to_abs_with_null start) l m

-- Recovery of the run at `h` passes its assertion, and ends in a memory for which `P` holds.
abbrev pub Recovers : (start version run h : ℕ) → (Mem → Type 0) → Mem → Type 0
Recovers start version run h P m =
    (es : List Event) × (recover start m h ≡ some es) × P (exec (es ++ reset h version run) m)

changed_idem :
    (ch : Change) (b i : ℕ) → b < 256 → i < 8 → changed ch (changed ch b i) i ≡ changed ch b i
changed_idem activating b i hb hi = set_bit_idem b i hb hi
changed_idem freeing b i hb hi = clear_bit_idem b i hb hi

module _ (start version run : ℕ) (ch : Change) (h idx : ℕ) (l : Links) (fit : Fits start h l)
    (m : Mem) (range : idx < 64) (byte : m (byte_of h idx) < 256) (clear : m (h + Run.on + 16) ≡ 0)
    (ready : m h ≡ settled) where
  abbrev c : ℕ
  c = byte_of h idx

  abbrev old : ℕ
  old = m c

  abbrev new : ℕ
  new = changed ch old (idx % 8)

  abbrev IsOld : ℕ → Type 0
  IsOld v = v ≡ old

  abbrev IsNew : ℕ → Type 0
  IsNew v = v ≡ new

  abbrev IsEither : ℕ → Type 0
  IsEither v = IsOld v ⊎ IsNew v

  -- Memory once the run is locked and the slot named.
  abbrev named : Mem
  named = update (update m h (pending ch)) (h + Run.bit_idx) idx

  abbrev recorded : Mem
  recorded = exec (record_links start (h + Run.on) l) named

  named-Before : Before h c IsOld m (pending ch) named
  named-Before = record { state = ground arith; cell = ground arith; same = λ a out. ground arith }

  locked-Before : Before h c IsOld m (pending ch) (update m h (pending ch))
  locked-Before = record { state = ground arith; cell = ground arith; same = λ a out. ground arith }

  recorded_idx : recorded (h + Run.bit_idx) ≡ idx
  recorded_idx =
      record_links-other start h c (h + Run.on) l named (h + Run.bit_idx) (omega arith)
      ∙ update_self (update m h (pending ch)) (h + Run.bit_idx) idx

  -- From either value the bit ends as it should.
  changed_either : (v : ℕ) → IsEither v → changed ch v (idx % 8) ≡ new
  changed_either v (inl e) = rw e
  changed_either v (inr e) = rw e (changed_idem ch old (idx % 8) byte (omega arith))

  Started : Mem → Type 0
  Started n =
      Before h c IsOld m settled n
      ⊎ Before h c IsOld m (pending ch) n
      ⊎ Committed h c IsEither m (committed ch) l recorded n
      ⊎ Finished h c IsNew m start settled (λ v. v) l n

  mark-Keeps : All (Keeps (Committed h c IsEither m (committed ch) l recorded)) (mark ch m h idx)
  mark-Keeps = (
    λ n p. p,
    (
      λ n p. record {
        state = update-ne n c new h (omega arith) ∙ p.state;
        cell = inr (update_self n c new);
        body = λ a lo hi ne. update-ne n c new a ne ∙ p.body a lo hi ne;
        same = λ a out n1 n2. update-ne n c new a (ground arith) ∙ p.same a out n1 n2;
      },
      (λ n p. p, tt),
    ),
  )

  change-Started : Always Started (change start ch m h idx l) m
  unfolding change Started
  change-Started = (
    inl (record { state = ready; cell = refl; same = λ a out. refl }),
    (
      inr (inl locked-Before),
      Always-map
          (commit_links start h (h + Run.on) (committed ch) l
            ++ (mark ch m h idx ++ (store h settled ∷ unlock h)))
          named (λ n p. inr p)
          (transaction-Phase start h c (h + Run.on) l IsOld IsEither IsNew m (pending ch)
            (committed ch) settled fit (omega arith) (omega arith)
            (λ n v. inl (update-ne n h (committed ch) c (omega arith) ∙ v)) named named-Before
            (mark ch m h idx) (unlock h) mark-Keeps (λ n a out. update-ne n c new a (ground arith))
            (λ n. update-ne (update n c new) h settled c (omega arith) ∙ update_self n c new)
            (omega arith) (omega (arith, fit.first))),
    ),
  )

  recover-Outcome :
      (n : Mem) → Started n → Recovers start version run h (Outcome start ch h idx l m) n
  unfolding Started
  recover-Outcome n (inl b) = (
    [],
    recover-settled start h n b.state,
    inl (reset-Before h c (omega arith) version run IsOld m settled n b),
  )
  recover-Outcome n (inr (inl b)) = (
    [],
    recover-pending start h n ch b.state,
    inl (reset-Before h c (omega arith) version run IsOld m (pending ch) n b),
  )
  recover-Outcome n (inr (inr (inl p))) = (
    replay ++ marking,
    recover-committed start h n ch idx p.state named_idx (ground arith),
    inr (
        inr (
          rw (exec-append (replay ++ marking) (reset h version run) n, exec-append replay marking n)
            (reset-Finished h c (omega arith) version run IsNew m start (committed ch)
              (rel_to_abs_with_null start) l fit _
              (mark-Finished h c IsEither IsNew m start (committed ch) (rel_to_abs_with_null start)
                l _ _ (omega arith) fit (changed_either (n c) p.cell) replay_done)))),
  )
    where
      replay : List Event
      replay = replay_links start n (h + Run.on)

      marking : List Event
      marking = store c (changed ch (n c) (idx % 8)) ∷ []

      named_idx : n (h + Run.bit_idx) ≡ idx
      named_idx = p.body (h + Run.bit_idx) (omega arith) (omega arith) (omega arith) ∙ recorded_idx

      replay_done :
          Finished h c IsEither m start
            (committed ch)
            (rel_to_abs_with_null start)
            l
            (exec replay n)
      replay_done =
          replay_links-Finished start h c IsEither m (h + Run.on) (committed ch) l recorded n fit
            (omega arith) (omega arith)
            (record_links-Recorded start h c (h + Run.on) l named (ground (arith, clear))) p
  recover-Outcome n (inr (inr (inr f))) = (
    [],
    recover-settled start h n f.state,
    inr (
        inl
          (reset-Finished h c (omega arith) version run IsNew m start settled (λ v. v) l fit n f)),
  )

  -- Let the links of a change of one of 64 slots fit, the run be settled, its record of a second
  -- link be clear, and the slot's byte of the bitmap be a byte. Wherever a crash falls in the
  -- change, recovery passes its assertion and leaves the run settled, and either the byte of the
  -- bitmap as it was and no cell outside the header changed, or the slot's bit changed, both links
  -- holding their targets, relative or (where recovery wrote them) absolute, and no other cell
  -- outside the header changed.
  pub change-Outcome :
      (k : ℕ)
      → Recovers start version run h
          (Outcome start ch h idx l m)
          (crash k (change start ch m h idx l) m)
  change-Outcome k =
      recover-Outcome (crash k (change start ch m h idx l) m)
        (Always-crash Started (change start ch m h idx l) m change-Started k)
