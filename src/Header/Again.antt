-- ===== src/Header/Again.antt =====
-- Crashes in the middle of the recovery of a huge region or a large block:
-- `nvm_initialize_recovered` of src/nvm_malloc.c.
use nvm_malloc.Base.{
  ◌≢◌, ◌⊎◌, ℕ, ◌+◌, ◌≡◌, inl, inr, bit_or, Bool, some, List, refl, sym, ◌∙◌, some-pair, subst,
}
use nvm_malloc.Types.{get_state, state_initialized, state_freeing, state_activating, usage_free}
use nvm_malloc.Types.Block
use nvm_malloc.Nvm.{Mem, Event, crash}
use nvm_malloc.Nvm.Crash.{Always, Always-crash}
use nvm_malloc.Links.{Links}
use nvm_malloc.Links.Phases.{Outside, Fits, Recorded}
use nvm_malloc.Links.Atomic.{Phase}
use nvm_malloc.Slot.{Change, activating, freeing}
use nvm_malloc.Header.{Kind, usage_of, activate, free, recover}
use nvm_malloc.Header.Repair.{Anything, recover-activating, recover-freeing}
use nvm_malloc.Header.Atomic.{Outcome, Recovers, states, settle-Phase, recorded, recorded-Recorded}
use nvm_malloc.Header.Resume.{Interrupted, Mends, Phase-Interrupted, Interrupted-Resumes}

-- Memory after starts whose recovery was cut off, any number of them, each behind some of its
-- events.
pub data Attempts (start : ℕ) (kind : Kind) (h : ℕ) (m : Mem) : Mem → Type 0 where
  first : Attempts start kind h m m
  again :
      {n : Mem} {es : List Event} {added : Bool}
      → Attempts start kind h m n
      → recover start kind n h ≡ some (es, added)
      → (j : ℕ) → Attempts start kind h m (crash j es n)

module _ (start : ℕ) (kind : Kind) (h : ℕ) (l : Links) (fit : Fits start h l) (m₀ : Mem)
    (old st fin : ℕ) (m₁ : Mem) (rec : Recorded start (h + Block.on) l m₁)
    (mends : Mends start kind h l fit m₀ old st fin m₁ rec)
    (old_state : get_state old ≡ state_initialized)
    (fin_state : get_state fin ≡ state_initialized) where
  Interrupted-Attempts :
      (m n : Mem)
      → Interrupted start kind h l fit m₀ old st fin m₁ rec m
      → Attempts start kind h m n
      → Interrupted start kind h l fit m₀ old st fin m₁ rec n
  Interrupted-Attempts m n p first = p
  Interrupted-Attempts m n p (again {n = n₁} {es} path e j) =
      let q = Interrupted-Attempts m n₁ p path in
      let (fs, added, f, always, done) =
        Interrupted-Resumes start kind h l fit m₀ old st fin m₁ rec mends old_state fin_state n₁
          q in
      let same = some-pair (sym e ∙ f) in
      Always-crash (Interrupted start kind h l fit m₀ old st fin m₁ rec) es n₁
        (subst (λ x. Always (Interrupted start kind h l fit m₀ old st fin m₁ rec) x n₁) (sym same.0)
          always)
        j

-- The two transactions, and the state bytes of their committed state and of their end.
abbrev pub perform : (start : ℕ) → Kind → Change → ℕ → Links → List Event
perform start kind activating = activate start kind
perform start kind freeing = free start kind

abbrev pub middle : Kind → Change → ℕ
middle kind activating = bit_or (usage_of kind) state_activating
middle kind freeing = bit_or (usage_of kind) state_freeing

abbrev pub final : Kind → Change → ℕ
final kind activating = bit_or (usage_of kind) state_initialized
final kind freeing = bit_or usage_free state_initialized

module _ (start : ℕ) (kind : Kind) (h : ℕ) (l : Links) (fit : Fits start h l) (m : Mem)
    (clear : m (h + Block.on + 16) ≡ 0) (ready : get_state (m h) ≡ state_initialized) where
  Mends-middle :
      (ch : Change) (m₁ : Mem) (rec : Recorded start (h + Block.on) l m₁)
      → Mends start kind h l fit m (m h) (middle kind ch) (final kind ch) m₁ rec
  Mends-middle activating m₁ rec o e =
      (_, recover-activating start kind h o (rw e ((states kind).1)))
  Mends-middle freeing m₁ rec o e = (_, recover-freeing start kind h o (rw e ((states kind).2)))

  final_state : (ch : Change) → get_state (final kind ch) ≡ state_initialized
  final_state activating = (states kind).0
  final_state freeing = refl

  module _ (k : ℕ) where
    abbrev noted : Mem
    noted = recorded start kind h l fit m clear ready k

    noted-Recorded : Recorded start (h + Block.on) l noted
    noted-Recorded = recorded-Recorded start kind h l fit m clear ready k

    perform-Phase :
        (ch : Change)
        → Phase start h h
            (h + Block.on)
            l
            Anything
            Anything
            Anything
            m
            (m h)
            (middle kind ch)
            (final kind ch)
            noted
            (crash k (perform start kind ch h l) m)
    unfolding activate free
    perform-Phase activating =
        settle-Phase start kind h l fit m clear ready k (middle kind activating)
          (final kind activating)
    perform-Phase freeing =
        settle-Phase start kind h l fit m clear ready k (middle kind freeing) (final kind freeing)

    Attempts-Interrupted :
        (ch : Change) (n : Mem)
        → Attempts start kind h (crash k (perform start kind ch h l) m) n
        → Interrupted start kind h l fit m
            (m h)
            (middle kind ch)
            (final kind ch)
            noted
            noted-Recorded
            n
    Attempts-Interrupted ch n path =
        Interrupted-Attempts start kind h l fit m (m h) (middle kind ch) (final kind ch) noted
          noted-Recorded (Mends-middle ch noted noted-Recorded) ready (final_state ch)
          (crash k (perform start kind ch h l) m) n
          (Phase-Interrupted start kind h l fit m (m h) (middle kind ch) (final kind ch) noted
            noted-Recorded (crash k (perform start kind ch h l) m) (perform-Phase ch))
          path

    -- Whatever is cut off, the state byte is one of three, and no cell changes but the header's and
    -- the links'.
    pub Attempts-kept :
        (ch : Change) (n : Mem)
        → Attempts start kind h (crash k (perform start kind ch h l) m) n
        → ((n h ≡ m h) ⊎ (n h ≡ middle kind ch) ⊎ (n h ≡ final kind ch))
          × ((a : ℕ) → Outside h a → a ≢ l.link1 → a ≢ l.link2 → n a ≡ m a)
    Attempts-kept ch n path = kept (Attempts-Interrupted ch n path)
      where
        kept :
            Interrupted start kind h l fit m
              (m h)
              (middle kind ch)
              (final kind ch)
              noted
              noted-Recorded
              n
            → ((n h ≡ m h) ⊎ (n h ≡ middle kind ch) ⊎ (n h ≡ final kind ch))
              × ((a : ℕ) → Outside h a → a ≢ l.link1 → a ≢ l.link2 → n a ≡ m a)
        kept (inl b) = (inl b.state, λ a out n1 n2. b.same a out)
        kept (inr (inl p)) = (inr (inl p.state), p.same)
        kept (inr (inr (inl w))) = (inr (inl w.0.state), w.0.same)
        kept (inr (inr (inr (inl f)))) = (inr (inr f.state), f.same)
        kept (inr (inr (inr (inr f)))) = (inr (inr f.state), f.same)

    -- Let the links of an activation or a free of a huge region or a large block fit, the header's
    -- state be INITIALIZED, and its record of a second link be clear. Let a crash fall anywhere in
    -- the transaction, and let any number of starts follow, in each of which a crash falls anywhere
    -- in the recovery of the header. Then the next recovery passes its assertion and leaves either
    -- the state byte as it was and no cell outside the header changed, or the region in its new
    -- state, both links holding their targets, relative or (where recovery wrote them) absolute, and
    -- no other cell outside the header changed.
    pub Attempts-Outcome :
        (ch : Change) (n : Mem)
        → Attempts start kind h (crash k (perform start kind ch h l) m) n
        → Recovers start kind h (Outcome start h (m h) (final kind ch) l m) n
    Attempts-Outcome ch n path =
        let (es, added, e, always, done) =
          Interrupted-Resumes start kind h l fit m (m h) (middle kind ch) (final kind ch) noted
            noted-Recorded (Mends-middle ch noted noted-Recorded) ready (final_state ch) n
            (Attempts-Interrupted ch n path) in
        (es, added, e, done)
