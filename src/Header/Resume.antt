-- ===== src/Header/Resume.antt =====
-- The recovery of a huge region or a large block, event by event: `nvm_initialize_recovered` of
-- src/nvm_malloc.c.
use nvm_malloc.Base.{
  ℕ, ◌+◌, ◌<◌, ◌≡◌, ◌⊎◌, inl, inr, arith, Bool, some, List, [], ◌++◌, ◌∙◌, ap, update, update_self,
  update-ne,
}
use nvm_malloc.Types.{get_state, state_initialized, rel_to_abs_with_null}
use nvm_malloc.Types.Block
use nvm_malloc.Nvm.{Mem, Event, store, exec}
use nvm_malloc.Nvm.Crash.{Always, Always-exec, Always-append, Always-map, Keeps}
use nvm_malloc.Links.{Links, replay_links}
use nvm_malloc.Links.Phases.{Fits, Before, Committed, Finished, Recorded}
use nvm_malloc.Links.Keeps.{Finished-Keeps}
use nvm_malloc.Links.Replay.{replay_links-Finished, replay_links-Always, replay_links-clear}
use nvm_malloc.Links.Atomic.{Phase}
use nvm_malloc.Header.{Kind, recover, resettle}
use nvm_malloc.Header.Repair.{Anything, recover-initialized, resettle-Finished, repair-Finished}
use nvm_malloc.Header.Atomic.{Outcome}

module _ (start : ℕ) (kind : Kind) (h : ℕ) (l : Links) (fit : Fits start h l) (m₀ : Mem)
    (old st fin : ℕ) (m₁ : Mem) (rec : Recorded start (h + Block.on) l m₁) where
  -- Replayed, with the first pointer of the record cleared.
  abbrev pub Wiped : Mem → Type 0
  Wiped m =
      Finished h h Anything m₀ start st (rel_to_abs_with_null start) l m × (m (h + Block.on) ≡ 0)

  -- What a crash in a recovery can leave.
  abbrev pub Interrupted : Mem → Type 0
  Interrupted m =
      Before h h Anything m₀ old m
      ⊎ Committed h h Anything m₀ st l m₁ m
      ⊎ Wiped m
      ⊎ Finished h h Anything m₀ start fin (λ v. v) l m
      ⊎ Finished h h Anything m₀ start fin (rel_to_abs_with_null start) l m

  Wiped-Keeps : (a v : ℕ) → h + Block.on < a → a < h + 64 → Keeps Wiped (store a v)
  Wiped-Keeps a v lo hi m p = (
    Finished-Keeps h h Anything m₀ start st (rel_to_abs_with_null start) l (store a v) fit
        (omega arith, omega arith, omega arith) m p.0,
    update-ne m a v (h + Block.on) (omega arith) ∙ p.1,
  )

  resettle-Interrupted :
      (m : Mem)
      → Interrupted m
      → Finished h h Anything m₀ start st (rel_to_abs_with_null start) l m
      → Always Interrupted (resettle h fin) m
  resettle-Interrupted m held done =
      let m1 = update m (h + Block.on) 0 in
      let m2 = update m1 (h + Block.on + 8) 0 in
      let m3 = update m2 (h + Block.on + 16) 0 in
      let m4 = update m3 (h + Block.on + 24) 0 in
      let w1 : Wiped m1 = (
        Finished-Keeps h h Anything m₀ start st (rel_to_abs_with_null start) l
            (store (h + Block.on) 0) fit (omega arith, omega arith, omega arith) m done,
        update_self m (h + Block.on) 0,
      ) in
      let w2 : Wiped m2 = Wiped-Keeps (h + Block.on + 8) 0 (omega arith) (omega arith) m1 w1 in
      let w3 : Wiped m3 = Wiped-Keeps (h + Block.on + 16) 0 (omega arith) (omega arith) m2 w2 in
      let w4 : Wiped m4 = Wiped-Keeps (h + Block.on + 24) 0 (omega arith) (omega arith) m3 w3 in
      let last : Interrupted (update m4 h fin) =
        inr (inr (inr (inr (resettle-Finished start h m₀ l fit st fin _ m done)))) in
      (
        held,
        (
          inr (inr (inl w1)),
          (
            inr (inr (inl w2)),
            (inr (inr (inl w3)), (inr (inr (inl w4)), (last, (last, (last, last))))),
          ),
        ),
      )

  pub Phase-Interrupted :
      (m : Mem)
      → Phase start h h (h + Block.on) l Anything Anything Anything m₀ old st fin m₁ m
      → Interrupted m
  Phase-Interrupted m (inl b) = inl b
  Phase-Interrupted m (inr (inl p)) = inr (inl p)
  Phase-Interrupted m (inr (inr f)) = inr (inr (inr (inl f)))

  Committed-Interrupted : (m : Mem) → Committed h h Anything m₀ st l m₁ m → Interrupted m
  Committed-Interrupted m p = inr (inl p)

  Wiped-Interrupted : (m : Mem) → Wiped m → Interrupted m
  Wiped-Interrupted m w = inr (inr (inl w))

  -- What recovery does to a header in the committed state of this transaction.
  abbrev pub Mends : Type 0
  Mends =
      (m : Mem)
      → m h ≡ st
      → (added : Bool) × (recover start kind m h
          ≡ some (replay_links start m (h + Block.on) ++ resettle h fin, added))

  -- Recovery passes its assertion, a crash in it leaves one of the same memories, and its end is an
  -- outcome of the transaction.
  abbrev pub Resumes : Mem → Type 0
  Resumes m =
      (es : List Event) × (added : Bool) × (recover start kind m h ≡ some (es, added))
      × Always Interrupted es m
      × Outcome start h old fin l m₀ (exec es m)

  module _ (mends : Mends) (old_state : get_state old ≡ state_initialized)
      (fin_state : get_state fin ≡ state_initialized) where
    Resumes-Committed : (m : Mem) → Committed h h Anything m₀ st l m₁ m → Resumes m
    Resumes-Committed m p =
        let (added, e) = mends m p.state in
        let replay = replay_links start m (h + Block.on) in
        let replayed =
          replay_links-Finished start h h Anything m₀ (h + Block.on) st l m₁ m fit (omega arith)
            (omega arith) rec p in
        let kept =
          replay_links-Always start h h Anything m₀ (h + Block.on) st l m₁ m fit (omega arith)
            (omega arith) rec p in
        (
          replay ++ resettle h fin,
          added,
          e,
          Always-append Interrupted replay (resettle h fin) m
              (Always-map replay m Committed-Interrupted kept)
              (resettle-Interrupted (exec replay m)
                (Committed-Interrupted (exec replay m)
                  (Always-exec (Committed h h Anything m₀ st l m₁) replay m kept))
                replayed),
          inr (inr (repair-Finished start h m₀ l fit st fin m₁ m rec p)),
        )

    Resumes-Wiped : (m : Mem) → Wiped m → Resumes m
    Resumes-Wiped m w =
        let (added, e) = mends m w.0.state in
        (
          resettle h fin,
          added,
          e
              ∙ ap (λ replay. some (replay ++ resettle h fin, added))
                  (replay_links-clear start (h + Block.on) m w.1),
          resettle-Interrupted m (Wiped-Interrupted m w) w.0,
          inr (inr (resettle-Finished start h m₀ l fit st fin (rel_to_abs_with_null start) m w.0)),
        )

    pub Interrupted-Resumes : (m : Mem) → Interrupted m → Resumes m
    Interrupted-Resumes m (inl b) =
        ([], _, recover-initialized start kind h m (rw b.state old_state), inl b, inl b)
    Interrupted-Resumes m (inr (inl p)) = Resumes-Committed m p
    Interrupted-Resumes m (inr (inr (inl w))) = Resumes-Wiped m w
    Interrupted-Resumes m (inr (inr (inr (inl f)))) = (
      [],
      _,
      recover-initialized start kind h m (rw f.state fin_state),
      inr (inr (inr (inl f))),
      inr (inl f),
    )
    Interrupted-Resumes m (inr (inr (inr (inr f)))) = (
      [],
      _,
      recover-initialized start kind h m (rw f.state fin_state),
      inr (inr (inr (inr f))),
      inr (inr f),
    )
