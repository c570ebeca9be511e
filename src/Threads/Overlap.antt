-- ===== src/Threads/Overlap.antt =====
-- A thread behind the release of the lock and one that holds it: both write the header of the run.
-- src/nvm_malloc.c and src/arena.c.
use nvm_malloc.Base.{
  ℕ, ◌+◌, ◌≡◌, ◌≢◌, refl, sym, ◌∙◌, ap, arith, none, List, [], ◌∷◌, ◌++◌, update, update_self,
  update-ne, subst,
}
use nvm_malloc.Types.Run
use nvm_malloc.Types.{no_bit}
use nvm_malloc.Nvm.{Mem, Event, store, fence, exec}
use nvm_malloc.Nvm.Crash.{exec-append}
use nvm_malloc.Links.{record_links, write_links}
use nvm_malloc.Links.Stores.{commit_links-split}
use nvm_malloc.Slot.{Change, activating, freeing, pending, committed, settled, unlock, recover}
use nvm_malloc.Threads.{
  Task, Thread, waiting, recording, unlocking, records, step, Machine, Reachable, initial,
}
use nvm_malloc.Threads.Lock.{IsPlaced}
use nvm_malloc.Threads.Solo.{
  Leads, Leads-trans, run-acquire, run-recording, change-released, released,
}
use nvm_malloc.Threads.Progress.{follow, follow-Reachable, Leads-IsAlone}

module _ (start h : ℕ) where
  -- A thread with links gets to its committed state alone.
  run-commits :
      (t : Task) (m : Mem)
      → t.links.link1 ≢ 0
      → m h ≡ settled
      → (n : Mem) × (rest : List Event) × Leads start h t m waiting n (recording rest)
        × (n h ≡ committed t.kind)
  unfolding records
  run-commits t m ne ready =
      let locked = update m h (pending t.kind) in
      let named = update locked (h + Run.bit_idx) t.idx in
      let links = record_links start (h + Run.on) t.links in
      let to_commit =
        store (h + Run.bit_idx) t.idx ∷ (links ++ (fence ∷ store h (committed t.kind) ∷ [])) in
      let rest = (fence ∷ write_links start t.links) ++ (fence ∷ []) in
      let split : records start h t ≡ to_commit ++ rest =
        ap (λ es. store (h + Run.bit_idx) t.idx ∷ es)
          (commit_links-split start h (h + Run.on) (committed t.kind) t.links (fence ∷ []) ne) in
      (
        exec to_commit locked,
        rest,
        Leads-trans start h (run-acquire start h t m ready) (
            subst
              (λ es. Leads start h t locked (recording es) (exec to_commit locked) (recording rest))
              (sym split) (run-recording start h t to_commit rest locked)),
        ap (λ n. n h) (exec-append links (fence ∷ store h (committed t.kind) ∷ []) named)
            ∙ update_self (exec links named) h (committed t.kind),
      )

  -- Behind the release of the lock a thread still stores -1 to bit_idx.
  run-bit_idx :
      (t : Task) (m : Mem)
      → (th : Thread) × Leads start h t m
          (unlocking (unlock h))
          (update m (h + Run.bit_idx) no_bit)
          th
  unfolding step
  run-bit_idx t m = (_, (2, refl))

  recover-no_bit :
      (ch : Change) (m : Mem)
      → m h ≡ committed ch
      → recover start (update m (h + Run.bit_idx) no_bit) h ≡ none
  unfolding recover
  recover-no_bit activating m e = ground (arith, e)
  recover-no_bit freeing m e = ground (arith, e)

module _ (start h : ℕ) (tasks : ℕ → Task) (m₀ : Mem) where
  -- Let the run be settled, and let two threads change slots of it: thread `i` one of the 64 slots,
  -- with links, if any, that lie outside the header, and thread `j` any slot, with links. Then they
  -- can come to a memory, with the state byte of thread `j`'s commit, whose recovery fails.
  pub recover-none :
      m₀ h ≡ settled
      → (i j : ℕ) → i ≢ j
      → IsPlaced start h (tasks i)
      → (tasks j).links.link1 ≢ 0
      → (s : Machine) × Reachable start h tasks m₀ s
        × (s.mem h ≡ committed (tasks j).kind)
        × (recover start s.mem h ≡ none)
  recover-none ready i j ne placed links =
      let s₀ : Machine = record { mem = m₀; threads = λ _. waiting } in
      let (xs, first) =
        Leads-IsAlone start h tasks i s₀ (change-released start h (tasks i) placed m₀ ready) in
      let s₁ = follow start h tasks xs s₀ in
      let free : s₁.mem h ≡ settled = ap (λ m. m h) first.mem ∙ released_settled in
      let idle : s₁.threads j ≡ waiting = first.other j (λ e. ne (sym e)) in
      let (n, rest, leads, decided) = run-commits start h (tasks j) s₁.mem links free in
      let (ys, second) =
        Leads-IsAlone start h tasks j s₁
          (subst (λ th. Leads start h (tasks j) s₁.mem th n (recording rest)) (sym idle) leads) in
      let s₂ = follow start h tasks ys s₁ in
      let behind : s₂.threads i ≡ unlocking (unlock h) = second.other i ne ∙ first.own in
      let (th, clears) = run-bit_idx start h (tasks i) s₂.mem in
      let (zs, third) = Leads-IsAlone start h tasks i s₂ (
        subst (λ b. Leads start h (tasks i) s₂.mem b (update s₂.mem (h + Run.bit_idx) no_bit) th)
          (sym behind) clears) in
      let s₃ = follow start h tasks zs s₂ in
      let held : s₂.mem h ≡ committed (tasks j).kind = ap (λ m. m h) second.mem ∙ decided in
      (
        s₃,
        follow-Reachable start h tasks m₀ zs s₂ (
            follow-Reachable start h tasks m₀ ys s₁
              (follow-Reachable start h tasks m₀ xs s₀ initial)),
        ap (λ m. m h) third.mem ∙ update-ne s₂.mem (h + Run.bit_idx) no_bit h (omega arith) ∙ held,
        ap (λ m. recover start m h) third.mem ∙ recover-no_bit start h (tasks j).kind s₂.mem held,
      )
    where
      released_settled : released start h (tasks i) placed m₀ h ≡ settled
      released_settled = ground arith
