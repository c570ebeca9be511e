-- ===== src/Slot/Done.antt =====
-- A change of a slot that no crash interrupts.
use nvm_malloc.Base.{ℕ, ◌+◌, ◌%◌, ◌≡◌, ◌<◌, arith, ◌∷◌, ◌++◌, update, ◌∙◌}
use nvm_malloc.Types.Run
use nvm_malloc.Types.{no_bit}
use nvm_malloc.Nvm.{Mem, exec, store}
use nvm_malloc.Nvm.Crash.{exec-append}
use nvm_malloc.Links.{Links, write_links, commit_links}
use nvm_malloc.Links.Phases.{Outside, Fits, Finished}
use nvm_malloc.Links.Commit.{write_links-first, write_links-second}
use nvm_malloc.Links.Exec.{write_links-other, decided, commit_links-exec, decided-other}
use nvm_malloc.Slot.{Change, pending, committed, changed, settled, byte_of, mark, unlock, change}

-- Finished, with the run unlocked and the record of the slot and of the links cleared.
abbrev pub IsDone : (start : ℕ) → Change → (h idx : ℕ) → Links → Mem → Mem → Type 0
IsDone start ch h idx l m₀ m =
    Finished h (byte_of h idx) (λ v. v ≡ changed ch (m₀ (byte_of h idx)) (idx % 8)) m₀ start settled
      (λ v. v) l m
    × (m (h + Run.bit_idx) ≡ no_bit)
    × (m (h + Run.on) ≡ 0)
    × (m (h + Run.on + 16) ≡ 0)

module _ (start : ℕ) (ch : Change) (h idx : ℕ) (l : Links) (fit : Fits start h l) (m : Mem)
    (range : idx < 64) where
  -- Memory once the run is locked and the slot named.
  abbrev named : Mem
  named = update (update m h (pending ch)) (h + Run.bit_idx) idx

  abbrev linked : Mem
  linked = exec (write_links start l) (decided start h (h + Run.on) l fit (committed ch) named)

  abbrev finish : Mem → Mem
  finish n = exec (mark ch m h idx ++ (store h settled ∷ unlock h)) n

  finish-other : (n : Mem) (a : ℕ) → Outside h a → finish n a ≡ n a
  finish-other n a out = ground arith

  named-other : (a : ℕ) → Outside h a → named a ≡ m a
  named-other a out = ground arith

  -- Without a crash, the change of one of 64 slots whose links fit ends with the run unlocked, the
  -- slot's bit changed, the links holding the relative addresses of their targets, the record of
  -- the slot and the pointers in that of the links cleared, and no other cell outside the header
  -- changed.
  pub change-IsDone : IsDone start ch h idx l m (exec (change start ch m h idx l) m)
  unfolding change
  change-IsDone =
      rw
        (
          exec-append (commit_links start h (h + Run.on) (committed ch) l)
              (mark ch m h idx ++ (store h settled ∷ unlock h)) named,
          commit_links-exec start h (h + Run.on) l fit (committed ch) named,
        )
        (
          record {
            state = ground arith;
            cell = ground arith;
            first =
                finish-other linked l.link1 fit.out1
                ∙ write_links-first start h h (h + Run.on) l
                    (decided start h (h + Run.on) l fit (committed ch) named) fit;
            second = λ ne.
                finish-other linked l.link2 fit.out2
                ∙ write_links-second start h h (h + Run.on) l
                    (decided start h (h + Run.on) l fit (committed ch) named) ne;
            same = λ a out n1 n2.
                finish-other linked a out
                ∙ write_links-other start h (h + Run.on) l fit
                    (decided start h (h + Run.on) l fit (committed ch) named) a n1 n2
                ∙ decided-other start h (h + Run.on) l fit (committed ch) named a (omega arith)
                    (omega arith) out
                ∙ named-other a out;
          },
          ground arith,
          ground arith,
          ground arith,
        )
