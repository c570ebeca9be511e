-- ===== src/Header/Done.antt =====
-- An activation or a free of a huge region or a large block that no crash interrupts.
use nvm_malloc.Base.{ℕ, ◌+◌, ◌≡◌, arith, bit_or, ◌++◌, ◌∙◌}
use nvm_malloc.Types.{usage_free, state_initialized}
use nvm_malloc.Types.Block
use nvm_malloc.Nvm.{Mem, exec}
use nvm_malloc.Nvm.Crash.{exec-append}
use nvm_malloc.Links.{Links, write_links, commit_links}
use nvm_malloc.Links.Phases.{Outside, Fits, Finished}
use nvm_malloc.Links.Commit.{write_links-first, write_links-second}
use nvm_malloc.Links.Exec.{write_links-other, decided, commit_links-exec, decided-other}
use nvm_malloc.Header.{Kind, usage_of, settle, activate, free}
use nvm_malloc.Header.Repair.{Anything}

-- Finished, with the links' record in the header cleared.
abbrev pub IsDone : (start h fin : ℕ) → Links → Mem → Mem → Type 0
IsDone start h fin l m₀ m =
    Finished h h Anything m₀ start fin (λ v. v) l m
    × (m (h + Block.on) ≡ 0)
    × (m (h + Block.on + 16) ≡ 0)

module _ (start h : ℕ) (l : Links) (fit : Fits start h l) where
  settle-other : (fin : ℕ) (m : Mem) (a : ℕ) → Outside h a → exec (settle h fin) m a ≡ m a
  settle-other fin m a out = ground arith

  settle-IsDone :
      (st fin : ℕ) (m : Mem)
      → IsDone start h fin l m (exec (commit_links start h (h + Block.on) st l ++ settle h fin) m)
  settle-IsDone st fin m =
      rw
        (
          exec-append (commit_links start h (h + Block.on) st l) (settle h fin) m,
          commit_links-exec start h (h + Block.on) l fit st m,
        )
        (
          record {
            state = ground arith;
            cell = tt;
            first =
                settle-other fin written l.link1 fit.out1
                ∙ write_links-first start h h (h + Block.on) l
                    (decided start h (h + Block.on) l fit st m) fit;
            second = λ ne.
                settle-other fin written l.link2 fit.out2
                ∙ write_links-second start h h (h + Block.on) l
                    (decided start h (h + Block.on) l fit st m) ne;
            same = λ a out n1 n2.
                settle-other fin written a out
                ∙ write_links-other start h (h + Block.on) l fit
                    (decided start h (h + Block.on) l fit st m) a n1 n2
                ∙ decided-other start h (h + Block.on) l fit st m a (omega arith) (omega arith) out;
          },
          ground arith,
          ground arith,
        )
    where
      written : Mem
      written = exec (write_links start l) (decided start h (h + Block.on) l fit st m)

  -- Let the links fit. Without a crash, an activation ends with the region in use, the links
  -- holding the relative addresses of their targets, the pointers in the record of the links
  -- cleared, and no other cell outside the header changed; a free ends likewise, with the region
  -- unused.
  pub activate-free-IsDone :
      (kind : Kind) (m : Mem)
      → IsDone start h
          (bit_or (usage_of kind) state_initialized)
          l
          m
          (exec (activate start kind h l) m)
        × IsDone start h (bit_or usage_free state_initialized) l m (exec (free start kind h l) m)
  unfolding activate free
  activate-free-IsDone kind m = (settle-IsDone _ _ m, settle-IsDone _ _ m)
