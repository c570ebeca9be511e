-- ===== src/Header/Repair.antt =====
-- What recovery makes of a header in each phase of a transaction.
use nvm_malloc.Base.{
  ℕ, ◌+◌, ◌≡◌, arith, bit_or, true, false, some, [], ◌++◌, All-map, update_self, update-ne, ◌∙◌,
}
use nvm_malloc.Types.{
  get_state, state_initialized, state_freeing, state_activating, usage_free, rel_to_abs_with_null,
}
use nvm_malloc.Types.Block
use nvm_malloc.Nvm.{Mem, exec, clear_on}
use nvm_malloc.Nvm.Crash.{exec_of_keeps, exec-append}
use nvm_malloc.Links.{Links, replay_links}
use nvm_malloc.Links.Phases.{Fits, IsBodyStore, Committed, Finished, Recorded}
use nvm_malloc.Links.Keeps.{Finished-Keeps}
use nvm_malloc.Links.Replay.{replay_links-Finished}
use nvm_malloc.Header.{Kind, usage_of, recover, resettle}

abbrev pub Anything : ℕ → Type 0
Anything _ = Unit

module _ (start : ℕ) (kind : Kind) (h : ℕ) (m : Mem) where
  pub recover-initialized :
      get_state (m h) ≡ state_initialized → recover start kind m h ≡ some ([], false)
  unfolding recover
  recover-initialized e = rw e

  pub recover-activating :
      get_state (m h) ≡ state_activating
      → recover start kind m h
        ≡ some (
          replay_links start m (h + Block.on)
              ++ resettle h (bit_or (usage_of kind) state_initialized),
          false,
        )
  unfolding recover
  recover-activating e = rw e

  pub recover-freeing :
      get_state (m h) ≡ state_freeing
      → recover start kind m h
        ≡ some (
          replay_links start m (h + Block.on) ++ resettle h (bit_or usage_free state_initialized),
          true,
        )
  unfolding recover
  recover-freeing e = rw e

module _ (start h : ℕ) (m₀ : Mem) (l : Links) (fit : Fits start h l) where
  -- The last stores of a repair keep a finished transaction finished, with the new state byte.
  pub resettle-Finished :
      (st fin : ℕ) (w : ℕ → ℕ) (m : Mem)
      → Finished h h Anything m₀ start st w l m
      → Finished h h Anything m₀ start fin w l (exec (resettle h fin) m)
  resettle-Finished st fin w m f = record {
    state = update_self cleared h fin;
    cell = tt;
    first = update-ne cleared h fin l.link1 (ground (arith, fit.out1)) ∙ after.first;
    second = λ ne. update-ne cleared h fin l.link2 (ground (arith, fit.out2)) ∙ after.second ne;
    same = λ a out n1 n2. update-ne cleared h fin a (ground arith) ∙ after.same a out n1 n2;
  }
    where
      cleared : Mem
      cleared = exec (clear_on (h + Block.on)) m

      after : Finished h h Anything m₀ start st w l cleared
      after =
          exec_of_keeps (Finished h h Anything m₀ start st w l) (clear_on (h + Block.on)) m
            (All-map {P = IsBodyStore h h} (clear_on (h + Block.on))
              (λ e. Finished-Keeps h h Anything m₀ start st w l e fit) (omega arith))
            f

  pub repair-Finished :
      (st fin : ℕ) (m₁ m : Mem)
      → Recorded start (h + Block.on) l m₁
      → Committed h h Anything m₀ st l m₁ m
      → Finished h h Anything m₀ start fin
          (rel_to_abs_with_null start)
          l
          (exec (replay_links start m (h + Block.on) ++ resettle h fin) m)
  repair-Finished st fin m₁ m rec held =
      rw (exec-append (replay_links start m (h + Block.on)) (resettle h fin) m) (
        resettle-Finished st fin (rel_to_abs_with_null start)
          (exec (replay_links start m (h + Block.on)) m)
          (replay_links-Finished start h h Anything m₀ (h + Block.on) st l m₁ m fit (omega arith)
            (omega arith) rec held))
