-- ===== src/Slot/Again.antt =====
-- A second crash, while the recovery of a run resets its header.
use nvm_malloc.Base.{ℕ, ◌≡◌, arith, none}
use nvm_malloc.Nvm.{Mem, crash}
use nvm_malloc.Slot.{Change, activating, freeing, committed, recover, reset}

module _ (start version run h : ℕ) (m : Mem) where
  -- If a crash falls in the reset of a run in a committed state between the store of -1 to bit_idx
  -- and that of the state byte, the next recovery fails: it shifts by a negative number.
  recover-reset :
      (ch : Change) → m h ≡ committed ch → recover start (crash 7 (reset h version run) m) h ≡ none
  unfolding recover reset
  recover-reset activating e = ground (arith, e)
  recover-reset freeing e = ground (arith, e)
