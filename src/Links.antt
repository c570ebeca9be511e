-- ===== src/Links.antt =====
-- The link pointers of an activation or a free: recorded in the header, written, replayed.
--
-- The same statements stand six times in src/nvm_malloc.c and src/arena.c, for the huge, block and
-- run headers of an activation and of a free, and six times in the recovery. They differ in the
-- offset of `on` and in the states.
pub mod Phases
pub mod Keeps
pub mod Commit
pub mod Exec
pub mod Replay
pub mod Atomic
pub mod Stores
use nvm_malloc.Base.{ℕ, ◌+◌, List, [], ◌∷◌, ◌++◌, update, ◌==◌, if◌then◌else◌}
use nvm_malloc.Types.{abs_to_rel, abs_to_rel_with_null, rel_to_abs, rel_to_abs_with_null}
use nvm_malloc.Nvm.{Mem, Event, store, fence, persist}

-- The link arguments of `nvm_activate` and `nvm_free`; 0 is NULL.
pub record Links : Type 0 where
  pub link1 : ℕ
  pub target1 : ℕ
  pub link2 : ℕ
  pub target2 : ℕ

abbrev pub no_links : Links
no_links = record { link1 = 0; target1 = 0; link2 = 0; target2 = 0 }

module _ (start : ℕ) where
  -- "store link pointers in header"; `on` is the address of the header's `on[0]`
  pub record_links : ℕ → Links → List Event
  record_links on l =
      store on (abs_to_rel start l.link1)
      ∷ store (on + 8) (abs_to_rel_with_null start l.target1)
      ∷ (if l.link2 == 0
          then []
          else store (on + 16) (abs_to_rel start l.link2)
            ∷ store (on + 24) (abs_to_rel_with_null start l.target2)
            ∷ [])

  -- The stores through the link pointers. The code hands `PERSIST` the value of the link, not its
  -- address, and so do we.
  pub write_links : Links → List Event
  write_links l =
      store l.link1 (abs_to_rel_with_null start l.target1)
      ∷ (persist (abs_to_rel_with_null start l.target1)
          ++ (if l.link2 == 0
              then []
              else store l.link2 (abs_to_rel_with_null start l.target2)
                ∷ persist (abs_to_rel_with_null start l.target2)))

  -- Record, commit by the state byte of the header at `h`, write.
  unfoldable pub commit_links : (h on state : ℕ) → Links → List Event
  unfolding record_links write_links
  commit_links h on state l =
      if l.link1 == 0
      then []
      else record_links on l ++ ((fence ∷ store h state ∷ fence ∷ []) ++ write_links l)

  -- "committed, replay": the target of a recorded link, and the value that recovery puts there
  abbrev pub replay_target : Mem → ℕ → ℕ
  replay_target m on = rel_to_abs start (m on)

  abbrev pub replay_value : Mem → ℕ → ℕ
  replay_value m on = rel_to_abs_with_null start (m (on + 8))

  pub replay_links : Mem → ℕ → List Event
  replay_links m on =
      if m on == 0
      then []
      else (let m' = update m (replay_target m on) (replay_value m on) in
          store (replay_target m on) (replay_value m on)
          ∷ (persist (replay_target m on)
              ++ (if m' (on + 16) == 0
                  then []
                  else store (replay_target m' (on + 16)) (replay_value m' (on + 16))
                    ∷ persist (replay_target m' (on + 16)))))
