-- ===== src/Links/Exec.antt =====
-- What the link statements do to memory when no crash interrupts them.
use nvm_malloc.Base.{
  ℕ, ◌+◌, ◌≡◌, ◌≢◌, ◌<◌, ◌≤◌, arith, refl, ◌==◌, Bool-cases, inl, inr, [], update, update-ne, ne→==,
  ◌∙◌,
}
use nvm_malloc.Nvm.{Mem, exec}
use nvm_malloc.Nvm.Crash.{exec-append}
use nvm_malloc.Links.{Links, no_links, record_links, write_links, commit_links}
use nvm_malloc.Links.Phases.{Outside, Fits}
use nvm_malloc.Links.Commit.{record_links-other}

pub commit_links-none : (start h on st : ℕ) → commit_links start h on st no_links ≡ []
unfolding commit_links
commit_links-none start h on st = refl

module _ (start h on : ℕ) (l : Links) (fit : Fits start h l) where
  pub write_links-other :
      (m : Mem) (a : ℕ) → a ≢ l.link1 → a ≢ l.link2 → exec (write_links start l) m a ≡ m a
  unfolding write_links
  write_links-other m a n1 n2 = elim (Bool-cases (l.link2 == 0)) [
    | inl e ↦ rw e (ground arith)
    | inr e ↦ rw e (ground arith)
  ]

  -- Memory once the links are committed, and before they are written.
  abbrev pub decided : (st : ℕ) → Mem → Mem
  decided st m = update (exec (record_links start on l) m) h st

  pub commit_links-exec :
      (st : ℕ) (m : Mem)
      → exec (commit_links start h on st l) m ≡ exec (write_links start l) (decided st m)
  unfolding commit_links
  commit_links-exec st m =
      rw (ne→== l.link1 0 (omega (arith, fit.first)), exec-append (record_links start on l) _ m)

  pub decided-other :
      (st : ℕ) (m : Mem) (a : ℕ) → h < on → on + 32 ≤ h + 64 → Outside h a → decided st m a ≡ m a
  decided-other st m a lo hi out =
      update-ne (exec (record_links start on l) m) h st a (ground arith)
      ∙ record_links-other start h h on l m a (ground arith)
