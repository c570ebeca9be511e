-- ===== src/Links/Commit.antt =====
-- The statements that record, commit and write the links, phase by phase.
use nvm_malloc.Base.{
  ℕ, ◌+◌, ◌≤◌, ◌<◌, ◌≡◌, ◌≢◌, ◌⊎◌, refl, inl, inr, arith, All, ◌==◌, Bool-cases, ==→eq,
}
use nvm_malloc.Types.{header_size, abs_to_rel_with_null}
use nvm_malloc.Nvm.{Mem, exec}
use nvm_malloc.Links.{Links, record_links, write_links}
use nvm_malloc.Links.Phases.{Fits, IsBodyStore, IsLinkStore, Recorded}

-- `on` is a pair of link records inside the header, apart from the cell `c`.
abbrev pub IsOnOf : ℕ → ℕ → ℕ → Type 0
IsOnOf h c on = (h < on) × (on + 32 ≤ h + header_size) × ((c < on) ⊎ (on + 32 ≤ c))

module _ (start h c on : ℕ) (l : Links) where
  pub record_links-body : IsOnOf h c on → All (IsBodyStore h c) (record_links start on l)
  unfolding record_links
  record_links-body o = elim (Bool-cases (l.link2 == 0)) [
    | inl e ↦ rw e (omega arith)
    | inr e ↦ rw e (omega arith)
  ]

  pub record_links-Recorded :
      (m : Mem) → m (on + 16) ≡ 0 → Recorded start on l (exec (record_links start on l) m)
  unfolding record_links
  record_links-Recorded m clear = elim (Bool-cases (l.link2 == 0)) [
    | inl e ↦ rw e (record {
      ptr1 = ground arith;
      value1 = ground arith;
      ptr2 = ground (arith, clear);
      value2 = λ ne. absurd (ne (==→eq _ _ e));
    })
    | inr e ↦ rw e (record {
      ptr1 = ground arith;
      value1 = ground arith;
      ptr2 = ground (arith, clear);
      value2 = λ ne. ground arith;
    })
  ]

  pub record_links-other :
      (m : Mem) (a : ℕ) → ((a < on) ⊎ (on + 32 ≤ a)) → exec (record_links start on l) m a ≡ m a
  unfolding record_links
  record_links-other m a out = elim (Bool-cases (l.link2 == 0)) [
    | inl e ↦ rw e (ground arith)
    | inr e ↦ rw e (ground arith)
  ]

  pub write_links-link : All (IsLinkStore l) (write_links start l)
  unfolding write_links
  write_links-link = elim (Bool-cases (l.link2 == 0)) [
    | inl e ↦ rw e (inl refl, (tt, (tt, (tt, tt))))
    | inr e ↦
        rw e (inl refl, (tt, (tt, (tt, (inr (refl, λ z. ground arith), (tt, (tt, (tt, tt))))))))
  ]

  pub write_links-first :
      (m : Mem)
      → Fits start h l
      → exec (write_links start l) m l.link1 ≡ abs_to_rel_with_null start l.target1
  unfolding write_links
  write_links-first m fit = elim (Bool-cases (l.link2 == 0)) [
    | inl e ↦ rw e (ground arith)
    | inr e ↦ rw e (ground (arith, fit.apart))
  ]

  pub write_links-second :
      (m : Mem)
      → l.link2 ≢ 0
      → exec (write_links start l) m l.link2 ≡ abs_to_rel_with_null start l.target2
  unfolding write_links
  write_links-second m ne = elim (Bool-cases (l.link2 == 0)) [
    | inl e ↦ absurd (ne (==→eq _ _ e))
    | inr e ↦ rw e (ground arith)
  ]
