-- ===== src/Links/Replay.antt =====
-- The replay of a committed transaction's links by `nvm_initialize_recovered` of
-- src/nvm_malloc.c.
use nvm_malloc.Base.{
  ℕ, ◌+◌, ◌^◌, ◌≤◌, ◌<◌, ◌≡◌, ◌≢◌, refl, inl, inr, arith, List, [], ◌∷◌, ◌++◌, All, ◌==◌,
  if◌then◌else◌, Bool-cases, ==→eq, ◌∙◌, ap, ne→==, All-map,
}
use nvm_malloc.Types.{
  header_size, abs_to_rel, abs_to_rel_with_null, rel_to_abs, rel_to_abs_with_null,
}
use nvm_malloc.Nvm.{Mem, Event, store, exec, persist}
use nvm_malloc.Nvm.Crash.{Keeps, exec_of_keeps, Always, Always-of_Keeps}
use nvm_malloc.Links.{Links, replay_links}
use nvm_malloc.Links.Phases.{Fits, IsLinkStore, Committed, Finished, Recorded}
use nvm_malloc.Links.Keeps.{Committed-Keeps}
use nvm_malloc.Links.Commit.{IsOnOf}

module _ (start : ℕ) (l : Links) where
  abbrev value1 : ℕ
  value1 = rel_to_abs_with_null start (abs_to_rel_with_null start l.target1)

  abbrev value2 : ℕ
  value2 = rel_to_abs_with_null start (abs_to_rel_with_null start l.target2)

  -- What the replay of `l` comes to.
  replayed : List Event
  replayed =
      store l.link1 value1
      ∷ (persist l.link1 ++ (if l.link2 == 0 then [] else store l.link2 value2 ∷ persist l.link2))

  replayed-link : All (IsLinkStore l) replayed
  unfolding replayed
  replayed-link = elim (Bool-cases (l.link2 == 0)) [
    | inl e ↦ rw e (inl refl, (tt, (tt, (tt, tt))))
    | inr e ↦
        rw e (inl refl, (tt, (tt, (tt, (inr (refl, λ z. ground arith), (tt, (tt, (tt, tt))))))))
  ]

  replayed-first : (h : ℕ) (m : Mem) → Fits start h l → exec replayed m l.link1 ≡ value1
  unfolding replayed
  replayed-first h m fit = elim (Bool-cases (l.link2 == 0)) [
    | inl e ↦ rw e (ground arith)
    | inr e ↦ rw e (ground (arith, fit.apart))
  ]

  replayed-second : (m : Mem) → l.link2 ≢ 0 → exec replayed m l.link2 ≡ value2
  unfolding replayed
  replayed-second m ne = elim (Bool-cases (l.link2 == 0)) [
    | inl e ↦ absurd (ne (==→eq _ _ e))
    | inr e ↦ rw e (ground arith)
  ]

rel_to_abs-abs_to_rel :
    (start p : ℕ) → start < p → p < 2 ^ 64 → rel_to_abs start (abs_to_rel start p) ≡ p
rel_to_abs-abs_to_rel start p lt fits = omega arith

module _ (start h c on : ℕ) (l : Links) (m₁ m : Mem) where
  record Header : Type 0 where
    ptr1 : m on ≡ abs_to_rel start l.link1
    value_at1 : m (on + 8) ≡ abs_to_rel_with_null start l.target1
    ptr2 : m (on + 16) ≡ (if l.link2 == 0 then 0 else abs_to_rel start l.link2)
    value_at2 : l.link2 ≢ 0 → m (on + 24) ≡ abs_to_rel_with_null start l.target2

  header :
      IsOnOf h c on
      → ((a : ℕ) → h < a → a < h + header_size → a ≢ c → m a ≡ m₁ a)
      → Recorded start on l m₁
      → Header
  header o same r = record {
    ptr1 = same on (omega arith) (omega arith) (omega arith) ∙ r.ptr1;
    value_at1 = same (on + 8) (omega arith) (omega arith) (omega arith) ∙ r.value1;
    ptr2 = same (on + 16) (omega arith) (omega arith) (omega arith) ∙ r.ptr2;
    value_at2 = λ ne. same (on + 24) (omega arith) (omega arith) (omega arith) ∙ r.value2 ne;
  }

  replay_links-one :
      Fits start h l
      → IsOnOf h c on
      → Header
      → l.link2 ≡ 0
      → replay_links start m on ≡ replayed start l
  unfolding replay_links replayed
  replay_links-one fit o hd e = ground (arith, hd.ptr1, hd.value_at1, hd.ptr2)

  replay_links-pair :
      {p₁ v₁ p₂ v₂ : ℕ}
      → m on ≢ 0
      → rel_to_abs start (m on) ≡ p₁
      → rel_to_abs_with_null start (m (on + 8)) ≡ v₁
      → on + 16 ≢ p₁
      → on + 16 + 8 ≢ p₁
      → m (on + 16) ≢ 0
      → rel_to_abs start (m (on + 16)) ≡ p₂
      → rel_to_abs_with_null start (m (on + 16 + 8)) ≡ v₂
      → replay_links start m on ≡ store p₁ v₁ ∷ (persist p₁ ++ (store p₂ v₂ ∷ persist p₂))
  unfolding replay_links
  replay_links-pair {p₁} on_ne e₁ f₁ n₁ n₂ on2_ne e₂ f₂ = rw (
    ne→== (m on) 0 on_ne,
    e₁,
    f₁,
    ne→== (on + 16) p₁ n₁,
    ne→== (on + 16 + 8) p₁ n₂,
    ne→== (m (on + 16)) 0 on2_ne,
    e₂,
    f₂,
  )

  replay_links-two :
      Fits start h l
      → IsOnOf h c on
      → Header
      → (start < l.link2) × (l.link2 < 2 ^ 64)
      → replay_links start m on ≡ replayed start l
  unfolding replayed
  replay_links-two fit o hd e =
      let far : (on + 16 ≢ l.link1) × (on + 16 + 8 ≢ l.link1) = ground (arith, fit.out1) in
      let same : m (on + 16 + 8) ≡ m (on + 24) = ap m (omega arith) in
      let ptr2 : m (on + 16) ≡ abs_to_rel start l.link2 = ground (arith, hd.ptr2) in
      let v2 : m (on + 24) ≡ abs_to_rel_with_null start l.target2 = hd.value_at2 (omega arith) in
      rw (ne→== l.link2 0 (omega arith)) (
        replay_links-pair (omega (arith, hd.ptr1, fit.first))
          (ap (rel_to_abs start) hd.ptr1
            ∙ rel_to_abs-abs_to_rel start l.link1 fit.first.0 fit.first.1)
          (ap (rel_to_abs_with_null start) hd.value_at1) far.0 far.1 (omega (arith, ptr2))
          (ap (rel_to_abs start) ptr2 ∙ rel_to_abs-abs_to_rel start l.link2 e.0 e.1)
          (ap (rel_to_abs_with_null start) (same ∙ v2)))

  replay_links-replayed :
      Fits start h l → IsOnOf h c on → Header → replay_links start m on ≡ replayed start l
  replay_links-replayed fit o hd = elim fit.second [
    | inl none2 ↦ replay_links-one fit o hd none2
    | inr some2 ↦ replay_links-two fit o hd some2
  ]

-- From any committed state, the replay reaches a finished one.
pub replay_links-Finished :
    (start h c : ℕ) (V : ℕ → Type 0) (m₀ : Mem) (on st : ℕ) (l : Links) (m₁ m : Mem)
    → Fits start h l
    → IsOnOf h c on
    → (h ≤ c) × (c < h + header_size)
    → Recorded start on l m₁
    → Committed h c V m₀ st l m₁ m
    → Finished h c V m₀ start st (rel_to_abs_with_null start) l (exec (replay_links start m on) m)
replay_links-Finished start h c V m₀ on st l m₁ m fit o inside rec held =
    rw
      (replay_links-replayed start h c on l m₁ m fit o (header start h c on l m₁ m o held.body rec))
      (record {
        state = after.state;
        cell = after.cell;
        first = replayed-first start l h m fit;
        second = replayed-second start l m;
        same = after.same;
      })
  where
    keeps : All (Keeps (Committed h c V m₀ st l m₁)) (replayed start l)
    keeps =
        All-map (replayed start l) (λ e. Committed-Keeps h c V m₀ start st l m₁ e fit inside)
          (replayed-link start l)

    after : Committed h c V m₀ st l m₁ (exec (replayed start l) m)
    after = exec_of_keeps (Committed h c V m₀ st l m₁) (replayed start l) m keeps held

-- A crash in the replay leaves the transaction committed.
pub replay_links-Always :
    (start h c : ℕ) (V : ℕ → Type 0) (m₀ : Mem) (on st : ℕ) (l : Links) (m₁ m : Mem)
    → Fits start h l
    → IsOnOf h c on
    → (h ≤ c) × (c < h + header_size)
    → Recorded start on l m₁
    → Committed h c V m₀ st l m₁ m
    → Always (Committed h c V m₀ st l m₁) (replay_links start m on) m
replay_links-Always start h c V m₀ on st l m₁ m fit o inside rec held =
    rw
      (replay_links-replayed start h c on l m₁ m fit o (header start h c on l m₁ m o held.body rec))
      (Always-of_Keeps (Committed h c V m₀ st l m₁) (replayed start l) m
        (All-map (replayed start l) (λ e. Committed-Keeps h c V m₀ start st l m₁ e fit inside)
          (replayed-link start l))
        held)

-- With its first pointer cleared, the record is not replayed.
pub replay_links-clear : (start on : ℕ) (m : Mem) → m on ≡ 0 → replay_links start m on ≡ []
unfolding replay_links
replay_links-clear start on m e = rw e refl
