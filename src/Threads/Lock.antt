-- ===== src/Threads/Lock.antt =====
-- The state byte of a run as a lock between the threads of src/nvm_malloc.c and src/arena.c: what
-- each thread may store, and who holds the lock.
use nvm_malloc.Base.{
  ℕ, ◌+◌, ◌<◌, ◌≤◌, ◌≡◌, ◌≢◌, ◌⊎◌, inl, inr, refl, sym, ◌∙◌, arith, true, false, Bool-cases, ne→==,
  [], ◌∷◌, All, All-append, ◌==◌, update_self,
}
use nvm_malloc.Types.Run
use nvm_malloc.Nvm.{Mem, Event, store, fence, flush}
use nvm_malloc.Links.{commit_links}
use nvm_malloc.Links.Phases.{Fits}
use nvm_malloc.Links.Stores.{commit_links-All}
use nvm_malloc.Slot.{Change, activating, freeing, pending, committed, settled, byte_of, unlock}
use nvm_malloc.Threads.{
  Task, Thread, waiting, recording, loaded, marked, fenced, unlocking, returned, records, step,
  holds,
}

-- One of the 64 slots, and links that lie outside the header, if any.
pub record IsPlaced (start h : ℕ) (t : Task) : Type 0 where
  pub range : t.idx < 64
  pub links : (t.links.link1 ≡ 0) ⊎ Fits start h t.links

module _ (h : ℕ) where
  -- A cell of the bitmap.
  abbrev pub InBitmap : ℕ → Type 0
  InBitmap a = (h + Run.bitmap ≤ a) × (a < h + Run.bitmap + 8)

  abbrev pub OffBitmap : ℕ → Type 0
  OffBitmap a = (a < h + Run.bitmap) ⊎ (h + Run.bitmap + 8 ≤ a)

  -- What the holder of the lock stores before it loads the bitmap byte.
  abbrev pub IsRecord : Event → Type 0
  IsRecord (store a v) = ((a ≢ h) ⊎ (v ≢ settled)) × OffBitmap a
  IsRecord fence = Unit
  IsRecord (flush a) = Unit

  -- What a thread stores once it has released the lock.
  abbrev pub IsClear : Event → Type 0
  IsClear (store a v) = (a ≢ h) × OffBitmap a
  IsClear fence = Unit
  IsClear (flush a) = Unit

committed-ne : (ch : Change) → committed ch ≢ settled
committed-ne activating e = omega arith
committed-ne freeing e = omega arith

pending-ne : (ch : Change) → pending ch ≢ settled
pending-ne activating e = omega arith
pending-ne freeing e = omega arith

module _ (start h : ℕ) (t : Task) (placed : IsPlaced start h t) where
  links-OffHeader :
      t.links.link1 ≢ 0
      → ((t.links.link1 < h) ⊎ (h + 64 ≤ t.links.link1))
        × ((t.links.link2 < h) ⊎ (h + 64 ≤ t.links.link2))
  links-OffHeader ne = elim placed.links [ inl e ↦ absurd (ne e) | inr fit ↦ (fit.out1, fit.out2) ]

  pub records-IsRecord : All (IsRecord h) (records start h t)
  unfolding records
  records-IsRecord = (
    (inl (λ e. omega arith), inr (omega arith)),
    All-append (IsRecord h) (commit_links start h (h + Run.on) (committed t.kind) t.links)
        (fence ∷ [])
        (commit_links-All (IsRecord h) tt (λ a. tt) start t.links h (h + Run.on) (committed t.kind)
          (λ a v lo hi. (inl (λ e. omega arith), inl (omega arith)))
          (inr (committed-ne t.kind), inl (omega arith))
          (λ ne v. ground (arith, links-OffHeader ne))
          (λ ne ne2 v. ground (arith, links-OffHeader ne)))
        (tt, tt),
  )

unlock-IsClear : (h : ℕ) → All (IsClear h) (unlock h)
unlock-IsClear h = ground arith

module _ (start h : ℕ) where
  -- What is known of a thread alone: what it has still to store, that the run is locked while it
  -- holds the lock, and that the byte it has loaded is still the one in memory.
  abbrev pub Local : Task → Mem → Thread → Type 0
  Local t m waiting = Unit
  Local t m (recording es) = (m h ≢ settled) × All (IsRecord h) es
  Local t m (loaded v) = (m h ≢ settled) × (v ≡ m (byte_of h t.idx))
  Local t m marked = m h ≢ settled
  Local t m fenced = m h ≢ settled
  Local t m (unlocking es) = All (IsClear h) es
  Local t m returned = Unit

  pub locked : (t : Task) (m : Mem) (th : Thread) → holds th ≡ true → Local t m th → m h ≢ settled
  locked t m waiting e p = cc
  locked t m (recording es) e p = p.0
  locked t m (loaded v) e p = p.0
  locked t m marked e p = p
  locked t m fenced e p = p
  locked t m (unlocking es) e p = cc
  locked t m returned e p = cc

  pub step-Local :
      (t : Task) (m : Mem) (th : Thread)
      → IsPlaced start h t
      → Local t m th
      → let r = step start h t m th in Local t r.0 r.1
  unfolding step
  step-Local t m waiting placed p = elim (Bool-cases (m h == settled)) [
    | inl e ↦ rw e (
      (λ z. pending-ne t.kind (sym (update_self m h (pending t.kind)) ∙ z)),
      records-IsRecord start h t placed,
    )
    | inr e ↦ rw e tt
  ]
  step-Local t m (recording (store a v ∷ es)) placed p = (ground (arith, p.0, p.1.0), p.1.1)
  step-Local t m (recording (fence ∷ es)) placed p = (p.0, p.1.1)
  step-Local t m (recording (flush a ∷ es)) placed p = (p.0, p.1.1)
  step-Local t m (recording []) placed p = (p.0, refl)
  step-Local t m (loaded v) placed p = ground (arith, p.0)
  step-Local t m marked placed p = p
  step-Local t m fenced placed p = unlock-IsClear h
  step-Local t m (unlocking (e ∷ es)) placed p = p.1
  step-Local t m (unlocking []) placed p = tt
  step-Local t m returned placed p = tt

  -- A thread without the lock of a locked run changes neither its state byte nor its bitmap.
  pub step-quiet :
      (t : Task) (m : Mem) (th : Thread) (a : ℕ)
      → Local t m th
      → holds th ≡ false
      → m h ≢ settled
      → (a ≡ h) ⊎ InBitmap h a
      → (step start h t m th).0 a ≡ m a
  unfolding step
  step-quiet t m waiting a p e ne at = rw (ne→== (m h) settled ne) refl
  step-quiet t m (recording es) a p e ne at = cc
  step-quiet t m (loaded v) a p e ne at = cc
  step-quiet t m marked a p e ne at = refl
  step-quiet t m fenced a p e ne at = cc
  step-quiet t m (unlocking (store b v ∷ es)) a p e ne at = ground (arith, p.0)
  step-quiet t m (unlocking (fence ∷ es)) a p e ne at = refl
  step-quiet t m (unlocking (flush b ∷ es)) a p e ne at = refl
  step-quiet t m (unlocking []) a p e ne at = refl
  step-quiet t m returned a p e ne at = refl
