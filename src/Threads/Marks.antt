-- ===== src/Threads/Marks.antt =====
-- The bitmap of a run under concurrent changes of its slots: it is what the changes come to if
-- each is made at once, one after the other. src/nvm_malloc.c and src/arena.c.
use nvm_malloc.Base.{
  ℕ, suc, ◌%◌, ◌<◌, ◌≡◌, ◌⊎◌, inl, inr, refl, sym, ◌∙◌, arith, Bool, true, false, Bool-cases, List,
  [], ◌∷◌, ◌==◌, ==_refl, ne→==, if◌then◌else◌, update, update-ne, update-cases, ap,
}
use nvm_malloc.Nvm.{Mem, store, fence, flush}
use nvm_malloc.Slot.{pending, settled, changed, byte_of}
use nvm_malloc.Threads.{
  Task, Thread, waiting, recording, loaded, marked, fenced, unlocking, returned, step, Machine,
  advance, Reachable, initial, next, has_marked,
}
use nvm_malloc.Threads.Lock.{IsPlaced, InBitmap, Local}
use nvm_malloc.Threads.Exclusion.{IsExclusive, Reachable-IsExclusive}

-- A change of a slot's bit, made at once.
abbrev pub mark_slot : (h : ℕ) → Task → Mem → Mem
mark_slot h t m = update m (byte_of h t.idx) (changed t.kind (m (byte_of h t.idx)) (t.idx % 8))

-- The changes of a list of threads, the last of the list first.
abbrev pub mark_all : (h : ℕ) → (ℕ → Task) → List ℕ → Mem → Mem
mark_all h tasks [] m = m
mark_all h tasks (i ∷ order) m = mark_slot h (tasks i) (mark_all h tasks order m)

-- How often a thread stands in a list.
abbrev pub count : ℕ → List ℕ → ℕ
count i [] = 0
count i (j ∷ order) = if i == j then suc (count i order) else count i order

abbrev pub once : Bool → ℕ
once b = if b then 1 else 0

module _ (start h : ℕ) where
  -- A step leaves the bitmap as it is, or is the one that makes the thread's change.
  step-mark :
      (t : Task) (m : Mem) (th : Thread)
      → Local start h t m th
      → let r = step start h t m th in
        ((has_marked r.1 ≡ has_marked th) × ((a : ℕ) → InBitmap h a → r.0 a ≡ m a))
        ⊎ ((has_marked th ≡ false) × (has_marked r.1 ≡ true) × (r.0 ≡ mark_slot h t m))
  unfolding step
  step-mark t m waiting p = elim (Bool-cases (m h == settled)) [
    | inl e ↦ inl (rw e (refl, λ a at. update-ne m h (pending t.kind) a (omega arith)))
    | inr e ↦ inl (rw e (refl, λ a at. refl))
  ]
  step-mark t m (recording (store b v ∷ es)) p = inl (refl, λ a at. ground (arith, p.1.0.1))
  step-mark t m (recording (fence ∷ es)) p = inl (refl, λ a at. refl)
  step-mark t m (recording (flush b ∷ es)) p = inl (refl, λ a at. refl)
  step-mark t m (recording []) p = inl (refl, λ a at. refl)
  step-mark t m (loaded v) p = inr (refl, refl, rw (p.1))
  step-mark t m marked p = inl (refl, λ a at. refl)
  step-mark t m fenced p = inl (refl, λ a at. update-ne m h settled a (omega arith))
  step-mark t m (unlocking (store b v ∷ es)) p = inl (refl, λ a at. ground (arith, p.0.1))
  step-mark t m (unlocking (fence ∷ es)) p = inl (refl, λ a at. refl)
  step-mark t m (unlocking (flush b ∷ es)) p = inl (refl, λ a at. refl)
  step-mark t m (unlocking []) p = inl (refl, λ a at. refl)
  step-mark t m returned p = inl (refl, λ a at. refl)

  -- A change of a slot sees the bitmap alone.
  mark_slot-same :
      (t : Task) (m n : Mem)
      → t.idx < 64
      → ((a : ℕ) → InBitmap h a → m a ≡ n a)
      → (a : ℕ) → InBitmap h a
      → mark_slot h t m a ≡ mark_slot h t n a
  mark_slot-same t m n lt same a at =
      rw (same a at, same (byte_of h t.idx) (omega arith, omega arith))

module _ (start h : ℕ) (tasks : ℕ → Task) (m₀ : Mem) where
  -- The threads in `order` have made their changes, each once and no other, and the bitmap is what
  -- these changes make of that of `m₀`.
  pub record IsOrder (s : Machine) (order : List ℕ) : Type 0 where
    pub counts : (j : ℕ) → count j order ≡ once (has_marked (s.threads j))
    pub bitmap : (a : ℕ) → InBitmap h a → s.mem a ≡ mark_all h tasks order m₀ a

  module _ (placed : (i : ℕ) → IsPlaced start h (tasks i)) where
    advance-IsOrder :
        (s : Machine) (i : ℕ)
        → IsExclusive start h tasks s
        → (order : List ℕ) → IsOrder s order
        → (order' : List ℕ) × IsOrder (advance start h tasks i s) order'
    unfolding advance
    advance-IsOrder s i good order held =
        elim (step-mark start h (tasks i) s.mem (s.threads i) (good.local i)) [
          | inl same ↦ (
            order,
            record {
              counts = λ j.
                  update-cases (λ th. count j order ≡ once (has_marked th)) s.threads i _ j
                    (λ e.
                      held.counts j
                      ∙ ap (λ k. once (has_marked (s.threads k))) e
                      ∙ ap once (sym same.0))
                    (λ ne. held.counts j);
              bitmap = λ a at. same.1 a at ∙ held.bitmap a at;
            },
          )
          | inr made ↦ (
            i ∷ order,
            record {
              counts = λ j.
                  update-cases (λ th. count j (i ∷ order) ≡ once (has_marked th)) s.threads i _ j
                    (λ e. rw (made.1, e, ==_refl i) (ground (arith, held.counts i, made.0)))
                    (λ ne. rw (ne→== j i ne) (held.counts j));
              bitmap = λ a at.
                  ap (λ n. n a) made.2
                  ∙ mark_slot-same start h (tasks i) s.mem (mark_all h tasks order m₀)
                      ((placed i).range) held.bitmap a at;
            },
          )
        ]

    -- Let every thread change one of the 64 slots, with links, if any, that lie outside the header.
    -- However the threads are interleaved, no update of the bitmap is lost: there is an order of
    -- the threads that have stored to the bitmap, each of them once, such that the bitmap is what
    -- their changes make of the first one if each is made at once and in that order.
    pub Reachable-IsOrder :
        (s : Machine) → Reachable start h tasks m₀ s → (order : List ℕ) × IsOrder s order
    Reachable-IsOrder s initial = ([], record { counts = λ j. refl; bitmap = λ a at. refl })
    Reachable-IsOrder s (next {s = r} i path) =
        let (order, held) = Reachable-IsOrder r path in
        advance-IsOrder r i (Reachable-IsExclusive start h tasks placed m₀ r path) order held
