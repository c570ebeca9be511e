-- ===== src/Arena/Slots.antt =====
-- The search of `arena_allocate` of src/arena.c for a slot of a run, and its size classes.
use nvm_malloc.Base.{
  ℕ, zero, suc, ◌+◌, ◌*◌, ◌/◌, ◌%◌, ◌≤◌, ◌<◌, ◌≡◌, ◌≢◌, ◌⊎◌, inl, inr, refl, ap, subst, ◌∙◌, arith,
  Option, none, some, ◌==◌, if◌then◌else◌, update, Bool-cases, ==→eq, update_self, update-ne,
}
use native.Mathlib.Decide.{ℕ_discrete}
use nvm_malloc.Types.{header_size}
use nvm_malloc.Bits.{test_bit, set_bit, test_bit-set_bit}
use nvm_malloc.State.{ArenaRun, State}
use nvm_malloc.Arena.{find_slot, slot_taken, take_slot, slots_per_run}

-- the bit of slot `j`
abbrev pub slot_bit : (ℕ → ℕ) → ℕ → ℕ
slot_bit bitmap j = test_bit (bitmap (j / 8)) (j % 8)

-- The first free slot from `i` on and below `stop`, or none.
abbrev pub IsFirstFree : (ℕ → ℕ) → (i stop : ℕ) → Option ℕ → Type 0
IsFirstFree bitmap i stop none = (k : ℕ) → i ≤ k → k < stop → slot_bit bitmap k ≢ 0
IsFirstFree bitmap i stop (some j) =
    (i ≤ j)
    × (j < stop)
    × (slot_bit bitmap j ≡ 0)
    × ((k : ℕ) → i ≤ k → k < j → slot_bit bitmap k ≢ 0)

module _ (bitmap : ℕ → ℕ) where
  next-IsFirstFree :
      (i stop : ℕ) (found : Option ℕ)
      → slot_bit bitmap i ≢ 0
      → IsFirstFree bitmap (i + 1) stop found
      → IsFirstFree bitmap i stop found
  next-IsFirstFree i stop none used f = λ k lo hi. elim (ℕ_discrete i k) [
    | yes e ↦ subst (λ j. slot_bit bitmap j ≢ 0) e used
    | no ne ↦ f k (omega arith) hi
  ]
  next-IsFirstFree i stop (some j) used f = (
    omega (arith, f.0),
    f.1,
    f.2,
    λ k lo hi. elim (ℕ_discrete i k) [
      | yes e ↦ subst (λ j. slot_bit bitmap j ≢ 0) e used
      | no ne ↦ f.3 k (omega arith) hi
    ],
  )

  pub find_slot-IsFirstFree :
      (rounds i stop : ℕ)
      → i + rounds ≡ stop
      → IsFirstFree bitmap i stop (find_slot bitmap rounds i)
  unfolding find_slot
  find_slot-IsFirstFree zero i stop e = λ k lo hi. absurd (omega arith)
  find_slot-IsFirstFree (suc rounds) i stop e = elim (Bool-cases (slot_bit bitmap i == 0)) [
    | inl unused ↦
        rw unused (omega arith, omega arith, ==→eq _ _ unused, λ k lo hi. absurd (omega arith))
    | inr used ↦ rw used (
        next-IsFirstFree i stop (find_slot bitmap rounds (i + 1)) (ground arith)
          (find_slot-IsFirstFree rounds (i + 1) stop (omega arith)))
  ]

-- A run of which slot `i` was taken: its first free slot, now marked.
pub record Took (n_bytes run : ℕ) (s : State) (ptr : ℕ) (t : State) : Type 0 where
  pub index : ℕ
  pub place : ptr ≡ (s.runs run).nvm_run + header_size + n_bytes * index
  pub first : IsFirstFree (s.runs run).bitmap 0 (slots_per_run n_bytes) (some index)
  pub marked :
      (j : ℕ)
      → slot_bit (t.runs run).bitmap j ≡ (if index == j then 1 else slot_bit (s.runs run).bitmap j)

pub update_at : (f : ℕ → ℕ) (k v l : ℕ) → l ≡ k → update f k v l ≡ v
update_at f k v l e = ground arith

pub slot_bit-update :
    (bitmap : ℕ → ℕ) (i j : ℕ)
    → bitmap (i / 8) < 256
    → slot_bit (update bitmap (i / 8) (set_bit (bitmap (i / 8)) (i % 8))) j
      ≡ (if i == j then 1 else slot_bit bitmap j)
slot_bit-update bitmap i j byte = elim (ℕ_discrete (j / 8) (i / 8)) [
  | yes same ↦
      let here =
        test_bit-set_bit (bitmap (i / 8)) (i % 8) (j % 8) byte (omega arith) (omega arith) in
      let moved = ap bitmap same in
      rw (update_at bitmap (i / 8) (set_bit (bitmap (i / 8)) (i % 8)) (j / 8) same)
        (ground (arith, here, moved))
  | no other ↦
      rw (update-ne bitmap (i / 8) (set_bit (bitmap (i / 8)) (i % 8)) (j / 8) other) (ground arith)
]

pub slot_taken-Took :
    (arena bin n_bytes run : ℕ) (s : State) (i : ℕ)
    → ((k : ℕ) → (s.runs run).bitmap k < 256)
    → IsFirstFree (s.runs run).bitmap 0 (slots_per_run n_bytes) (some i)
    → let (ptr, t) = slot_taken arena bin n_bytes run s (some i) in Took n_bytes run s ptr t
unfolding slot_taken
slot_taken-Took arena bin n_bytes run s i bytes f = record {
  index = i;
  place = refl;
  first = f;
  marked = λ j.
      ap (λ (r : ArenaRun). slot_bit r.bitmap j) (update_self s.runs run _)
      ∙ slot_bit-update (s.runs run).bitmap i j (bytes (i / 8));
}

found-Took :
    (arena bin n_bytes run : ℕ) (s : State) (found : Option ℕ)
    → ((k : ℕ) → (s.runs run).bitmap k < 256)
    → IsFirstFree (s.runs run).bitmap 0 (slots_per_run n_bytes) found
    → let (ptr, t) = slot_taken arena bin n_bytes run s found in
      ((ptr ≡ 0) × IsFirstFree (s.runs run).bitmap 0 (slots_per_run n_bytes) none)
      ⊎ Took n_bytes run s ptr t
unfolding slot_taken
found-Took arena bin n_bytes run s none bytes f = inl (refl, f)
found-Took arena bin n_bytes run s (some i) bytes f =
    inr (slot_taken-Took arena bin n_bytes run s i bytes f)

-- In a run whose bitmap consists of bytes, `take_slot` returns the first slot that is free and
-- marks it, changing the mark of no other slot; or it returns NULL and every slot of the run is in
-- use.
pub take_slot-Took :
    (arena bin n_bytes run : ℕ) (s : State)
    → ((k : ℕ) → (s.runs run).bitmap k < 256)
    → let (ptr, t) = take_slot arena bin n_bytes run s in
      ((ptr ≡ 0) × IsFirstFree (s.runs run).bitmap 0 (slots_per_run n_bytes) none)
      ⊎ Took n_bytes run s ptr t
unfolding take_slot
take_slot-Took arena bin n_bytes run s bytes = found-Took arena bin n_bytes run s _ bytes (
    find_slot-IsFirstFree (s.runs run).bitmap (slots_per_run n_bytes) 0 (slots_per_run n_bytes)
      (omega arith))
