-- ===== src/Arena/Free/Count.antt =====
-- The counter of free slots of a run of src/arena.c and its bitmap.
use nvm_malloc.Base.{
  ℕ, zero, suc, ◌+◌, ◌-◌, ◌/◌, ◌%◌, ◌^◌, ◌≤◌, ◌<◌, ◌≡◌, ◌≢◌, refl, ap, subst, arith, Option, none,
  some, ◌==◌, if◌then◌else◌, update, update_self, update-ne,
}
use native.Mathlib.Decide.{ℕ_discrete}
use native.Mathlib.Nat.{div-le_self}
use nvm_malloc.Types.{block_size}
use nvm_malloc.Bits.{set_bit, clear_bit, set_bit-lt, clear_bit-lt, test_bit-clear_bit}
use nvm_malloc.State.{State}
use nvm_malloc.Arena.{find_slot, slot_taken, take_slot, slots_per_run}
use nvm_malloc.Arena.Slots.{
  slot_bit, IsFirstFree, Took, slot_taken-Took, find_slot-IsFirstFree, slot_bit-update, update_at,
}
use nvm_malloc.Arena.Free.{count_free, release_slot}

-- The bitmaps `f` and `g` differ at slot `k` alone, which is free in `f` and in use in `g`.
record Differ (f g : ℕ → ℕ) (k : ℕ) : Type 0 where
  free : slot_bit f k ≡ 0
  used : slot_bit g k ≢ 0
  other : (j : ℕ) → k ≢ j → slot_bit g j ≡ slot_bit f j

count_free-le : (f : ℕ → ℕ) (rounds i : ℕ) → count_free f rounds i ≤ rounds
unfolding count_free
count_free-le f zero i = omega arith
count_free-le f (suc rounds) i = ground (arith, count_free-le f rounds (i + 1))

module _ (f g : ℕ → ℕ) (k : ℕ) (d : Differ f g k) where
  count_free-above : (rounds i : ℕ) → k < i → count_free g rounds i ≡ count_free f rounds i
  unfolding count_free
  count_free-above zero i lt = refl
  count_free-above (suc rounds) i lt =
      rw (d.other i (λ e. omega arith), count_free-above rounds (i + 1) (omega arith))

  count_free-Differ :
      (rounds i : ℕ) → i ≤ k → k < i + rounds → count_free g rounds i + 1 ≡ count_free f rounds i
  unfolding count_free
  count_free-Differ zero i lo hi = absurd (omega arith)
  count_free-Differ (suc rounds) i lo hi = elim (ℕ_discrete k i) [
    | yes e ↦
        let free : slot_bit f i ≡ 0 = subst (λ j. slot_bit f j ≡ 0) e d.free in
        let used : slot_bit g i ≢ 0 = subst (λ j. slot_bit g j ≢ 0) e d.used in
        let rest = count_free-above rounds (i + 1) (omega arith) in ground (arith, free, used, rest)
    | no ne ↦
        let same = d.other i ne in
        let rest = count_free-Differ rounds (i + 1) (omega arith) (omega arith) in
        ground (arith, same, rest)
  ]

-- The counter is the number of clear bits, and the bitmap consists of bytes.
pub record IsCounted (n_bytes run : ℕ) (s : State) : Type 0 where
  pub count : (s.runs run).n_free ≡ count_free (s.runs run).bitmap (slots_per_run n_bytes) 0
  pub bytes : (k : ℕ) → (s.runs run).bitmap k < 256

count_free-none :
    (f : ℕ → ℕ) (rounds i : ℕ)
    → ((k : ℕ) → i ≤ k → k < i + rounds → slot_bit f k ≢ 0)
    → count_free f rounds i ≡ 0
unfolding count_free
count_free-none f zero i used = refl
count_free-none f (suc rounds) i used =
    let here = used i (omega arith) (omega arith) in
    let rest = count_free-none f rounds (i + 1) (λ k lo hi. used k (omega arith) (omega arith)) in
    ground (arith, here, rest)

slots_small : (n_bytes : ℕ) → slots_per_run n_bytes < 2 ^ 16
slots_small n_bytes = omega (arith, div-le_self (block_size - 64) n_bytes)

module _ (arena bin n_bytes run : ℕ) (s : State) (counted : IsCounted n_bytes run s) where
  abbrev bits : ℕ → ℕ
  bits = (s.runs run).bitmap

  abbrev with_slot : ℕ → ℕ → ℕ
  with_slot i = update bits (i / 8) (set_bit (bits (i / 8)) (i % 8))

  with_slot-Differ : (i : ℕ) → slot_bit bits i ≡ 0 → Differ bits (with_slot i) i
  with_slot-Differ i free = record {
    free = free;
    used = let at = slot_bit-update bits i i (counted.bytes (i / 8)) in ground (arith, at);
    other = λ j ne. let at = slot_bit-update bits i j (counted.bytes (i / 8)) in ground (arith, at);
  }

  slot_taken-IsCounted :
      (i : ℕ)
      → i < slots_per_run n_bytes
      → slot_bit bits i ≡ 0
      → IsCounted n_bytes run (slot_taken arena bin n_bytes run s (some i)).1
  unfolding slot_taken
  slot_taken-IsCounted i lt free =
      let less =
        count_free-Differ bits (with_slot i) i (with_slot-Differ i free) (slots_per_run n_bytes) 0
          (omega arith) (omega arith) in
      let most = count_free-le bits (slots_per_run n_bytes) 0 in
      record {
        count =
            rw (update_self s.runs run _)
              (omega (arith, less, most, counted.count, slots_small n_bytes));
        bytes = λ k. rw (update_self s.runs run _) (
            ground (
              arith,
              set_bit-lt (bits (i / 8)) (i % 8) (counted.bytes (i / 8)) (omega arith),
              counted.bytes k,
            ));
      }

  abbrev Served : Option ℕ → Type 0
  Served found =
      Took n_bytes run s (slot_taken arena bin n_bytes run s found).0
        (slot_taken arena bin n_bytes run s found).1
      × IsCounted n_bytes run (slot_taken arena bin n_bytes run s found).1

  found-Served :
      (found : Option ℕ)
      → 0 < (s.runs run).n_free
      → IsFirstFree bits 0 (slots_per_run n_bytes) found
      → Served found
  found-Served none some_free f = absurd (
      omega (
        arith,
        counted.count,
        count_free-none bits (slots_per_run n_bytes) 0 (λ k lo hi. f k lo (omega arith)),
      ))
  found-Served (some i) some_free f =
      (slot_taken-Took arena bin n_bytes run s i counted.bytes f, slot_taken-IsCounted i f.1 f.2)

  -- If the counter of a run agrees with its bitmap and is not 0, `take_slot` succeeds: it takes the
  -- first free slot and marks it alone, and the counter agrees with the bitmap afterwards.
  pub take_slot-IsCounted :
      0 < (s.runs run).n_free
      → let (ptr, t) = take_slot arena bin n_bytes run s in
        Took n_bytes run s ptr t × IsCounted n_bytes run t
  unfolding take_slot
  take_slot-IsCounted some_free =
      found-Served (find_slot bits (slots_per_run n_bytes) 0) some_free
        (find_slot-IsFirstFree bits (slots_per_run n_bytes) 0 (slots_per_run n_bytes) (omega arith))

slot_bit-clear :
    (bitmap : ℕ → ℕ) (i j : ℕ)
    → bitmap (i / 8) < 256
    → slot_bit (update bitmap (i / 8) (clear_bit (bitmap (i / 8)) (i % 8))) j
      ≡ (if i == j then 0 else slot_bit bitmap j)
slot_bit-clear bitmap i j byte = elim (ℕ_discrete (j / 8) (i / 8)) [
  | yes same ↦
      let here =
        test_bit-clear_bit (bitmap (i / 8)) (i % 8) (j % 8) byte (omega arith) (omega arith) in
      let moved = ap bitmap same in
      rw (update_at bitmap (i / 8) (clear_bit (bitmap (i / 8)) (i % 8)) (j / 8) same)
        (ground (arith, here, moved))
  | no other ↦
      rw (update-ne bitmap (i / 8) (clear_bit (bitmap (i / 8)) (i % 8)) (j / 8) other)
        (ground arith)
]

module _ (n_bytes run idx : ℕ) (s : State) (counted : IsCounted n_bytes run s) where
  abbrev without_slot : ℕ → ℕ
  without_slot =
      update (s.runs run).bitmap (idx / 8) (clear_bit ((s.runs run).bitmap (idx / 8)) (idx % 8))

  without_slot-Differ :
      slot_bit (s.runs run).bitmap idx ≢ 0 → Differ without_slot (s.runs run).bitmap idx
  without_slot-Differ used = record {
    free =
        let at = slot_bit-clear (s.runs run).bitmap idx idx (counted.bytes (idx / 8)) in
        ground (arith, at);
    used = used;
    other = λ j ne.
        let at = slot_bit-clear (s.runs run).bitmap idx j (counted.bytes (idx / 8)) in
        ground (arith, at);
  }

  -- If the counter of a run agrees with its bitmap, the release of a slot in use leaves them in
  -- agreement, and the counter one larger.
  pub release_slot-IsCounted :
      idx < slots_per_run n_bytes
      → slot_bit (s.runs run).bitmap idx ≢ 0
      → IsCounted n_bytes run (release_slot run idx s)
        × (((release_slot run idx s).runs run).n_free ≡ (s.runs run).n_free + 1)
  unfolding release_slot
  release_slot-IsCounted lt used =
      let more =
        count_free-Differ without_slot (s.runs run).bitmap idx (without_slot-Differ used)
          (slots_per_run n_bytes) 0 (omega arith) (omega arith) in
      let most = count_free-le without_slot (slots_per_run n_bytes) 0 in
      (
        record {
          count =
              rw (update_self s.runs run _)
                (omega (arith, more, most, counted.count, slots_small n_bytes));
          bytes = λ k. rw (update_self s.runs run _) (
              ground (
                arith,
                clear_bit-lt ((s.runs run).bitmap (idx / 8)) (idx % 8) (counted.bytes (idx / 8))
                    (omega arith),
                counted.bytes k,
              ));
        },
        rw (update_self s.runs run _)
            (omega (arith, more, most, counted.count, slots_small n_bytes)),
      )
