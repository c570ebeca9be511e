-- ===== src/Threads/Slots.antt =====
-- One slot of a run under concurrent changes of all: src/nvm_malloc.c and src/arena.c.
use nvm_malloc.Base.{
  ℕ, suc, ◌%◌, ◌<◌, ◌≡◌, ◌≢◌, inl, inr, refl, ◌∙◌, arith, false, Bool-cases, List, [], ◌∷◌, ◌==◌,
  ==→eq, ==_refl, ne→==, if◌then◌else◌, ap,
}
use nvm_malloc.Bits.{test_bit, test_bit-set_bit, test_bit-clear_bit, set_bit-lt, clear_bit-lt}
use nvm_malloc.Nvm.{Mem}
use nvm_malloc.Slot.{Change, activating, freeing, changed, byte_of}
use nvm_malloc.Threads.{Task, Machine, Reachable, has_marked}
use nvm_malloc.Threads.Lock.{IsPlaced, InBitmap}
use nvm_malloc.Threads.Marks.{mark_slot, mark_all, count, Reachable-IsOrder}

-- The bit of a slot: 1 if it is in use.
abbrev pub bit_at : (h idx : ℕ) → Mem → ℕ
bit_at h idx m = test_bit (m (byte_of h idx)) (idx % 8)

-- What a change makes of the bit.
abbrev pub bit_of : Change → ℕ
bit_of activating = 1
bit_of freeing = 0

test_bit-changed :
    (ch : Change) (b i j : ℕ)
    → b < 256
    → i < 8
    → j < 8
    → test_bit (changed ch b i) j ≡ (if i == j then bit_of ch else test_bit b j)
test_bit-changed activating b i j = test_bit-set_bit b i j
test_bit-changed freeing b i j = test_bit-clear_bit b i j

changed-lt : (ch : Change) (b i : ℕ) → b < 256 → i < 8 → changed ch b i < 256
changed-lt activating b i = set_bit-lt b i
changed-lt freeing b i = clear_bit-lt b i

-- The bitmap consists of bytes.
abbrev pub AreBytes : ℕ → Mem → Type 0
AreBytes h m = (a : ℕ) → InBitmap h a → m a < 256

module _ (h : ℕ) where
  mark_slot-AreBytes :
      (t : Task) (m : Mem) → t.idx < 64 → AreBytes h m → AreBytes h (mark_slot h t m)
  mark_slot-AreBytes t m lt bytes a at = elim (Bool-cases (a == byte_of h t.idx)) [
    | inl e ↦ rw e (
        changed-lt t.kind (m (byte_of h t.idx)) (t.idx % 8)
          (bytes (byte_of h t.idx) (omega arith, omega arith)) (omega arith))
    | inr e ↦ rw e (bytes a at)
  ]

  bit_at-mark_slot :
      (t : Task) (m : Mem) (k : ℕ)
      → t.idx < 64
      → k < 64
      → AreBytes h m
      → bit_at h k (mark_slot h t m) ≡ (if t.idx == k then bit_of t.kind else bit_at h k m)
  bit_at-mark_slot t m k lt kt bytes = elim (Bool-cases (byte_of h k == byte_of h t.idx)) [
    | inl e ↦
        let same : byte_of h k ≡ byte_of h t.idx = ==→eq _ _ e in
        let low : (t.idx % 8 == k % 8) ≡ (t.idx == k) = ground (arith, same) in
        rw e (
          test_bit-changed t.kind (m (byte_of h t.idx)) (t.idx % 8) (k % 8)
            (bytes (byte_of h t.idx) (omega arith, omega arith)) (omega arith) (omega arith)
          ∙ rw (low, same) refl)
    | inr e ↦
        let apart : (t.idx == k) ≡ false = ne→== _ _ (λ z. ground (arith, e, z)) in
        rw (e, apart) refl
  ]

module _ (start h : ℕ) (tasks : ℕ → Task) (placed : (i : ℕ) → IsPlaced start h (tasks i)) where
  mark_all-AreBytes :
      (order : List ℕ) (m : Mem) → AreBytes h m → AreBytes h (mark_all h tasks order m)
  mark_all-AreBytes [] m bytes = bytes
  mark_all-AreBytes (i ∷ order) m bytes =
      mark_slot-AreBytes h (tasks i) (mark_all h tasks order m) ((placed i).range)
        (mark_all-AreBytes order m bytes)

  bit_at-mark_all :
      (i : ℕ)
      → ((j : ℕ) → j ≢ i → (tasks j).idx ≢ (tasks i).idx)
      → (order : List ℕ) (m : Mem) → AreBytes h m
      → bit_at h (tasks i).idx (mark_all h tasks order m)
        ≡ (if count i order == 0 then bit_at h (tasks i).idx m else bit_of (tasks i).kind)
  bit_at-mark_all i own [] m bytes = refl
  bit_at-mark_all i own (j ∷ order) m bytes =
      bit_at-mark_slot h (tasks j) (mark_all h tasks order m) (tasks i).idx (placed j).range
        (placed i).range (mark_all-AreBytes order m bytes)
      ∙ (elim (Bool-cases (i == j)) [
        | inl e ↦ rw (
          ==→eq i j e,
          ==_refl j,
          ==_refl (tasks j).idx,
          ne→== (suc (count i order)) 0 (omega arith),
        )
        | inr e ↦
            rw (e, ne→== (tasks j).idx (tasks i).idx (own j (λ z. ground (arith, e, z))))
              (bit_at-mark_all i own order m bytes)
      ])

  -- Let every thread change one of the 64 slots, with links, if any, that lie outside the header,
  -- let the bitmap consist of bytes at first, and let no other thread change the slot of thread
  -- `i`. However the threads are interleaved, the bit of that slot is as it was at first until
  -- thread `i` has stored to the bitmap, and from then on as its change makes it, whatever the
  -- others do to the other bits of the byte.
  pub Reachable-bit_at :
      (m₀ : Mem)
      → AreBytes h m₀
      → (i : ℕ) → ((j : ℕ) → j ≢ i → (tasks j).idx ≢ (tasks i).idx)
      → (s : Machine) → Reachable start h tasks m₀ s
      → bit_at h (tasks i).idx s.mem
        ≡ (if has_marked (s.threads i) then bit_of (tasks i).kind else bit_at h (tasks i).idx m₀)
  Reachable-bit_at m₀ bytes i own s path =
      let (order, held) = Reachable-IsOrder start h tasks m₀ placed s path in
      let cell = byte_of h (tasks i).idx in
      ap (λ v. test_bit v ((tasks i).idx % 8))
        (held.bitmap cell (omega (arith, (placed i).range), omega (arith, (placed i).range)))
      ∙ bit_at-mark_all i own order m₀ bytes
      ∙ rw (held.counts i)
          (elim (Bool-cases (has_marked (s.threads i))) [ inl e ↦ rw e refl | inr e ↦ rw e refl ])
