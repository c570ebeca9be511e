-- ===== src/ObjectTable/Buffer.antt =====
-- The buffer of freed slots of src/object_table.c as a queue.
use nvm_malloc.Base.{
  ℕ, zero, suc, ◌+◌, ◌-◌, ◌%◌, ◌^◌, ◌≤◌, ◌<◌, ◌≡◌, ◌⊎◌, inl, inr, refl, ap, ap₂, subst, ◌∙◌, arith,
  true, Option, none, some, List, [], ◌∷◌, ◌++◌, ◌==◌, update, update-ne, update_self, Bool-cases,
  ltb, leb,
}
use nvm_malloc.ObjectTable.{
  ObjectId, Entry, HashMap, Table, ot_ok, Outcome, returns, out_of_bounds, spins, ot_get,
  reserve_slot, remove_entry, ot_remove, not_positive, slot_buffer_size,
}

module _ (lib : HashMap) where
  -- The indices agree: the tail is the last written place, and the free ones lie in between.
  pub record IsFifo (s : Table lib) : Type 0 where
    pub in_order : s.slot_buffer_head_idx ≤ s.slot_buffer_next_idx
    pub in_buffer : s.slot_buffer_next_idx ≤ slot_buffer_size
    pub n_free : s.slot_buffer_head_idx + s.slot_buffer_n_free ≡ s.slot_buffer_next_idx
    pub tail : s.slot_buffer_tail_idx ≡ (s.slot_buffer_next_idx + 2 ^ 64 - 1) % 2 ^ 64

  -- the `n` slots of the buffer from `i` on
  abbrev pub slice : (ℕ → ℕ) → ℕ → ℕ → List ℕ
  slice f i zero = []
  slice f i (suc n) = f i ∷ slice f (i + 1) n

  -- The freed slots that wait for reuse, oldest first.
  abbrev pub freed : Table lib → List ℕ
  freed s = slice s.slot_buffer s.slot_buffer_head_idx s.slot_buffer_n_free

  slice-snoc :
      (f : ℕ → ℕ) (i n k v : ℕ)
      → k ≡ i + n
      → slice (update f k v) i (suc n) ≡ slice f i n ++ (v ∷ [])
  slice-snoc f i zero k v e =
      ap (λ x. x ∷ []) (subst (λ j. update f k v j ≡ v) (omega (arith, e)) (update_self f k v))
  slice-snoc f i (suc n) k v e =
      ap₂ ◌∷◌ (update-ne f k v i (omega arith)) (slice-snoc f (i + 1) n k v (omega arith))

  -- The table after the removal of an entry, while the index has not gone round.
  abbrev pub without : ObjectId → Entry → Table lib → Table lib
  without id e s = record s {
    hashmap = lib.del id s.hashmap;
    slot_buffer = update s.slot_buffer s.slot_buffer_next_idx e.slot;
    slot_buffer_next_idx = s.slot_buffer_next_idx + 1;
    slot_buffer_tail_idx = s.slot_buffer_next_idx;
    slot_buffer_n_free = s.slot_buffer_n_free + 1;
  }

  remove_entry-without :
      (id : ObjectId) (e : Entry) (s : Table lib)
      → IsFifo s
      → s.slot_buffer_next_idx < slot_buffer_size
      → remove_entry lib id e s ≡ returns (ot_ok, without id e s)
  unfolding remove_entry
  remove_entry-without id e s v lt =
      let small : s.slot_buffer_next_idx % slot_buffer_size ≡ s.slot_buffer_next_idx =
        omega arith in
      let count : (s.slot_buffer_n_free + 1) % 2 ^ 16 ≡ s.slot_buffer_n_free + 1 =
        omega (arith, v.n_free) in
      let test : (s.slot_buffer_tail_idx == (s.slot_buffer_next_idx + 2 ^ 64 - 1) % 2 ^ 64) ≡ true =
        ground (arith, v.tail) in
      rw (small, test, count)

  remove_entry-spins :
      (id : ObjectId) (e : Entry) (s : Table lib)
      → IsFifo s
      → s.slot_buffer_next_idx ≡ slot_buffer_size
      → remove_entry lib id e s ≡ spins
  unfolding remove_entry
  remove_entry-spins id e s v full = ground (arith, v.tail, full)

  -- While the indices of the buffer agree and fewer than 200 removals have been made, the removal
  -- of an identifier in the table succeeds, puts its slot behind the freed ones, and leaves the
  -- indices in agreement.
  ot_remove-freed :
      (id : ObjectId) (e : Entry) (s : Table lib)
      → IsFifo s
      → s.slot_buffer_next_idx < slot_buffer_size
      → ot_get lib id s ≡ some e
      → (t : Table lib) × (ot_remove lib id s ≡ returns (ot_ok, t))
        × IsFifo t
        × (freed t ≡ freed s ++ (e.slot ∷ []))
  unfolding ot_remove
  ot_remove-freed id e s v lt found = (
    without id e s,
    rw (found, ot_remove) (remove_entry-without id e s v lt),
    record {
      in_order = omega (arith, v.in_order);
      in_buffer = omega arith;
      n_free = omega (arith, v.n_free);
      tail = omega (arith, v.in_buffer);
    },
    (ap (slice (without id e s).slot_buffer s.slot_buffer_head_idx) {y = suc s.slot_buffer_n_free}
          (omega arith)
        ∙ slice-snoc s.slot_buffer s.slot_buffer_head_idx s.slot_buffer_n_free
            s.slot_buffer_next_idx e.slot (omega (arith, v.n_free))),
  )

  -- If the indices of the buffer agree and 200 removals have been made, the removal of any
  -- identifier in the table never ends: the tail is 199, and the loop waits for it to be -1.
  pub ot_remove-spins :
      (id : ObjectId) (e : Entry) (s : Table lib)
      → IsFifo s
      → s.slot_buffer_next_idx ≡ slot_buffer_size
      → ot_get lib id s ≡ some e
      → ot_remove lib id s ≡ spins
  unfolding ot_remove
  ot_remove-spins id e s v full found = rw (found, ot_remove) (remove_entry-spins id e s v full)

  -- How `reserve_slot` ends, in terms of the queue of freed slots.
  abbrev pub Reserved : Table lib → Outcome (Option (ℕ × Table lib)) → Type 0
  Reserved s (returns none) = (freed s ≡ []) × (s.total_slots_available ≤ s.next_nvm_slot)
  Reserved s (returns (some (slot, t))) =
      IsFifo t
      × ((freed s ≡ slot ∷ freed t)
          ⊎ ((freed s ≡ [])
              × (freed t ≡ [])
              × (slot ≡ s.next_nvm_slot)
              × (slot < s.total_slots_available)))
  Reserved s out_of_bounds = ⊥
  Reserved s spins = ⊥

  -- While the indices of the buffer agree, `reserve_slot` takes the oldest freed slot, or a new
  -- slot if none is freed, and then they still agree; it finds none only if there is none of
  -- either, and it never reads outside the buffer.
  pub reserve_slot-Reserved : (s : Table lib) → IsFifo s → Reserved s (reserve_slot lib s)
  unfolding reserve_slot
  reserve_slot-Reserved s v = elim (Bool-cases (not_positive lib s.slot_buffer_n_free)) [
    | inl old ↦
        let empty : s.slot_buffer_n_free ≡ 0 = ground (arith, v.n_free, v.in_buffer) in
        elim (Bool-cases (leb s.total_slots_available s.next_nvm_slot)) [
          | inl full ↦ rw (old, full) (rw empty refl, ground arith)
          | inr room ↦
              rw (old, room)
                (
                  record {
                    in_order = v.in_order;
                    in_buffer = v.in_buffer;
                    n_free = v.n_free;
                    tail = v.tail;
                  },
                  inr (rw empty refl, rw empty refl, refl, ground arith),
                )
        ]
    | inr reuse ↦
        let more : s.slot_buffer_n_free ≡ suc (s.slot_buffer_n_free - 1) = ground arith in
        let inside : ltb s.slot_buffer_head_idx slot_buffer_size ≡ true =
          ground (arith, v.n_free, v.in_buffer) in
        rw (reuse, inside)
          (
            record {
              in_order = omega (arith, v.n_free);
              in_buffer = v.in_buffer;
              n_free = omega (arith, v.n_free);
              tail = v.tail;
            },
            inl (ap (slice s.slot_buffer s.slot_buffer_head_idx) more),
          )
  ]
