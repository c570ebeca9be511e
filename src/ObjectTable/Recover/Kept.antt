-- ===== src/ObjectTable/Recover/Kept.antt =====
-- The scan of entries by `ot_recover` of src/object_table.c, when no activation was under way.
use nvm_malloc.Base.{
  ℕ, zero, suc, ◌+◌, ◌-◌, ◌≤◌, ◌<◌, ◌≡◌, ◌≢◌, ◌⊎◌, inr, refl, sym, ◌∙◌, ap, ap₂, arith, true, some,
  ne→==, ltb, [], ◌∷◌, length, Bool-cases, inl, ◌==◌,
}
use nvm_malloc.Types.{max_id_length, state_initialized, state_initializing, rel_to_abs}
use nvm_malloc.Nvm.{Mem}
use nvm_malloc.ObjectTable.{ObjectId, Entry, HashMap, Table, slot_buffer_size}
use nvm_malloc.ObjectTable.Recover.{
  Scan, push_slot, push_slots, read_id, judge_entry, add_recovered, next_slot, recover_slot,
}

module _ (lib : HashMap) where
  -- The gaps between entries go to the slot buffer as long as it has room.
  push_slots-room :
      (rounds n : ℕ) (t : Table lib)
      → t.slot_buffer_next_idx + rounds ≤ slot_buffer_size
      → (u : Table lib) × (push_slots lib rounds n t ≡ some u)
        × (u.hashmap ≡ t.hashmap)
        × (u.first_chunk ≡ t.first_chunk)
        × (u.slot_buffer_next_idx ≡ t.slot_buffer_next_idx + rounds)
  unfolding push_slots
  push_slots-room zero n t room = (t, refl, refl, refl, omega arith)
  push_slots-room (suc rounds) n t room =
      let (u, e, same, first, next) =
        push_slots-room rounds (n + 1) (push_slot lib n t) (omega (arith, room)) in
      let open_slot : ltb t.slot_buffer_next_idx slot_buffer_size ≡ true = ground (arith, room) in
      (u, rw (open_slot, e) refl, same, first, omega (arith, next))

-- An identifier that ends within its cells is read without a look behind them.
pub read_id-short :
    (behind : ObjectId) (m : Mem) (n a : ℕ)
    → length (read_id [] m n a) < n
    → read_id behind m n a ≡ read_id [] m n a
unfolding read_id
read_id-short behind m zero a short = absurd (omega (arith, short))
read_id-short behind m (suc n) a short = elim (Bool-cases (m a == 0)) [
  | inl end ↦ rw end refl
  | inr more ↦
      rw more
        (ap (λ t. m a ∷ t) (read_id-short behind m n (a + 1) (omega (arith, (rw more at short)))))
]

module _ (lib : HashMap) (behind : ℕ → ObjectId) (start : ℕ) (m : Mem) where
  -- The identifier in an entry, and what the table holds for the entry of slot `slot` at `e`.
  unfoldable pub id_at : ℕ → ObjectId
  id_at e = read_id [] m max_id_length (e + 1)

  -- The identifier ends within its 54 bytes.
  abbrev pub IsShort : ℕ → Type 0
  IsShort e = length (id_at e) < max_id_length

  pub entry_for : (slot e : ℕ) → Entry
  entry_for slot e = record {
    id = id_at e;
    slot = slot;
    data_ptr = rel_to_abs start (m (e + 56));
    nvm_entry = e;
  }

  pub record IsBetween (s : Scan lib) : Type 0 where
    pub mem : s.mem ≡ m
    pub first : s.table.first_chunk ≡ start
    pub used : s.table.slot_buffer_next_idx ≤ s.last_used_slot
    pub last : (s.last_used_slot ≡ 0) ⊎ (s.last_used_slot < s.current_slot)

  -- The identifier that the code makes of an entry, and what it sets under it.
  unfoldable pub copy_at : ℕ → ObjectId
  copy_at e = read_id (behind e) m max_id_length (e + 1)

  pub copy_for : (slot e : ℕ) → Entry
  unfolding copy_at
  copy_for slot e = record {
    id = copy_at e;
    slot = slot;
    data_ptr = rel_to_abs start (m (e + 56));
    nvm_entry = e;
  }

  pub recover_slot-copied :
      (e : ℕ) (s : Scan lib)
      → IsBetween s
      → m e ≡ state_initialized
      → s.current_slot ≤ slot_buffer_size
      → (t : Scan lib) × (recover_slot lib behind start e s ≡ some t)
        × IsBetween t
        × (t.current_slot ≡ s.current_slot + 1)
        × (t.last_used_slot ≡ s.current_slot)
        × (t.table.hashmap ≡ lib.set (copy_at e) (copy_for s.current_slot e) s.table.hashmap)
  unfolding recover_slot add_recovered judge_entry next_slot copy_at copy_for
  recover_slot-copied e s b state room =
      let at : s.mem e ≡ state_initialized = ap (λ (x : Mem). x e) b.mem ∙ state in
      let (u, f, same, first, next) =
        push_slots-room lib (s.current_slot - (s.last_used_slot + 1)) (s.last_used_slot + 1) s.table
          (omega (arith, b.used, b.last, room)) in
      let added : Table lib = record u {
        hashmap =
            lib.set (read_id (behind e) s.mem max_id_length (e + 1))
              (record {
                id = read_id (behind e) s.mem max_id_length (e + 1);
                slot = s.current_slot;
                data_ptr = rel_to_abs s.table.first_chunk (s.mem (e + 56));
                nvm_entry = e;
              })
              u.hashmap;
      } in
      (
        record {
          table = added;
          mem = s.mem;
          current_slot = s.current_slot + 1;
          last_used_slot = s.current_slot;
        },
        rw (at, f) refl,
        record {
          mem = b.mem;
          first = first ∙ b.first;
          used = omega (arith, next, b.used, b.last);
          last = inr (omega arith);
        },
        refl,
        refl,
        ap₂
              (λ (x : Mem) (z : ℕ).
                lib.set (read_id (behind e) x max_id_length (e + 1))
                  (record {
                    id = read_id (behind e) x max_id_length (e + 1);
                    slot = s.current_slot;
                    data_ptr = rel_to_abs z (x (e + 56));
                    nvm_entry = e;
                  })
                  u.hashmap)
              b.mem b.first
            ∙ ap (lib.set (copy_at e) (copy_for s.current_slot e)) same,
      )

  pub recover_slot-kept :
      (e : ℕ) (s : Scan lib)
      → IsBetween s
      → m e ≡ state_initialized
      → IsShort e
      → s.current_slot ≤ slot_buffer_size
      → (t : Scan lib) × (recover_slot lib behind start e s ≡ some t)
        × IsBetween t
        × (t.current_slot ≡ s.current_slot + 1)
        × (t.last_used_slot ≡ s.current_slot)
        × (t.table.hashmap ≡ lib.set (id_at e) (entry_for s.current_slot e) s.table.hashmap)
  unfolding id_at entry_for copy_at copy_for
  recover_slot-kept e s b state short room =
      let (t, runs, between, next, last, set) = recover_slot-copied e s b state room in
      (
        t,
        runs,
        between,
        next,
        last,
        set
            ∙ ap
                (λ (k : ObjectId).
                  lib.set k
                    (record {
                      id = k;
                      slot = s.current_slot;
                      data_ptr = rel_to_abs start (m (e + 56));
                      nvm_entry = e;
                    })
                    s.table.hashmap)
                (read_id-short (behind e) m max_id_length (e + 1) short),
      )

  pub recover_slot-skipped :
      (e : ℕ) (s : Scan lib)
      → IsBetween s
      → m e ≢ state_initialized
      → m e ≢ state_initializing
      → recover_slot lib behind start e s ≡ some (next_slot lib s)
  unfolding recover_slot judge_entry
  recover_slot-skipped e s b n1 n2 =
      let at : s.mem e ≡ m e = ap (λ (x : Mem). x e) b.mem in
      let a1 : s.mem e ≢ state_initialized = λ z. n1 (sym at ∙ z) in
      let a2 : s.mem e ≢ state_initializing = λ z. n2 (sym at ∙ z) in
      rw (ne→== (s.mem e) state_initialized a1, ne→== (s.mem e) state_initializing a2) refl
