-- ===== src/ObjectTable/Recover/Unterminated.antt =====
-- Identifiers of 54 bytes in `ot_recover` of src/object_table.c.
use nvm_malloc.Base.{
  ℕ, ◌+◌, ◌≤◌, ◌≡◌, ◌≢◌, inl, inr, sym, ◌∙◌, ap, none, some, length, ltb, ltb→lt, ltb→le,
  Bool-cases, ne→==,
}
use nvm_malloc.Types.{max_id_length, state_initialized}
use nvm_malloc.Nvm.{Mem}
use nvm_malloc.ObjectTable.{ObjectId, HashMap, hash_fn, ot_get, slot_buffer_size}
use nvm_malloc.ObjectTable.Lookup.{get, get-set}
use nvm_malloc.ObjectTable.Recover.{Scan, recover_slot}
use nvm_malloc.ObjectTable.Recover.Kept.{
  id_at, copy_at, IsBetween, read_id-short, recover_slot-copied,
}

module _ (lib : HashMap) (behind : ℕ → ObjectId) (start : ℕ) (m : Mem) where
  -- Let an entry be in use, in one of the first 201 slots, let its identifier not be in the table
  -- that is being recovered, and let the map put the identifier into another bucket than the copy
  -- with what is in memory behind it. Then the identifier has 54 bytes, and after the entry was
  -- recovered it is still not found.
  pub recover_slot-lost :
      (e : ℕ) (s : Scan lib)
      → IsBetween lib behind start m s
      → m e ≡ state_initialized
      → s.current_slot ≤ slot_buffer_size
      → ot_get lib (id_at lib behind start m e) s.table ≡ none
      → lib.bucket (hash_fn (id_at lib behind start m e))
        ≢ lib.bucket (hash_fn (copy_at lib behind start m e))
      → (max_id_length ≤ length (id_at lib behind start m e))
        × ((t : Scan lib) × (recover_slot lib behind start e s ≡ some t)
            × (ot_get lib (id_at lib behind start m e) t.table ≡ none))
  unfolding ot_get id_at copy_at
  recover_slot-lost e s b state room absent apart =
      let (t, runs, between, next, last, set) =
        recover_slot-copied lib behind start m e s b state room in
      (
        elim (Bool-cases (ltb (length (id_at lib behind start m e)) max_id_length)) [
          | inl short ↦ absurd (
              apart (
                ap (λ k. lib.bucket (hash_fn k))
                  (sym (read_id-short (behind e) m max_id_length (e + 1) (ltb→lt _ _ short)))))
          | inr long ↦ ltb→le _ _ long
        ],
        (
          t,
          runs,
          ap (get lib (id_at lib behind start m e)) set
              ∙ get-set lib (id_at lib behind start m e) (copy_at lib behind start m e) _
                  s.table.hashmap
              ∙ rw (ne→== _ _ apart) absent,
        ),
      )
