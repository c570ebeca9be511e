-- ===== src/Examples/Unterminated.antt =====
-- An entry in NVRAM with an identifier of 54 letters, and its recovery.
use nvm_malloc.Base.{
  ℕ, ◌+◌, ◌^◌, ◌≤◌, ◌≡◌, refl, inl, arith, some, none, length, ◌∷◌, [], ◌&&◌, leb, ltb, ◌==◌,
  if◌then◌else◌,
}
use nvm_malloc.Nvm.{Mem}
use nvm_malloc.ObjectTable.{ObjectId, ot_get}
use nvm_malloc.ObjectTable.Recover.{Scan, read_id, recover_slot}
use nvm_malloc.ObjectTable.Recover.Kept.{id_at, copy_at}
use nvm_malloc.ObjectTable.Recover.Unterminated.{recover_slot-lost}
use nvm_malloc.Examples.Names.{map, letters, table}

abbrev at : ℕ
at = 2 ^ 32 + 64

-- The entry is in use, and the letters fill its identifier.
abbrev long_name : Mem
long_name a = if a == at then 2 else if ltb at a && leb a (at + 54) then 97 else 0

-- One more letter is in memory from `malloc`.
abbrev old_letter : ℕ → ObjectId
old_letter e = 97 ∷ []

abbrev begun : Scan map
begun = record { table = table; mem = long_name; current_slot = 0; last_used_slot = 0 }

recover_slot-lost_example :
    (54 ≤ length (letters 54))
    × ((t : Scan map) × (recover_slot map old_letter (2 ^ 32) at begun ≡ some t)
        × (ot_get map (letters 54) t.table ≡ none))
unfolding ot_get id_at copy_at read_id
recover_slot-lost_example =
    recover_slot-lost map old_letter (2 ^ 32) long_name at begun
      (record { mem = refl; first = refl; used = omega arith; last = inl refl }) refl (omega arith)
      refl (λ e. omega (arith, e))
