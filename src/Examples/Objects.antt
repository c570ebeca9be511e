-- ===== src/Examples/Objects.antt =====
-- A chunk with one named object, and the restart that finds it.
use nvm_malloc.Base.{
  ℕ, zero, suc, ◌+◌, ◌^◌, ◌≤◌, ◌≡◌, ◌≢◌, refl, arith, some, [], ◌==◌, if◌then◌else◌,
}
use nvm_malloc.Types.{state_initialized, state_initializing}
use nvm_malloc.Nvm.{Mem}
use nvm_malloc.ObjectTable.{ObjectId, Table}
use nvm_malloc.ObjectTable.Recover.{read_id, ot_recover}
use nvm_malloc.ObjectTable.Recover.Kept.{id_at, IsShort}
use nvm_malloc.ObjectTable.Recover.Restored.{IsOther, AreApart, HaveRoom, AreSettled}
use nvm_malloc.ObjectTable.Recover.Chain.{rows, chain_entries, IsRestored, ot_recover-IsRestored}
use nvm_malloc.Examples.Names.{map, letters, table}

-- The object "a" in slot 0 of the first chunk points to the first page's region.
abbrev named_region : Mem
named_region a =
    if a == 2 ^ 32 + 64
    then 2
    else if a == 2 ^ 32 + 65
    then 97
    else if a == 2 ^ 32 + 120
    then 4160
    else 0

-- What is in memory from `malloc`: letters.
abbrev pub old : ℕ → ObjectId
old e = letters 2

-- Entries behind the first are free.
behind : (e : ℕ) → 2 ^ 32 + 128 ≤ e → named_region e ≢ state_initialized
behind e le = ground arith

settled : (n e : ℕ) → 2 ^ 32 + 128 ≤ e → AreSettled map old (2 ^ 32) named_region (rows n e)
unfolding rows
settled zero e le = tt
settled (suc n) e le =
    ((ground arith, λ z. absurd (behind e le z)), settled n (e + 64) (omega arith))

first_settled :
    (named_region (2 ^ 32 + 64) ≢ state_initializing)
    × (named_region (2 ^ 32 + 64) ≡ state_initialized
        → IsShort map old (2 ^ 32) named_region (2 ^ 32 + 64))
unfolding id_at read_id
first_settled = (ground arith, λ z. omega arith)

others :
    (k : ObjectId) (n e : ℕ) → 2 ^ 32 + 128 ≤ e → IsOther map old (2 ^ 32) named_region k (rows n e)
unfolding rows
others k zero e le = tt
others k (suc n) e le = (λ z. absurd (behind e le z), others k n (e + 64) (omega arith))

apart : (n e : ℕ) → 2 ^ 32 + 128 ≤ e → AreApart map old (2 ^ 32) named_region (rows n e)
unfolding rows
apart zero e le = tt
apart (suc n) e le = (λ z. absurd (behind e le z), apart n (e + 64) (omega arith))

room : (slot n e : ℕ) → 2 ^ 32 + 128 ≤ e → HaveRoom map old (2 ^ 32) named_region slot (rows n e)
unfolding rows
room slot zero e le = tt
room slot (suc n) e le = (λ z. absurd (behind e le z), room (slot + 1) n (e + 64) (omega arith))

ot_recover-IsRestored_example :
    (t : Table map) × (ot_recover map old (2 ^ 32) 20 named_region table ≡ some (t, named_region))
    × IsRestored map old (2 ^ 32) named_region (chain_entries (2 ^ 32) []) t
unfolding rows chain_entries
ot_recover-IsRestored_example =
    ot_recover-IsRestored map old (2 ^ 32) named_region [] 20 table refl refl refl (omega arith)
      refl (first_settled, settled 62 (2 ^ 32 + 128) (omega arith))
      (
        (λ z.
            others (id_at map old (2 ^ 32) named_region (2 ^ 32 + 64)) 62 (2 ^ 32 + 128)
              (omega arith)),
        apart 62 (2 ^ 32 + 128) (omega arith),
      )
      ((λ z. omega arith), room 1 62 (2 ^ 32 + 128) (omega arith))
