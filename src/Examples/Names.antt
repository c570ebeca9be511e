-- ===== src/Examples/Names.antt =====
-- A map for ulib's, tables of names on it, and the theorems on them; and calls of src/util.c.
use nvm_malloc.Base.{
  List, Bool, true, ap, ap₂, ==→eq, ℕ, zero, suc, length, ◌+◌, ◌-◌, ◌^◌, ◌≡◌, ◌≢◌, ◌≤◌, ◌<◌, ◌%◌,
  refl, arith, false, ◌&&◌, none, some, [], ◌∷◌, ◌==◌, if◌then◌else◌,
}
use nvm_malloc.Types.{usage_run, max_id_length}
use nvm_malloc.ObjectTable.{
  ObjectId, Entry, HashMap, Table, Status, Outcome, returns, spins, out_of_bounds, hash_fn,
  equal_fn, equal_upto, truncate, behind_first, entry_address, ot_get, ot_insert, ot_remove,
  reserve_slot, insert_at, remove_entry,
}
use nvm_malloc.ObjectTable.Lookup.{same_key, ot_insert-get, ot_insert-lost}
use nvm_malloc.ObjectTable.Single.{began, inserted, ot_remove-get, ot_insert-hides}
use nvm_malloc.ObjectTable.Buffer.{IsFifo, Reserved, reserve_slot-Reserved, ot_remove-spins}
use nvm_malloc.Nvm.{Mem, memset_zero}
use nvm_malloc.ObjectTable.Recover.{judge_entry}
use nvm_malloc.ObjectTable.Recover.Entries.{judge_entry-initializing}

pub &&-eq-true : (p q : Bool) → (p && q) ≡ true → (p ≡ true) × (q ≡ true)
&&-eq-true p q e = ground arith

pub equal_upto-truncate :
    (n : ℕ) (a b : ObjectId) → equal_upto n (truncate n a) b ≡ equal_upto n a b
equal_upto-truncate zero a b = refl
equal_upto-truncate (suc n) [] b = refl
equal_upto-truncate (suc n) (c ∷ a) [] = refl
equal_upto-truncate (suc n) (c ∷ a) (d ∷ b) = ap (λ t. (c == d) && t) (equal_upto-truncate n a b)

pub truncate-equal :
    (n : ℕ) (a b : ObjectId) → equal_upto n a b ≡ true → truncate n a ≡ truncate n b
truncate-equal zero a b e = refl
truncate-equal (suc n) [] [] e = refl
truncate-equal (suc n) [] (d ∷ b) e = cc
truncate-equal (suc n) (c ∷ a) [] e = cc
truncate-equal (suc n) (c ∷ a) (d ∷ b) e =
    let (head, tail) = &&-eq-true (c == d) (equal_upto n a b) e in
    ap₂ (λ x t. x ∷ t) (==→eq c d head) (truncate-equal n a b tail)

-- A map as a function of the bucket and of the bytes that `equal_fn` compares, with 128 buckets.
abbrev pub map : HashMap
map = record {
  Map = ℕ → ObjectId → List Entry;
  empty = λ b k. [];
  bucket = λ h. h % 128;
  chain = λ k m. m (hash_fn k % 128) (truncate max_id_length k);
  set = λ j e m b k. if (b == hash_fn j % 128) && equal_fn k j then e ∷ m b k else m b k;
  del = λ j m b k. if (b == hash_fn j % 128) && equal_fn k j then behind_first (m b k) else m b k;
  chain-empty = λ k. refl;
  chain-same = λ k j m e.
      let (at, key) = &&-eq-true (hash_fn k % 128 == hash_fn j % 128) (equal_fn k j) e in
      ap₂ m (==→eq _ _ at) (truncate-equal max_id_length k j key);
  chain-set = λ k j e m.
      ap
        (λ q.
          if (hash_fn k % 128 == hash_fn j % 128) && q
          then e ∷ m (hash_fn k % 128) (truncate max_id_length k)
          else m (hash_fn k % 128) (truncate max_id_length k))
        (equal_upto-truncate max_id_length k j);
  chain-del = λ k j m.
      ap
        (λ q.
          if (hash_fn k % 128 == hash_fn j % 128) && q
          then behind_first (m (hash_fn k % 128) (truncate max_id_length k))
          else m (hash_fn k % 128) (truncate max_id_length k))
        (equal_upto-truncate max_id_length k j);
}

abbrev pub name : ObjectId
name = 97 ∷ 98 ∷ []

-- A table over 63 slots that holds nothing.
abbrev pub table : Table map
table = record {
  hashmap = λ b k. [];
  slot_buffer = λ i. 0;
  slot_buffer_next_idx = 0;
  slot_buffer_head_idx = 0;
  slot_buffer_tail_idx = 2 ^ 64 - 1;
  slot_buffer_n_free = 0;
  total_slots_available = 63;
  next_nvm_slot = 0;
  first_chunk = 2 ^ 32;
}

abbrev result : Outcome (Status × Table map) → Table map
result (returns (status, t)) = t
result out_of_bounds = table
result spins = table

abbrev with_name : Table map
with_name = result (ot_insert map name 4096 table)

ot_insert-get_example :
    (ot_get map name table ≡ none)
    × ((e : Entry) × (ot_get map name with_name ≡ some e) × (e.id ≡ name) × (e.data_ptr ≡ 4096))
    × ((k : ObjectId) → same_key map k name ≡ false → ot_get map k with_name ≡ ot_get map k table)
unfolding ot_insert ot_get reserve_slot insert_at
ot_insert-get_example = ot_insert-get map name 4096 table with_name (omega arith) refl

-- An identifier of 55 bytes.
abbrev pub letters : ℕ → ObjectId
letters zero = []
letters (suc n) = 97 ∷ letters n

abbrev with_letters : Table map
with_letters = result (ot_insert map (letters 55) 4096 table)

ot_insert-lost_example : (54 < length (letters 55)) × (ot_get map (letters 55) with_letters ≡ none)
unfolding ot_insert ot_get reserve_slot insert_at
ot_insert-lost_example =
    ot_insert-lost map (letters 55) 4096 table with_letters (λ e. omega (arith, e)) refl

abbrev without_name : Table map
without_name = result (ot_remove map name with_name)

ot_remove-get_example :
    (ot_get map name with_name ≢ none)
    × ((k : ObjectId)
        → ot_get map k without_name
          ≡ (if same_key map k name then none else ot_get map k with_name))
unfolding ot_insert ot_get reserve_slot insert_at ot_remove remove_entry
ot_remove-get_example =
    ot_remove-get map name with_name without_name
      (inserted name 4096 Status.ot_ok with_name (began table refl) (omega arith) refl) refl

-- The first 54 letters, then all 55.
abbrev one_letters : Table map
one_letters = result (ot_insert map (letters 54) 4096 table)

abbrev two_letters : Table map
two_letters = result (ot_insert map (letters 55) 8192 one_letters)

abbrev one_removed : Table map
one_removed = result (ot_remove map (letters 54) two_letters)

abbrev first_letters : Entry
first_letters = record {
  id = letters 54;
  slot = 0;
  data_ptr = 4096;
  nvm_entry = entry_address map (2 ^ 32) 0;
}

ot_insert-hides_example :
    (54 < length (letters 55))
    × ((x : Entry) × (ot_get map (letters 54) two_letters ≡ some x) × (x.data_ptr ≡ 8192))
    × (ot_get map (letters 54) one_removed ≡ some first_letters)
unfolding ot_insert ot_get reserve_slot insert_at ot_remove remove_entry
ot_insert-hides_example =
    ot_insert-hides map (letters 55) 8192 first_letters one_letters two_letters one_removed refl
      refl refl

table-IsFifo : IsFifo map table
table-IsFifo = record {
  in_order = omega arith;
  in_buffer = omega arith;
  n_free = refl;
  tail = refl;
}

reserve_slot-Reserved_example : Reserved map table (reserve_slot map table)
reserve_slot-Reserved_example = reserve_slot-Reserved map table table-IsFifo

abbrev entry : Entry
entry = record { id = name; slot = 7; data_ptr = 2 ^ 32 + 4096; nvm_entry = 2 ^ 32 + 512 }

-- The table with that entry, after `n` removals whose slots have been used again.
abbrev after_removals : ℕ → Table map
after_removals n = record {
  hashmap = map.set name entry map.empty;
  slot_buffer = λ i. 0;
  slot_buffer_next_idx = n;
  slot_buffer_head_idx = n;
  slot_buffer_tail_idx = (n + 2 ^ 64 - 1) % 2 ^ 64;
  slot_buffer_n_free = 0;
  total_slots_available = 63;
  next_nvm_slot = 8;
  first_chunk = 2 ^ 32;
}

after_removals-IsFifo : (n : ℕ) → n ≤ 200 → IsFifo map (after_removals n)
after_removals-IsFifo n le = record {
  in_order = omega arith;
  in_buffer = le;
  n_free = omega arith;
  tail = refl;
}

ot_remove-spins_example : ot_remove map name (after_removals 200) ≡ spins
unfolding ot_get
ot_remove-spins_example =
    ot_remove-spins map name entry (after_removals 200) (after_removals-IsFifo 200 (omega arith))
      refl refl

abbrev all_runs : ℕ → ℕ
all_runs a = usage_run + 2

-- An entry in NVRAM that was being activated: its pointer is at 56, and leads to a block in use.
abbrev half_done : Mem
half_done a = if a == 2 ^ 32 + 64 then 1 else if a == 2 ^ 32 + 120 then 8256 else 50

judge_entry-initializing_example :
    judge_entry (2 ^ 32) (2 ^ 32 + 64) half_done
    ≡ some (false, memset_zero (2 ^ 32 + 64) 64 half_done)
judge_entry-initializing_example =
    judge_entry-initializing (2 ^ 32) (2 ^ 32 + 64) (2 ^ 32 + 8256) half_done refl refl
      (omega arith) (omega arith) (omega arith)
