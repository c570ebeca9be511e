-- ===== src/ObjectTable.antt =====
-- src/object_table.c: the volatile table of named objects, and the buffer of freed slots.
--
-- ulib's chained hash map is a parameter, `HashMap`. It looks a key up in the bucket of its hash,
-- and there by `equal_fn`. An identifier is the list of its bytes up to the terminating zero.
pub mod Lookup
pub mod Buffer
pub mod Recover
pub mod Slots
pub mod Single
use nvm_malloc.Base.{
  ℕ, zero, suc, ◌+◌, ◌-◌, ◌*◌, ◌/◌, ◌%◌, ◌^◌, ◌≡◌, Bool, true, false, ◌&&◌, ◌||◌, Option, none,
  some, List, [], ◌∷◌, ltb, leb, ◌==◌, if◌then◌else◌, update, u64, u16,
}
use nvm_malloc.Types.{chunk_size, max_id_length}

abbrev pub slot_buffer_size : ℕ
slot_buffer_size = 200

abbrev pub entries_per_chunk : ℕ
entries_per_chunk = 63

abbrev pub ObjectId : Type 0
ObjectId = List ℕ

-- `hash * 33 + c` for each byte; `c` is an `int` made from a signed char.
abbrev pub hash_from : ℕ → ObjectId → ℕ
hash_from hash [] = hash
hash_from hash (c ∷ cs) =
    hash_from (u64 (hash * 32 + hash + (if ltb c 128 then c else c + 2 ^ 64 - 256))) cs

abbrev pub hash_fn : ObjectId → ℕ
hash_fn = hash_from 5381

-- `strncmp(a, b, n) == 0`
abbrev pub equal_upto : ℕ → ObjectId → ObjectId → Bool
equal_upto zero a b = true
equal_upto (suc n) [] [] = true
equal_upto (suc n) [] (d ∷ b) = false
equal_upto (suc n) (c ∷ a) [] = false
equal_upto (suc n) (c ∷ a) (d ∷ b) = (c == d) && equal_upto n a b

abbrev pub equal_fn : ObjectId → ObjectId → Bool
equal_fn = equal_upto max_id_length

-- `strncpy(entry->id, id, MAX_ID_LENGTH)`, terminated
abbrev pub truncate : ℕ → ObjectId → ObjectId
truncate zero a = []
truncate (suc n) [] = []
truncate (suc n) (c ∷ a) = c ∷ truncate n a

-- `object_table_entry_t`
pub record Entry : Type 0 where
  pub id : ObjectId
  pub slot : ℕ
  pub data_ptr : ℕ
  pub nvm_entry : ℕ

-- The entry that a lookup stops at, and those behind it.
abbrev pub first : List Entry → Option Entry
first [] = none
first (e ∷ es) = some e

abbrev pub behind_first : List Entry → List Entry
behind_first [] = []
behind_first (e ∷ es) = es

-- ulib's map for these keys, as far as the table relies on it; `bucket` is what the map makes of a
-- hash. `chain` is the part of a key's bucket that the map takes for that key: `chainhash_set` puts
-- an entry in front without a look at the others, so there may be several; `chainhash_get` stops
-- at the first, and `chainhash_del` takes out the one where `chainhash_get` has stopped.
pub record HashMap : Type 1 where
  pub Map : Type 0
  pub empty : Map
  pub bucket : ℕ → ℕ
  pub chain : ObjectId → Map → List Entry
  pub set : ObjectId → Entry → Map → Map
  pub del : ObjectId → Map → Map
  pub chain-empty : (k : ObjectId) → chain k empty ≡ []
  pub chain-same :
      (k j : ObjectId) (m : Map)
      → ((bucket (hash_fn k) == bucket (hash_fn j)) && equal_fn k j) ≡ true
      → chain k m ≡ chain j m
  pub chain-set :
      (k j : ObjectId) (e : Entry) (m : Map)
      → chain k (set j e m) ≡ (
          if (bucket (hash_fn k) == bucket (hash_fn j)) && equal_fn k j
          then e ∷ chain k m
          else chain k m)
  pub chain-del :
      (k j : ObjectId) (m : Map)
      → chain k (del j m) ≡ (
          if (bucket (hash_fn k) == bucket (hash_fn j)) && equal_fn k j
          then behind_first (chain k m)
          else chain k m)

pub data Status : Type 0 where
  ot_ok ot_fail ot_duplicate : Status

-- How a call ends: it returns, it reads outside the slot buffer, or its loop never ends.
pub data Outcome (A : Type 0) : Type 0 where
  returns : A → Outcome A
  out_of_bounds : Outcome A
  spins : Outcome A

module _ (lib : HashMap) where
  -- The static variables; a signed one is its bit pattern.
  pub record Table : Type 0 where
    pub hashmap : lib.Map
    pub slot_buffer : ℕ → ℕ
    pub slot_buffer_next_idx : ℕ
    pub slot_buffer_head_idx : ℕ
    pub slot_buffer_tail_idx : ℕ
    pub slot_buffer_n_free : ℕ
    pub total_slots_available : ℕ
    pub next_nvm_slot : ℕ
    pub first_chunk : ℕ

  -- Fresh static variables, with the empty map of `chainhash_init`.
  unfoldable pub fresh : Table
  fresh = record {
    hashmap = lib.empty;
    slot_buffer = λ i. 0;
    slot_buffer_next_idx = 0;
    slot_buffer_head_idx = 0;
    slot_buffer_tail_idx = 2 ^ 64 - 1;
    slot_buffer_n_free = 0;
    total_slots_available = 0;
    next_nvm_slot = 0;
    first_chunk = 0;
  }

  -- The chain of object tables: 63 slots for each; `none` if the fuel runs out.
  unfoldable pub count_slots : (mem : ℕ → ℕ) (fuel start chunk total : ℕ) → Option ℕ
  count_slots mem zero start chunk total = none
  count_slots mem (suc fuel) start chunk total =
      let next = mem (chunk + 56) in
      let rest = count_slots mem fuel start (u64 (start + next)) (total + entries_per_chunk) in
      if next == 0 then some (total + entries_per_chunk) else rest

  unfoldable pub ot_init : (mem : ℕ → ℕ) (fuel nvm_start : ℕ) → Table → Option Table
  unfolding count_slots
  ot_init mem fuel nvm_start s =
      elim (count_slots mem fuel nvm_start nvm_start s.total_slots_available) [
        | none ↦ none
        | some total ↦ some (record s {
          hashmap = lib.empty;
          first_chunk = nvm_start;
          total_slots_available = total;
        })
      ]

  unfoldable pub ot_get : ObjectId → Table → Option Entry
  ot_get id s = first (lib.chain id s.hashmap)

  -- The entry of a slot in NVRAM: the chunks with object tables are the first ones.
  abbrev pub entry_address : (first_chunk slot : ℕ) → ℕ
  entry_address first_chunk slot =
      first_chunk + slot / entries_per_chunk * chunk_size + (64 + 64 * (slot % entries_per_chunk))

  abbrev pub add_entry : ObjectId → (data_ptr slot : ℕ) → Table → Table
  add_entry id data_ptr slot s = record s {
    hashmap =
        lib.set (truncate max_id_length id)
          (record {
            id = truncate max_id_length id;
            slot = slot;
            data_ptr = data_ptr;
            nvm_entry = entry_address s.first_chunk slot;
          })
          s.hashmap;
  }

  -- `n <= 0` for an `int16_t`
  abbrev pub not_positive : ℕ → Bool
  not_positive n = (n == 0) || leb (2 ^ 15) n

  -- A slot from the buffer of freed ones, or a new one; `none` if there is no slot left.
  unfoldable pub reserve_slot : Table → Outcome (Option (ℕ × Table))
  reserve_slot s =
      if not_positive s.slot_buffer_n_free
      then (if leb s.total_slots_available s.next_nvm_slot
          then returns none
          else returns
              (some (s.next_nvm_slot, record s { next_nvm_slot = u64 (s.next_nvm_slot + 1) })))
      else if ltb s.slot_buffer_head_idx slot_buffer_size
      then returns (
          some (
            s.slot_buffer s.slot_buffer_head_idx,
            record s {
              slot_buffer_n_free = s.slot_buffer_n_free - 1;
              slot_buffer_head_idx = s.slot_buffer_head_idx + 1;
            },
          ))
      else out_of_bounds

  unfoldable pub insert_at :
      ObjectId → (data_ptr : ℕ) → Table → Outcome (Option (ℕ × Table)) → Outcome (Status × Table)
  insert_at id data_ptr s (returns none) = returns (ot_fail, s)
  insert_at id data_ptr s (returns (some (slot, t))) = returns (ot_ok, add_entry id data_ptr slot t)
  insert_at id data_ptr s out_of_bounds = out_of_bounds
  insert_at id data_ptr s spins = spins

  unfoldable pub ot_insert : ObjectId → (data_ptr : ℕ) → Table → Outcome (Status × Table)
  unfolding ot_get reserve_slot insert_at
  ot_insert id data_ptr s = elim (ot_get id s) [
    | some e ↦ returns (ot_duplicate, s)
    | none ↦ insert_at id data_ptr s (reserve_slot s)
  ]

  -- The loop at the end waits for the tail to be one behind the slot's index. No other thread
  -- changes it here, so it ends at once or never.
  unfoldable pub remove_entry : ObjectId → Entry → Table → Outcome (Status × Table)
  remove_entry id e s =
      let idx = s.slot_buffer_next_idx % slot_buffer_size in
      if s.slot_buffer_tail_idx == u64 (idx + 2 ^ 64 - 1)
      then returns (
        ot_ok,
        record s {
          hashmap = lib.del id s.hashmap;
          slot_buffer = update s.slot_buffer idx e.slot;
          slot_buffer_next_idx = s.slot_buffer_next_idx + 1;
          slot_buffer_tail_idx = idx;
          slot_buffer_n_free = u16 (s.slot_buffer_n_free + 1);
        },
      )
      else spins

  unfoldable pub ot_remove : ObjectId → Table → Outcome (Status × Table)
  unfolding ot_get remove_entry
  ot_remove id s = elim (ot_get id s) [ none ↦ returns (ot_fail, s) | some e ↦ remove_entry id e s ]

  pub ot_teardown : Table → Table
  unfolding fresh
  ot_teardown s = fresh
