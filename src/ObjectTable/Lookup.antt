-- ===== src/ObjectTable/Lookup.antt =====
-- What `ot_get` of src/object_table.c finds after an insertion and after a removal.
use nvm_malloc.Base.{
  ℕ, zero, suc, ◌≤◌, ◌≡◌, ◌≢◌, refl, sym, ap, ap₂, ◌∙◌, arith, Bool, true, false, ◌&&◌, Option,
  none, some, [], ◌∷◌, length, ◌==◌, if◌then◌else◌, ==_refl, ne→==, Bool-cases, ltb, ltb→lt, ltb→le,
  inl, inr, ◌<◌,
}
use nvm_malloc.Types.{max_id_length}
use nvm_malloc.ObjectTable.{
  ObjectId, Entry, HashMap, Table, Status, ot_ok, Outcome, returns, out_of_bounds, spins, first,
  hash_fn, equal_upto, equal_fn, truncate, add_entry, ot_get, reserve_slot, insert_at, ot_insert,
  entry_address,
}

equal_upto_refl : (n : ℕ) (a : ObjectId) → equal_upto n a a ≡ true
equal_upto_refl zero a = refl
equal_upto_refl (suc n) [] = refl
equal_upto_refl (suc n) (c ∷ a) = rw (==_refl c) (equal_upto_refl n a)

pub truncate_short : (n : ℕ) (a : ObjectId) → length a ≤ n → truncate n a ≡ a
truncate_short zero [] h = refl
truncate_short zero (c ∷ a) h = absurd (omega arith)
truncate_short (suc n) [] h = refl
truncate_short (suc n) (c ∷ a) h = ap (λ t. c ∷ t) (truncate_short n a (omega arith))

module _ (lib : HashMap) where
  -- The map takes the two keys for the same.
  abbrev pub same_key : ObjectId → ObjectId → Bool
  same_key k j = (lib.bucket (hash_fn k) == lib.bucket (hash_fn j)) && equal_fn k j

  pub same_key_refl : (k : ObjectId) → same_key k k ≡ true
  same_key_refl k = rw (==_refl (lib.bucket (hash_fn k))) (equal_upto_refl max_id_length k)

  abbrev pub get : ObjectId → lib.Map → Option Entry
  get k m = first (lib.chain k m)

  pub get-empty : (k : ObjectId) → get k lib.empty ≡ none
  get-empty k = ap first (lib.chain-empty k)

  -- An entry that is set hides those of the same key.
  pub get-set :
      (k j : ObjectId) (e : Entry) (m : lib.Map)
      → get k (lib.set j e m) ≡ (if same_key k j then some e else get k m)
  get-set k j e m = elim (Bool-cases (same_key k j)) [
    | inl same ↦ rw (lib.chain-set, same) refl
    | inr apart ↦ rw (lib.chain-set, apart) refl
  ]

  pub returned :
      {a c : Status} {t u : Table lib}
      → ◌≡◌ {A = Outcome (Status × Table lib)} (returns (a, t)) (returns (c, u))
      → t ≡ u
  returned e = cc

  -- The map after an insertion into some slot.
  abbrev pub stored : ObjectId → (p : ℕ) → (slot : ℕ) → Table lib → lib.Map
  stored id p slot s =
      lib.set (truncate max_id_length id)
        (record {
          id = truncate max_id_length id;
          slot = slot;
          data_ptr = p;
          nvm_entry = entry_address lib s.first_chunk slot;
        })
        s.hashmap

  reserve_slot-keeps :
      (s : Table lib) (slot : ℕ) (t : Table lib)
      → reserve_slot lib s ≡ returns (some (slot, t))
      → (t.hashmap ≡ s.hashmap) × (t.first_chunk ≡ s.first_chunk)
  unfolding reserve_slot
  reserve_slot-keeps s slot t e = (ground arith, ground arith)

  insert_at-stored :
      (id : ObjectId) (p : ℕ) (s t : Table lib) (r : Outcome (Option (ℕ × Table lib)))
      → reserve_slot lib s ≡ r
      → insert_at lib id p s r ≡ returns (ot_ok, t)
      → (slot : ℕ) × (t.hashmap ≡ stored id p slot s)
  unfolding insert_at
  insert_at-stored id p s t (returns none) er e = cc
  insert_at-stored id p s t (returns (some (slot, u))) er e =
      let (map_same, first_same) = reserve_slot-keeps s slot u er in
      let last : add_entry lib id p slot u ≡ t = returned e in
      (
        slot,
        sym (ap (λ (x : Table lib). x.hashmap) last)
            ∙ ap₂
                (λ (m : lib.Map) (f : ℕ).
                  lib.set (truncate max_id_length id)
                    (record {
                      id = truncate max_id_length id;
                      slot = slot;
                      data_ptr = p;
                      nvm_entry = entry_address lib f slot;
                    })
                    m)
                map_same first_same,
      )
  insert_at-stored id p s t out_of_bounds er e = cc
  insert_at-stored id p s t spins er e = cc

  pub insert-stored :
      (id : ObjectId) (p : ℕ) (s t : Table lib) (found : Option Entry)
      → ot_get lib id s ≡ found
      → ot_insert lib id p s ≡ returns (ot_ok, t)
      → (ot_get lib id s ≡ none) × ((slot : ℕ) × (t.hashmap ≡ stored id p slot s))
  unfolding ot_insert
  insert-stored id p s t none g e =
      (g, insert_at-stored id p s t (reserve_slot lib s) refl (rw (g, ot_insert) at e))
  insert-stored id p s t (some x) g e = cc (rw (g, ot_insert) at e)

  -- After a successful insertion of an identifier of at most 54 bytes the identifier was not in the
  -- table before; it is found now, with the pointer that was given; and any other identifier is
  -- found as before, unless the map takes it for the same key.
  pub ot_insert-get :
      (id : ObjectId) (p : ℕ) (s t : Table lib)
      → length id ≤ max_id_length
      → ot_insert lib id p s ≡ returns (ot_ok, t)
      → (ot_get lib id s ≡ none)
        × ((e : Entry) × (ot_get lib id t ≡ some e) × (e.id ≡ id) × (e.data_ptr ≡ p))
        × ((k : ObjectId) → same_key k id ≡ false → ot_get lib k t ≡ ot_get lib k s)
  unfolding ot_get
  ot_insert-get id p s t short e =
      let (absent, (slot, stores)) = insert-stored id p s t (ot_get lib id s) refl e in
      let key = truncate_short max_id_length id short in
      let entry : Entry = record {
        id = truncate max_id_length id;
        slot = slot;
        data_ptr = p;
        nvm_entry = entry_address lib s.first_chunk slot;
      } in
      (
        absent,
        (entry, rw (stores, lib.chain-set, key, same_key_refl id), key, refl),
        λ k other. rw (stores, lib.chain-set, key, other),
      )

  -- If the map puts an identifier into another bucket than its first 54 bytes, which is the case
  -- for longer identifiers only, then it is not found after a successful insertion either.
  pub ot_insert-lost :
      (id : ObjectId) (p : ℕ) (s t : Table lib)
      → lib.bucket (hash_fn id) ≢ lib.bucket (hash_fn (truncate max_id_length id))
      → ot_insert lib id p s ≡ returns (ot_ok, t)
      → (max_id_length < length id) × (ot_get lib id t ≡ none)
  unfolding ot_get
  ot_insert-lost id p s t apart e =
      let (absent, (slot, stores)) = insert-stored id p s t (ot_get lib id s) refl e in
      (
        elim (Bool-cases (ltb max_id_length (length id))) [
          | inl long ↦ ltb→lt max_id_length (length id) long
          | inr short ↦ absurd (
              apart (
                ap (λ k. lib.bucket (hash_fn k))
                  (sym (truncate_short max_id_length id (ltb→le max_id_length (length id) short)))))
        ],
        rw
            (
              stores,
              lib.chain-set,
              ne→== (lib.bucket (hash_fn id)) (lib.bucket (hash_fn (truncate max_id_length id)))
                  apart,
            )
            absent,
      )
