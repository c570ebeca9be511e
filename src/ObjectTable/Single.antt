-- ===== src/ObjectTable/Single.antt =====
-- src/object_table.c: how often the map holds a key. `ot_insert` looks for an identifier before it
-- sets an entry, but by the hash of the whole identifier, and sets the entry under its first 54
-- bytes.
use nvm_malloc.Base.{
  ltb, ltb→lt, ltb→le, ◌<◌, ℕ, ◌≤◌, ◌≡◌, ◌≢◌, ◌⊎◌, inl, inr, refl, sym, ap, ◌∙◌, subst, arith,
  Option, none, some, List, [], ◌∷◌, length, if◌then◌else◌, Bool-cases,
}
use nvm_malloc.Types.{max_id_length}
use nvm_malloc.ObjectTable.{
  ObjectId, Entry, HashMap, Table, Status, ot_ok, Outcome, returns, out_of_bounds, spins, first,
  behind_first, truncate, ot_get, reserve_slot, insert_at, ot_insert, remove_entry, ot_remove,
  entry_address,
}
use nvm_malloc.ObjectTable.Lookup.{same_key, same_key_refl, truncate_short, returned, insert-stored}

first-eq-none : (es : List Entry) → first es ≡ none → es ≡ []
first-eq-none [] e = refl
first-eq-none (x ∷ es) e = cc

behind_first-single : (es : List Entry) → length es ≤ 1 → first (behind_first es) ≡ none
behind_first-single [] le = refl
behind_first-single (x ∷ []) le = refl
behind_first-single (x ∷ y ∷ es) le = absurd (omega (arith, le))

length-behind_first : (es : List Entry) → length (behind_first es) ≤ length es
length-behind_first [] = omega arith
length-behind_first (x ∷ es) = omega arith

module _ (lib : HashMap) where
  -- Tables that calls with identifiers of at most 54 bytes make of an empty one.
  pub data Reached : Table lib → Type 0 where
    began : (s : Table lib) → s.hashmap ≡ lib.empty → Reached s
    inserted :
        {s : Table lib} (id : ObjectId) (p : ℕ) (status : Status) (t : Table lib)
        → Reached s
        → length id ≤ max_id_length
        → ot_insert lib id p s ≡ returns (status, t)
        → Reached t
    removed :
        {s : Table lib} (id : ObjectId) (status : Status) (t : Table lib)
        → Reached s
        → ot_remove lib id s ≡ returns (status, t)
        → Reached t

  abbrev IsSingle : lib.Map → Type 0
  IsSingle m = (k : ObjectId) → length (lib.chain k m) ≤ 1

  set-IsSingle :
      (id : ObjectId) (x : Entry) (m : lib.Map)
      → lib.chain id m ≡ []
      → IsSingle m
      → IsSingle (lib.set id x m)
  set-IsSingle id x m absent single k = elim (Bool-cases (same_key lib k id)) [
    | inl same ↦ rw (lib.chain-set, same, lib.chain-same k id m same, absent) (omega arith)
    | inr apart ↦ rw (lib.chain-set, apart) (single k)
  ]

  set-truncated :
      (id : ObjectId) (x : Entry) (m : lib.Map)
      → length id ≤ max_id_length
      → lib.chain id m ≡ []
      → IsSingle m
      → IsSingle (lib.set (truncate max_id_length id) x m)
  set-truncated id x m short absent single =
      subst (λ k. IsSingle (lib.set k x m)) (sym (truncate_short max_id_length id short))
        (set-IsSingle id x m absent single)

  del-IsSingle : (id : ObjectId) (m : lib.Map) → IsSingle m → IsSingle (lib.del id m)
  del-IsSingle id m single k = elim (Bool-cases (same_key lib k id)) [
    | inl same ↦
        rw (lib.chain-del, same) (omega (arith, single k, length-behind_first (lib.chain k m)))
    | inr apart ↦ rw (lib.chain-del, apart) (single k)
  ]

  insert_at-status :
      (id : ObjectId) (p : ℕ) (s t : Table lib) (status : Status)
      (r : Outcome (Option (ℕ × Table lib)))
      → insert_at lib id p s r ≡ returns (status, t)
      → (t ≡ s) ⊎ (status ≡ ot_ok)
  unfolding insert_at
  insert_at-status id p s t status (returns none) e = inl (sym (returned lib e))
  insert_at-status id p s t status (returns (some (slot, u))) e = inr cc
  insert_at-status id p s t status out_of_bounds e = cc
  insert_at-status id p s t status spins e = cc

  -- An insertion that does not succeed leaves the table.
  insert-status :
      (id : ObjectId) (p : ℕ) (s t : Table lib) (status : Status) (found : Option Entry)
      → ot_get lib id s ≡ found
      → ot_insert lib id p s ≡ returns (status, t)
      → (t ≡ s) ⊎ (status ≡ ot_ok)
  unfolding ot_insert
  insert-status id p s t status none g e =
      insert_at-status id p s t status (reserve_slot lib s) (rw (g, ot_insert) at e)
  insert-status id p s t status (some x) g e = inl (sym (returned lib (rw (g, ot_insert) at e)))

  insert-IsSingle :
      (id : ObjectId) (p : ℕ) (s t : Table lib) (status : Status)
      → length id ≤ max_id_length
      → ot_insert lib id p s ≡ returns (status, t)
      → IsSingle s.hashmap
      → IsSingle t.hashmap
  unfolding ot_get
  insert-IsSingle id p s t status short e single =
      elim (insert-status id p s t status (ot_get lib id s) refl e) [
        | inl same ↦ subst (λ (x : Table lib). IsSingle x.hashmap) (sym same) single
        | inr ok ↦
            let (absent, (slot, stores)) =
              insert-stored lib id p s t (ot_get lib id s) refl
                (subst (λ x. ot_insert lib id p s ≡ returns (x, t)) ok e) in
            subst IsSingle (sym stores)
              (set-truncated id _ s.hashmap short (first-eq-none _ absent) single)
      ]

  remove_entry-map :
      (id : ObjectId) (x : Entry) (s t : Table lib) (status : Status)
      → remove_entry lib id x s ≡ returns (status, t)
      → t.hashmap ≡ lib.del id s.hashmap
  unfolding remove_entry
  remove_entry-map id x s t status e = ground arith

  remove-map :
      (id : ObjectId) (s t : Table lib) (status : Status) (found : Option Entry)
      → ot_get lib id s ≡ found
      → ot_remove lib id s ≡ returns (status, t)
      → ((found ≡ none) × (status ≢ ot_ok) × (t ≡ s))
        ⊎ ((found ≢ none) × (t.hashmap ≡ lib.del id s.hashmap))
  unfolding ot_remove
  remove-map id s t status none g e =
      let r = rw (g, ot_remove) at e in inl (refl, λ z. cc, sym (returned lib r))
  remove-map id s t status (some x) g e =
      inr (λ n. cc, remove_entry-map id x s t status (rw (g, ot_remove) at e))

  Reached-IsSingle : (s : Table lib) → Reached s → IsSingle s.hashmap
  Reached-IsSingle s (began r e) = λ k. rw (e, lib.chain-empty k) (omega arith)
  Reached-IsSingle t (inserted {s = s} id p status u path short e) =
      insert-IsSingle id p s t status short e (Reached-IsSingle s path)
  Reached-IsSingle t (removed {s = s} id status u path e) =
      elim (remove-map id s t status (ot_get lib id s) refl e) [
        | inl same ↦
            subst (λ (x : Table lib). IsSingle x.hashmap) (sym same.2) (Reached-IsSingle s path)
        | inr gone ↦
            subst IsSingle (sym gone.1) (del-IsSingle id s.hashmap (Reached-IsSingle s path))
      ]

  removes :
      (id : ObjectId) (s t : Table lib)
      → ot_remove lib id s ≡ returns (ot_ok, t)
      → (ot_get lib id s ≢ none) × (t.hashmap ≡ lib.del id s.hashmap)
  removes id s t e = elim (remove-map id s t ot_ok (ot_get lib id s) refl e) [
    | inl (absent, failed, same) ↦ absurd (failed refl)
    | inr gone ↦ gone
  ]

  -- In a table that calls with identifiers of at most 54 bytes have made of an empty one, a removal
  -- that returns success finds the identifier, and afterwards neither it nor any identifier that
  -- the map takes for the same key is in the table; all others are found as before.
  pub ot_remove-get :
      (id : ObjectId) (s t : Table lib)
      → Reached s
      → ot_remove lib id s ≡ returns (ot_ok, t)
      → (ot_get lib id s ≢ none)
        × ((k : ObjectId) → ot_get lib k t ≡ (if same_key lib k id then none else ot_get lib k s))
  unfolding ot_get
  ot_remove-get id s t path e =
      let (present, gone) = removes id s t e in
      (
        present,
        λ k. elim (Bool-cases (same_key lib k id)) [
          | inl same ↦
              rw (gone, lib.chain-del, same)
                (behind_first-single (lib.chain k s.hashmap) (Reached-IsSingle s path k))
          | inr apart ↦ rw (gone, lib.chain-del, apart) refl
        ],
      )

  -- Let the first 54 bytes of an identifier be in the table with entry `e`. If the identifier is
  -- inserted with success, it is longer than 54 bytes, and then its first 54 bytes lead to the
  -- pointer that was inserted. If they are removed with success, they lead to `e` again.
  pub ot_insert-hides :
      (id : ObjectId) (p : ℕ) (e : Entry) (s t u : Table lib)
      → ot_get lib (truncate max_id_length id) s ≡ some e
      → ot_insert lib id p s ≡ returns (ot_ok, t)
      → ot_remove lib (truncate max_id_length id) t ≡ returns (ot_ok, u)
      → (max_id_length < length id)
        × ((x : Entry) × (ot_get lib (truncate max_id_length id) t ≡ some x) × (x.data_ptr ≡ p))
        × (ot_get lib (truncate max_id_length id) u ≡ some e)
  unfolding ot_get
  ot_insert-hides id p e s t u before made gone =
      let key = truncate max_id_length id in
      let (absent, (slot, stores)) = insert-stored lib id p s t (ot_get lib id s) refl made in
      let (present, taken) = removes key t u gone in
      let x : Entry = record {
        id = key;
        slot = slot;
        data_ptr = p;
        nvm_entry = entry_address lib s.first_chunk slot;
      } in
      let front : lib.chain key t.hashmap ≡ x ∷ lib.chain key s.hashmap =
        ap (lib.chain key) stores
        ∙ lib.chain-set key key x s.hashmap
        ∙ rw (same_key_refl lib key) refl in
      (
        elim (Bool-cases (ltb max_id_length (length id))) [
          | inl long ↦ ltb→lt max_id_length (length id) long
          | inr short ↦
              let whole =
                ap (λ k. first (lib.chain k s.hashmap))
                  (truncate_short max_id_length id (ltb→le max_id_length (length id) short)) in
              cc
        ],
        (x, ap first front, refl),
        ap first (
              ap (lib.chain key) taken
              ∙ lib.chain-del key key t.hashmap
              ∙ rw (same_key_refl lib key, front) refl)
            ∙ before,
      )
