-- ===== src/ObjectTable/Recover/Restored.antt =====
-- The table that `ot_recover` of src/object_table.c makes of the entries in NVRAM, when no
-- activation was under way.
use nvm_malloc.Base.{
  ℕ, ◌+◌, ◌≤◌, ◌≡◌, ◌≢◌, inl, inr, refl, sym, ◌∙◌, ap, arith, false, Bool-cases, Option, some, List,
  [], ◌∷◌, ◌==◌, ==→eq, length, All, ◌>>=◌, subst,
}
use nvm_malloc.Types.{state_initialized, state_initializing}
use nvm_malloc.Nvm.{Mem}
use nvm_malloc.ObjectTable.{ObjectId, HashMap, slot_buffer_size}
use nvm_malloc.ObjectTable.Lookup.{same_key, same_key_refl, get, get-set}
use nvm_malloc.ObjectTable.Recover.{Scan, recover_slot, next_slot}
use nvm_malloc.ObjectTable.Recover.Kept.{
  id_at, entry_for, IsBetween, IsShort, recover_slot-kept, recover_slot-skipped,
}

module _ (lib : HashMap) (behind : ℕ → ObjectId) (start : ℕ) (m : Mem) where
  -- The entries of a list, one after the other.
  abbrev pub scan_all : List ℕ → Scan lib → Option (Scan lib)
  scan_all [] s = some s
  scan_all (e ∷ es) s = recover_slot lib behind start e s >>= scan_all es

  -- The identifier is none of those of the entries in use.
  abbrev pub IsOther : ObjectId → List ℕ → Type 0
  IsOther k es =
      All (λ e. m e ≡ state_initialized → same_key lib k (id_at lib behind start m e) ≡ false) es

  -- The map takes no two identifiers of entries in use for the same key.
  abbrev pub AreApart : List ℕ → Type 0
  AreApart [] = Unit
  AreApart (e ∷ es) =
      (m e ≡ state_initialized → IsOther (id_at lib behind start m e) es) × AreApart es

  -- The entries in use stand in the first 201 slots, counted from `slot` on.
  abbrev pub HaveRoom : ℕ → List ℕ → Type 0
  HaveRoom slot [] = Unit
  HaveRoom slot (e ∷ es) =
      (m e ≡ state_initialized → slot ≤ slot_buffer_size) × HaveRoom (slot + 1) es

  -- No entry was being activated, and the identifier of an entry in use ends within its 54 bytes.
  abbrev pub AreSettled : List ℕ → Type 0
  AreSettled es =
      All
        (λ e. (m e ≢ state_initializing) × (m e ≡ state_initialized → IsShort lib behind start m e))
        es

  -- Each entry in use is found by its identifier.
  abbrev pub AreFound : lib.Map → ℕ → List ℕ → Type 0
  AreFound map slot [] = Unit
  AreFound map slot (e ∷ es) =
      (m e ≡ state_initialized
        → get lib (id_at lib behind start m e) map ≡ some (entry_for lib behind start m slot e))
      × AreFound map (slot + 1) es

  -- The entries in use stand in slots up to `last`.
  abbrev pub AreUpTo : (last slot : ℕ) → List ℕ → Type 0
  AreUpTo last slot [] = Unit
  AreUpTo last slot (e ∷ es) = (m e ≡ state_initialized → slot ≤ last) × AreUpTo last (slot + 1) es

  -- The scan of `es` from `s` ends in `t`.
  pub record Scanned (es : List ℕ) (s t : Scan lib) : Type 0 where
    pub runs : scan_all es s ≡ some t
    pub between : IsBetween lib behind start m t
    pub slots : t.current_slot ≡ s.current_slot + length es
    pub grows : s.last_used_slot ≤ t.last_used_slot
    pub up_to : AreUpTo t.last_used_slot s.current_slot es
    pub found : AreFound t.table.hashmap s.current_slot es
    pub others :
        (k : ObjectId) → IsOther k es → get lib k t.table.hashmap ≡ get lib k s.table.hashmap

  pub scan_all-Scanned :
      (es : List ℕ) (s : Scan lib)
      → IsBetween lib behind start m s
      → AreSettled es
      → AreApart es
      → HaveRoom s.current_slot es
      → (t : Scan lib) × Scanned es s t
  unfolding next_slot
  scan_all-Scanned [] s b settled apart room = (
    s,
    record {
      runs = refl;
      between = b;
      slots = omega arith;
      grows = omega arith;
      up_to = tt;
      found = tt;
      others = λ k o. refl;
    },
  )
  scan_all-Scanned (e ∷ es) s b settled apart room = elim (Bool-cases (m e == state_initialized)) [
    | inl f ↦
        let state : m e ≡ state_initialized = ==→eq _ _ f in
        let (u, runs, between, next, last, set) =
          recover_slot-kept lib behind start m e s b state (settled.0.1 state) (room.0 state) in
        let (t, rest) =
          scan_all-Scanned es u between settled.1 apart.1
            (subst (λ p. HaveRoom p es) (sym next) room.1) in
        (
          t,
          record {
            runs = rw runs rest.runs;
            between = rest.between;
            slots = omega (arith, rest.slots, next);
            grows = omega (arith, rest.grows, last, b.last);
            up_to = (
              λ z. omega (arith, rest.grows, last),
              subst (λ p. AreUpTo t.last_used_slot p es) next rest.up_to,
            );
            found = (
              λ z.
                  rest.others (id_at lib behind start m e) (apart.0 state)
                  ∙ ap (get lib (id_at lib behind start m e)) set
                  ∙ get-set lib (id_at lib behind start m e) (id_at lib behind start m e)
                      (entry_for lib behind start m s.current_slot e) s.table.hashmap
                  ∙ rw (same_key_refl lib (id_at lib behind start m e)) refl,
              subst (λ p. AreFound t.table.hashmap p es) next rest.found,
            );
            others = λ k o.
                rest.others k o.1
                ∙ ap (get lib k) set
                ∙ get-set lib k (id_at lib behind start m e)
                    (entry_for lib behind start m s.current_slot e) s.table.hashmap
                ∙ rw (o.0 state) refl;
          },
        )
    | inr f ↦
        let unused : m e ≢ state_initialized = λ z. ground (arith, f, z) in
        let u = next_slot lib s in
        let (t, rest) = scan_all-Scanned es u (skipped s b) settled.1 apart.1 room.1 in
        (
          t,
          record {
            runs = rw (recover_slot-skipped lib behind start m e s b unused settled.0.0) rest.runs;
            between = rest.between;
            slots = omega (arith, rest.slots);
            grows = rest.grows;
            up_to = (λ z. absurd (unused z), rest.up_to);
            found = (λ z. absurd (unused z), rest.found);
            others = λ k o. rest.others k o.1;
          },
        )
  ]
    where
      skipped :
          (s : Scan lib)
          → IsBetween lib behind start m s
          → IsBetween lib behind start m (next_slot lib s)
      skipped s b = record {
        mem = b.mem;
        first = b.first;
        used = b.used;
        last = omega (arith, b.last);
      }
