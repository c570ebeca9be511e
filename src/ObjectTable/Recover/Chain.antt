-- ===== src/ObjectTable/Recover/Chain.antt =====
-- The named objects that `ot_recover` of src/object_table.c finds in the chain of chunks after a
-- restart.
use nvm_malloc.Base.{
  some-same, none-some, ℕ, zero, suc, ◌+◌, ◌<◌, ◌≡◌, ◌≢◌, inl, inr, refl, sym, ◌∙◌, ap, ap₂, subst,
  arith, some, none, Option-cases, List, [], ◌∷◌, ◌++◌, ne→==, length, All,
}
use nvm_malloc.Types.{rel_to_abs}
use nvm_malloc.Nvm.{Mem}
use nvm_malloc.ObjectTable.{ObjectId, HashMap, Table, entries_per_chunk, ot_get}
use nvm_malloc.ObjectTable.Lookup.{get, get-empty}
use nvm_malloc.ObjectTable.Recover.{Scan, recover_slot, recover_table, recover_chain, ot_recover}
use nvm_malloc.ObjectTable.Recover.Kept.{IsBetween}
use nvm_malloc.ObjectTable.Recover.Restored.{
  scan_all, IsOther, AreApart, HaveRoom, AreSettled, AreFound, AreUpTo, scan_all-Scanned,
}

-- `n` entries from the one at `e` on.
unfoldable pub rows : (n e : ℕ) → List ℕ
rows zero e = []
rows (suc n) e = e ∷ rows n (e + 64)

-- The entries of a chain of chunks, which starts at `chunk`.
unfoldable pub chain_entries : (chunk : ℕ) → List ℕ → List ℕ
unfolding rows
chain_entries c [] = rows entries_per_chunk (c + 64)
chain_entries c (d ∷ ds) = rows entries_per_chunk (c + 64) ++ chain_entries d ds

All-prefix {ℓ κ} : {A : Type ℓ} (P : A → Type κ) (xs ys : List A) → All P (xs ++ ys) → All P xs
All-prefix P [] ys h = tt
All-prefix P (x ∷ xs) ys h = (h.0, All-prefix P xs ys h.1)

All-suffix {ℓ κ} : {A : Type ℓ} (P : A → Type κ) (xs ys : List A) → All P (xs ++ ys) → All P ys
All-suffix P [] ys h = h
All-suffix P (x ∷ xs) ys h = All-suffix P xs ys h.1

module _ (lib : HashMap) (behind : ℕ → ObjectId) (start : ℕ) (m : Mem) where
  -- Each chunk names the next, and the last none.
  abbrev pub IsChain : ℕ → List ℕ → Type 0
  IsChain c [] = m (c + 56) ≡ 0
  IsChain c (d ∷ ds) = (m (c + 56) ≢ 0) × (rel_to_abs start (m (c + 56)) ≡ d) × IsChain d ds

  recover_table-scan :
      (n e : ℕ) (s : Scan lib)
      → recover_table lib behind start n e s ≡ scan_all lib behind start m (rows n e) s
  unfolding recover_table rows
  recover_table-scan zero e s = refl
  recover_table-scan (suc n) e s = elim (Option-cases (recover_slot lib behind start e s)) [
    | inl f ↦ rw f refl
    | inr (t, f) ↦ rw f (recover_table-scan n (e + 64) t)
  ]

  scan_all-append :
      (xs ys : List ℕ) (s u : Scan lib)
      → scan_all lib behind start m xs s ≡ some u
      → scan_all lib behind start m (xs ++ ys) s ≡ scan_all lib behind start m ys u
  scan_all-append [] ys s u e = ap (scan_all lib behind start m ys) (some-same e)
  scan_all-append (x ∷ xs) ys s u e = elim (Option-cases (recover_slot lib behind start x s)) [
    | inl f ↦ absurd (none-some (rw f at e))
    | inr (t, f) ↦ rw f (scan_all-append xs ys t u (rw f at e))
  ]

  AreApart-prefix :
      (xs ys : List ℕ) → AreApart lib behind start m (xs ++ ys) → AreApart lib behind start m xs
  AreApart-prefix [] ys h = tt
  AreApart-prefix (x ∷ xs) ys h = (λ z. All-prefix _ xs ys (h.0 z), AreApart-prefix xs ys h.1)

  AreApart-suffix :
      (xs ys : List ℕ) → AreApart lib behind start m (xs ++ ys) → AreApart lib behind start m ys
  AreApart-suffix [] ys h = h
  AreApart-suffix (x ∷ xs) ys h = AreApart-suffix xs ys h.1

  HaveRoom-suffix :
      (p q : ℕ) (xs ys : List ℕ)
      → q ≡ p + length xs
      → HaveRoom lib behind start m p (xs ++ ys)
      → HaveRoom lib behind start m q ys
  HaveRoom-suffix p q [] ys e h =
      let same : p ≡ q = omega (arith, e) in subst (λ z. HaveRoom lib behind start m z ys) same h
  HaveRoom-suffix p q (x ∷ xs) ys e h = HaveRoom-suffix (p + 1) q xs ys (omega (arith, e)) h.1

  HaveRoom-prefix :
      (p : ℕ) (xs ys : List ℕ)
      → HaveRoom lib behind start m p (xs ++ ys)
      → HaveRoom lib behind start m p xs
  HaveRoom-prefix p [] ys h = tt
  HaveRoom-prefix p (x ∷ xs) ys h = (h.0, HaveRoom-prefix (p + 1) xs ys h.1)

  -- One chunk of the chain, the last and any other.
  recover_chain-last :
      (fuel c : ℕ) (s t : Scan lib)
      → recover_table lib behind start entries_per_chunk (c + 64) s ≡ some t
      → t.mem (c + 56) ≡ 0
      → recover_chain lib behind start (suc fuel) c s ≡ some t
  unfolding recover_chain
  recover_chain-last fuel c s t e last = rw (e, last) refl

  recover_chain-next :
      (fuel c d : ℕ) (s t u : Scan lib)
      → recover_table lib behind start entries_per_chunk (c + 64) s ≡ some t
      → t.mem (c + 56) ≢ 0
      → rel_to_abs s.table.first_chunk (t.mem (c + 56)) ≡ d
      → recover_chain lib behind start fuel d t ≡ some u
      → recover_chain lib behind start (suc fuel) c s ≡ some u
  unfolding recover_chain
  recover_chain-next fuel c d s t u e more place rest = rw (e, ne→== _ _ more, place) rest

  -- The scan of a chain is that of its entries.
  recover_chain-scan :
      (ds : List ℕ) (fuel c : ℕ) (s t : Scan lib)
      → length ds < fuel
      → IsChain c ds
      → IsBetween lib behind start m s
      → AreSettled lib behind start m (chain_entries c ds)
      → AreApart lib behind start m (chain_entries c ds)
      → HaveRoom lib behind start m s.current_slot (chain_entries c ds)
      → scan_all lib behind start m (chain_entries c ds) s ≡ some t
      → recover_chain lib behind start fuel c s ≡ some t
  unfolding chain_entries
  recover_chain-scan ds zero c s t enough chain b settled apart room e =
      absurd (omega (arith, enough))
  recover_chain-scan [] (suc fuel) c s t enough chain b settled apart room e =
      let (u, scanned) =
        scan_all-Scanned lib behind start m (rows entries_per_chunk (c + 64)) s b settled apart
          room in
      let same : u ≡ t = some-same (sym scanned.runs ∙ e) in
      recover_chain-last fuel c s t (recover_table-scan entries_per_chunk (c + 64) s ∙ e) (
        ap (λ (x : Scan lib). x.mem (c + 56)) (sym same)
        ∙ ap (λ (x : Mem). x (c + 56)) scanned.between.mem
        ∙ chain)
  recover_chain-scan (d ∷ ds) (suc fuel) c s t enough chain b settled apart room e =
      let row = rows entries_per_chunk (c + 64) in
      let (u, scanned) =
        scan_all-Scanned lib behind start m row s b (All-prefix _ row (chain_entries d ds) settled)
          (AreApart-prefix row (chain_entries d ds) apart)
          (HaveRoom-prefix s.current_slot row (chain_entries d ds) room) in
      let at : u.mem (c + 56) ≡ m (c + 56) = ap (λ (x : Mem). x (c + 56)) scanned.between.mem in
      recover_chain-next fuel c d s u t
        (recover_table-scan entries_per_chunk (c + 64) s ∙ scanned.runs) (λ z. chain.0 (sym at ∙ z))
        (ap₂ rel_to_abs b.first at ∙ chain.1)
        (recover_chain-scan ds fuel d u t (omega (arith, enough)) chain.2 scanned.between
          (All-suffix _ row (chain_entries d ds) settled)
          (AreApart-suffix row (chain_entries d ds) apart)
          (HaveRoom-suffix s.current_slot u.current_slot row (chain_entries d ds) scanned.slots
            room)
          (sym (scan_all-append row (chain_entries d ds) s u scanned.runs) ∙ e))

  -- The table behind a restart: each entry in use is found, and nothing else, and the next new slot
  -- comes behind the slots in use.
  pub record IsRestored (es : List ℕ) (t : Table lib) : Type 0 where
    pub found : AreFound lib behind start m t.hashmap 0 es
    pub others : (k : ObjectId) → IsOther lib behind start m k es → ot_get lib k t ≡ none
    pub below : (last : ℕ) × (t.next_nvm_slot ≡ last + 1) × AreUpTo lib behind start m last 0 es

  -- Let no entry of the object tables be in the state INITIALIZING, let every identifier of an entry
  -- in use have a zero byte among its 54, let the map take no two of these identifiers for the same
  -- key, and let all entries in use stand in the first 201 slots. Then `ot_recover`, on an empty table with an empty slot buffer and with a round of
  -- fuel for each chunk of the chain, gets through the chain and leaves NVRAM as it was. The identifier of every entry in use is found, with its slot, its entry in
  -- NVRAM, and the absolute address of the region that the entry points to; and no identifier is
  -- found but those that the map takes for one of them. The next slot that was never used is behind
  -- all slots in use.
  pub ot_recover-IsRestored :
      (ds : List ℕ) (fuel : ℕ) (t : Table lib)
      → t.first_chunk ≡ start
      → t.hashmap ≡ lib.empty
      → t.slot_buffer_next_idx ≡ 0
      → length ds < fuel
      → IsChain start ds
      → AreSettled lib behind start m (chain_entries start ds)
      → AreApart lib behind start m (chain_entries start ds)
      → HaveRoom lib behind start m 0 (chain_entries start ds)
      → (u : Table lib) × (ot_recover lib behind start fuel m t ≡ some (u, m))
        × IsRestored (chain_entries start ds) u
  unfolding ot_recover ot_get
  ot_recover-IsRestored ds fuel t first empty next enough chain settled apart room =
      let begun : Scan lib = record { table = t; mem = m; current_slot = 0; last_used_slot = 0 } in
      let between : IsBetween lib behind start m begun = record {
        mem = refl;
        first = first;
        used = omega (arith, next);
        last = inl refl;
      } in
      let es = chain_entries start ds in
      let (s, scanned) = scan_all-Scanned lib behind start m es begun between settled apart room in
      let runs =
        recover_chain-scan ds fuel start begun s enough chain between settled apart room
          scanned.runs in
      let from_first : recover_chain lib behind start fuel t.first_chunk begun ≡ some s =
        subst (λ c. recover_chain lib behind start fuel c begun ≡ some s) (sym first) runs in
      (
        record s.table { next_nvm_slot = s.last_used_slot + 1 },
        rw from_first (
            ap (λ (x : Mem). some (record s.table { next_nvm_slot = s.last_used_slot + 1 }, x))
              scanned.between.mem),
        record {
          below = (s.last_used_slot, refl, scanned.up_to);
          found = scanned.found;
          others = λ k o. scanned.others k o ∙ ap (get lib k) empty ∙ get-empty lib k;
        },
      )
