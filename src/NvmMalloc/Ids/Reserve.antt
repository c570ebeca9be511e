-- ===== src/NvmMalloc/Ids/Reserve.antt =====
-- `nvm_reserve_id` and `nvm_get_id` of src/nvm_malloc.c together.
use nvm_malloc.Base.{
  ℕ, ◌≡◌, ◌≢◌, ◌≤◌, ◌⊎◌, inl, inr, refl, sym, ◌∙◌, Option, none, some, length, ◌==◌, >>=-eq-some,
  some-pair, Bool-cases,
}
use mathlib.Core.Path.{subst₂}
use nvm_malloc.Types.{max_id_length}
use nvm_malloc.ObjectTable.{
  ObjectId, Entry, HashMap, Table, Status, ot_ok, ot_fail, ot_duplicate, Outcome, returns,
  out_of_bounds, spins, ot_get, ot_insert,
}
use nvm_malloc.ObjectTable.Lookup.{ot_insert-get}
use nvm_malloc.State.{State, Env}
use nvm_malloc.NvmMalloc.{nvm_reserve}
use nvm_malloc.NvmMalloc.Ids.{System, finished, nvm_reserve_id, nvm_get_id}

module _ (lib : HashMap) where
  get_id-some :
      (id : ObjectId) (t : System lib) (e : Entry)
      → ot_get lib id t.table ≡ some e
      → nvm_get_id lib id t ≡ e.data_ptr
  unfolding nvm_get_id
  get_id-some id t e g = rw (g, nvm_get_id)

  finished-returns : {A : Type 0} (o : Outcome A) (a : A) → finished o ≡ some a → o ≡ returns a
  finished-returns (returns b) a e = cc
  finished-returns out_of_bounds a e = cc
  finished-returns spins a e = cc

  -- The table took the identifier, and the look-up gives `p`; or it did not take it.
  abbrev pub Named : (id : ObjectId) (p : ℕ) → System lib → System lib → Type 0
  Named id p s t =
      (nvm_get_id lib id t ≡ p)
      ⊎ ((status : Status) × (status ≢ ot_ok)
          × (ot_insert lib id p s.table ≡ returns (status, t.table)))

  inserted-Named :
      (id : ObjectId) (p : ℕ) (s : System lib) (u : State) (status : Status) (v : Table lib)
      → length id ≤ max_id_length
      → ot_insert lib id p s.table ≡ returns (status, v)
      → Named id p s (record { state = u; table = v })
  inserted-Named id p s u ot_ok v short e =
      let (absent, (x, got, same, at), others) = ot_insert-get lib id p s.table v short e in
      inl (get_id-some id (record { state = u; table = v }) x got ∙ at)
  inserted-Named id p s u ot_fail v short e = inr (ot_fail, λ q. cc, e)
  inserted-Named id p s u ot_duplicate v short e = inr (ot_duplicate, λ q. cc, e)

  -- If `nvm_reserve_id` returns a pointer for an identifier of at most 54 bytes, the identifier was
  -- not in the table; and `nvm_get_id` gives the pointer afterwards, unless `ot_insert` refused the
  -- entry, which the code does not look at.
  pub nvm_reserve_id-nvm_get_id :
      (env : Env) (tid : ℕ) (id : ObjectId) (n_bytes : ℕ) (s : System lib) (p : ℕ) (t : System lib)
      → length id ≤ max_id_length
      → nvm_reserve_id lib env tid id n_bytes s ≡ some (p, t)
      → p ≢ 0
      → (ot_get lib id s.table ≡ none) × Named id p s t
  unfolding nvm_reserve_id
  nvm_reserve_id-nvm_get_id env tid id n_bytes s p t short h ne =
      by_found (ot_get lib id s.table) refl
    where
      by_stored :
          (mem : ℕ) (u : State) (r : Status × Table lib)
          → finished (ot_insert lib id mem s.table) ≡ some r
          → mem ≡ p
          → ◌≡◌ {A = System lib} (record { state = u; table = r.1 }) t
          → Named id p s t
      by_stored mem u (status, v) ins at last =
          subst₂ (λ q w. Named id q s w) at last
            (inserted-Named id mem s u status v short
              (finished-returns (ot_insert lib id mem s.table) (status, v) ins))

      by_found :
          (found : Option Entry)
          → ot_get lib id s.table ≡ found
          → (ot_get lib id s.table ≡ none) × Named id p s t
      by_found (some e) g = absurd (ne (sym (some-pair (rw (g, nvm_reserve_id) at h)).0))
      by_found none g =
          let ((mem, u), first, e₁) =
            >>=-eq-some (nvm_reserve env tid n_bytes s.state) _ (rw (g, nvm_reserve_id) at h) in
          (
            g,
            elim (Bool-cases (mem == 0)) [
              | inl z ↦ absurd (ne (sym (some-pair (rw z at e₁)).0))
              | inr nz ↦
                  let (r, ins, e₂) =
                    >>=-eq-some (finished (ot_insert lib id mem s.table)) _ (rw nz at e₁) in
                  let (at, last) = some-pair e₂ in by_stored mem u r ins at last
            ],
          )
