-- ===== src/NvmMalloc/Ids.antt =====
-- The named objects of src/nvm_malloc.c: reserve, activate, look up and free by identifier.
pub mod Reserve
use nvm_malloc.Base.{ℕ, ◌+◌, Option, none, some, ◌∷◌, ◌==◌, if◌then◌else◌, ◌>>=◌, update}
use nvm_malloc.Types.{
  max_id_length, abs_to_rel, state_none, state_initializing, state_initialized, state_freeing,
}
use nvm_malloc.Nvm.{Mem, exec, store, fence, persist, memset_zero, write_bytes}
use nvm_malloc.Links.{no_links}
use nvm_malloc.ObjectTable.{
  ObjectId, HashMap, Table, Outcome, returns, out_of_bounds, spins, truncate, ot_get, ot_insert,
  ot_remove,
}
use nvm_malloc.State.{State, Env, set_mem}
use nvm_malloc.NvmMalloc.{nvm_reserve, nvm_activate, nvm_free}

-- A call of the object table that does not return ends the process here.
abbrev pub finished : {A : Type 0} → Outcome A → Option A
finished (returns a) = some a
finished out_of_bounds = none
finished spins = none

module _ (lib : HashMap) where
  pub record System : Type 0 where
    pub state : State
    pub table : Table lib

  -- Fields of an entry in NVRAM.
  abbrev pub entry_id : ℕ → ℕ
  entry_id e = e + 1

  abbrev pub entry_ptr : ℕ → ℕ
  entry_ptr e = e + 56

  -- The result 0 is NULL. The code does not look at the status of `ot_insert`.
  unfoldable pub nvm_reserve_id :
      Env → (tid : ℕ) → ObjectId → (n_bytes : ℕ) → System → Option (ℕ × System)
  nvm_reserve_id env tid id n_bytes s = elim (ot_get lib id s.table) [
    | some e ↦ some (0, s)
    | none ↦ do
      (mem, state) ← nvm_reserve env tid n_bytes s.state
      if mem == 0 then some (0, record s { state = state }) else (do
        (status, table) ← finished (ot_insert lib id mem s.table)
        some (mem, record { state = state; table = table }))
  ]

  -- Step 1: the entry in the state INITIALIZING; `strncpy` fills up with zeros.
  abbrev pub prepare_entry : (e : ℕ) → ObjectId → (rel_ptr : ℕ) → Mem → Mem
  prepare_entry e id rel_ptr m =
      exec
        (store (entry_id e + 54) 0
          ∷ store (entry_ptr e) rel_ptr
          ∷ fence
          ∷ store e state_initializing
          ∷ persist e)
        (write_bytes (entry_id e) (truncate max_id_length id)
          (memset_zero (entry_id e) max_id_length (update m e state_none)))

  pub nvm_activate_id : ObjectId → System → Option System
  nvm_activate_id id s = elim (ot_get lib id s.table) [
    | none ↦ some s
    | some e ↦ do
      let prepared =
          prepare_entry e.nvm_entry id (abs_to_rel s.state.nvm_start e.data_ptr) s.state.mem
      activated ← nvm_activate e.data_ptr no_links (set_mem prepared s.state)
      some (record s {
        state =
            set_mem (exec (store e.nvm_entry state_initialized ∷ persist e.nvm_entry) activated.mem)
              activated;
      })
  ]

  pub nvm_get_id : ObjectId → System → ℕ
  nvm_get_id id s = elim (ot_get lib id s.table) [ none ↦ 0 | some e ↦ e.data_ptr ]

  pub nvm_free_id : Env → ObjectId → System → Option System
  nvm_free_id env id s = elim (ot_get lib id s.table) [
    | none ↦ some s
    | some e ↦ do
      let marked = exec (store e.nvm_entry state_freeing ∷ persist e.nvm_entry) s.state.mem
      freed ← nvm_free env e.data_ptr no_links (set_mem marked s.state)
      (status, table) ← finished (ot_remove lib id s.table)
      some (record { state = freed; table = table })
  ]
