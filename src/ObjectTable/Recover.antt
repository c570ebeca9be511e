-- ===== src/ObjectTable/Recover.antt =====
-- `ot_recover` of src/object_table.c: after a restart, the table of the entries in NVRAM.
--
-- An entry in NVRAM has its state at its address, the identifier behind it, and the pointer at
-- offset 56. The 54 bytes of an identifier are copied into memory from `malloc`, and nothing is
-- put behind them: reading an identifier without a zero byte among them goes on into what was there.
-- `behind` is that string, by the entry.
pub mod Entries
pub mod Kept
pub mod Restored
pub mod Chain
pub mod Unterminated
use nvm_malloc.Base.{
  ℕ, zero, suc, ◌+◌, ◌-◌, ◌*◌, ◌/◌, ◌%◌, ◌^◌, Bool, true, false, ◌&&◌, ◌||◌, not, Option, none,
  some, [], ◌∷◌, ltb, ◌==◌, if◌then◌else◌, ◌>>=◌, update, u64, u16, sub64,
}
use nvm_malloc.Types.{
  block_size, header_size, max_id_length, usage_huge, usage_block, usage_run, state_initialized,
  state_initializing, state_prefree, state_activating, rel_to_abs,
}
use nvm_malloc.Types.Run
use nvm_malloc.Util.{identify_usage}
use nvm_malloc.Bits.{test_bit}
use nvm_malloc.Nvm.{Mem, memset_zero}
use nvm_malloc.Slot.{index_of}
use nvm_malloc.ObjectTable.{ObjectId, HashMap, Table, slot_buffer_size, entries_per_chunk}

-- The three comparisons take the whole state byte of the header, usage bits and all.
pub header_keeps : (state : ℕ) → Bool
header_keeps state =
    (state == state_prefree) || (state == state_activating) || (state == state_initialized)

-- `none` is the division by a size of 0.
run_keeps : Mem → (ptr : ℕ) → Option Bool
run_keeps m ptr =
    let run = ptr / block_size * block_size in
    let idx = index_of run (m (run + Run.n_bytes)) ptr in
    let set = not (test_bit (m (run + Run.bitmap + idx / 8 % 2 ^ 8)) (idx % 8) == 0) in
    if m (run + Run.n_bytes) == 0
    then none
    else some (
        ((m run == state_prefree) && set)
        || ((m run == state_activating) && (m (run + Run.bit_idx) == idx))
        || ((m run == state_initialized) && set))

-- Whether the region behind an entry that was being activated has been, or will be, activated.
pub region_keeps : Mem → (nvm_start ptr : ℕ) → Option Bool
unfolding header_keeps run_keeps
region_keeps m nvm_start ptr =
    let usage = identify_usage m nvm_start ptr in
    if usage == usage_huge
    then some (header_keeps (m (sub64 ptr header_size)))
    else if usage == usage_block
    then some (header_keeps (m (sub64 ptr header_size)))
    else if usage == usage_run
    then run_keeps m ptr
    else some false

-- The first test of an entry: whether to keep it, and memory with its state settled or cleared.
pub judge_entry : (nvm_start : ℕ) → (nvm_entry : ℕ) → Mem → Option (Bool × Mem)
unfolding region_keeps
judge_entry nvm_start nvm_entry m =
    if m nvm_entry == state_initialized
    then some (true, m)
    else if m nvm_entry == state_initializing
    then (do
      keep ← region_keeps m nvm_start (u64 (nvm_start + m (nvm_entry + 56)))
      some (
          if keep
          then (true, update m nvm_entry state_initialized)
          else (false, memset_zero nvm_entry 64 m)))
    else some (false, m)

-- The C string that starts with a copy of the `n` cells from `a` on, before the string `behind`.
unfoldable pub read_id : (behind : ObjectId) → Mem → (n a : ℕ) → ObjectId
read_id behind m zero a = behind
read_id behind m (suc n) a =
    let rest = read_id behind m n (a + 1) in if m a == 0 then [] else m a ∷ rest

module _ (lib : HashMap) where
  -- The locals of the loops beside the table; `none` is a store behind the slot buffer's end.
  pub record Scan : Type 0 where
    pub table : Table lib
    pub mem : Mem
    pub current_slot : ℕ
    pub last_used_slot : ℕ

  abbrev push_slot : (n : ℕ) → Table lib → Table lib
  push_slot n t = record t {
    slot_buffer = update t.slot_buffer t.slot_buffer_next_idx n;
    slot_buffer_next_idx = t.slot_buffer_next_idx + 1;
    slot_buffer_tail_idx = u64 (t.slot_buffer_tail_idx + 1);
    slot_buffer_n_free = u16 (t.slot_buffer_n_free + 1);
  }

  -- "add the unused slots we found since the last valid entry": `rounds` slots from `n` on
  push_slots : (rounds n : ℕ) → Table lib → Option (Table lib)
  push_slots zero n t = some t
  push_slots (suc rounds) n t =
      let rest = push_slots rounds (n + 1) (push_slot n t) in
      if ltb t.slot_buffer_next_idx slot_buffer_size then rest else none

  pub next_slot : Scan → Scan
  next_slot s = record s { current_slot = s.current_slot + 1 }

module _ (lib : HashMap) (behind : ℕ → ObjectId) where
  add_recovered : (nvm_entry : ℕ) → Scan lib → Option (Scan lib)
  unfolding push_slots read_id
  add_recovered nvm_entry s = do
    let id = read_id (behind nvm_entry) s.mem max_id_length (nvm_entry + 1)
    table ← push_slots lib (s.current_slot - (s.last_used_slot + 1)) (s.last_used_slot + 1) s.table
    some (record s {
      table = record table {
        hashmap =
            lib.set id
              (record {
                id = id;
                slot = s.current_slot;
                data_ptr = rel_to_abs s.table.first_chunk (s.mem (nvm_entry + 56));
                nvm_entry = nvm_entry;
              })
              table.hashmap;
      };
      last_used_slot = s.current_slot;
    })

  pub recover_slot : (nvm_start nvm_entry : ℕ) → Scan lib → Option (Scan lib)
  unfolding add_recovered judge_entry next_slot
  recover_slot nvm_start nvm_entry s = do
    (keep, m) ← judge_entry nvm_start nvm_entry s.mem
    let judged : Scan lib = record s { mem = m }
    if keep
        then (do added ← add_recovered nvm_entry judged; some (next_slot lib added))
        else some (next_slot lib judged)

  -- The slots of one chunk: `rounds` of them from the entry at `nvm_entry` on.
  recover_table : (nvm_start rounds nvm_entry : ℕ) → Scan lib → Option (Scan lib)
  unfolding recover_slot
  recover_table nvm_start zero nvm_entry s = some s
  recover_table nvm_start (suc rounds) nvm_entry s =
      recover_slot nvm_start nvm_entry s >>= recover_table nvm_start rounds (nvm_entry + 64)

  -- The chain of chunks that hold tables; `none` also if the fuel runs out.
  recover_chain : (nvm_start fuel chunk : ℕ) → Scan lib → Option (Scan lib)
  recover_chain nvm_start zero chunk s = none
  recover_chain nvm_start (suc fuel) chunk s = do
    t ← recover_table nvm_start entries_per_chunk (chunk + 64) s
    let rest = recover_chain nvm_start fuel (rel_to_abs s.table.first_chunk (t.mem (chunk + 56))) t
    if t.mem (chunk + 56) == 0 then some t else rest

  pub ot_recover : (nvm_start fuel : ℕ) → Mem → Table lib → Option (Table lib × Mem)
  unfolding recover_chain
  ot_recover nvm_start fuel m t = do
    let begun : Scan lib = record { table = t; mem = m; current_slot = 0; last_used_slot = 0 }
    s ← recover_chain nvm_start fuel t.first_chunk begun
    some (record s.table { next_nvm_slot = s.last_used_slot + 1 }, s.mem)
