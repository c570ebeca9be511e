-- ===== src/ObjectTable/Slots.antt =====
-- Where `ot_insert` of src/object_table.c puts the entries in NVRAM.
use nvm_malloc.Base.{ℕ, ◌+◌, ◌*◌, ◌/◌, ◌≤◌, ◌≢◌, ◌⊎◌, arith}
use nvm_malloc.Types.{chunk_size, block_size}
use nvm_malloc.ObjectTable.{HashMap, entry_address, entries_per_chunk}

-- Every slot has a cache line of its own, behind the first line of the header page of its chunk.
abbrev pub IsLineInHeader : (first slot address : ℕ) → Type 0
IsLineInHeader first slot address =
    let chunk = first + slot / entries_per_chunk * chunk_size in
    (chunk + 64 ≤ address) × (address + 64 ≤ chunk + block_size)

-- The entry of a slot lies in the object table of the chunk that holds the slot, and the entries
-- of two different slots do not overlap.
entry_address-apart :
    (lib : HashMap) (first slot other : ℕ)
    → slot ≢ other
    → IsLineInHeader first slot (entry_address lib first slot)
      × ((entry_address lib first slot + 64 ≤ entry_address lib first other)
          ⊎ (entry_address lib first other + 64 ≤ entry_address lib first slot))
entry_address-apart lib first slot other ne = ((omega arith, omega arith), ground arith)
