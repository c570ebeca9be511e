-- ===== src/Types.antt =====
-- src/types.h: the constants, the state byte, and the offsets of the fields in NVRAM.
--
-- Memory is one cell for each field, at the field's byte address. A struct starts at an address
-- `h`, and its fields stand at `h` plus their offset. The state byte is the first field of every
-- header, so the code reads it before it knows which header it has.
pub mod Block
pub mod Run
use nvm_malloc.Base.{ℕ, ◌+◌, ◌-◌, ◌*◌, ◌/◌, ◌%◌, ◌^◌, if◌then◌else◌, ◌==◌, sub64, u64}

abbrev pub cache_line_size : ℕ
cache_line_size = 64

abbrev pub block_size : ℕ
block_size = 4096

abbrev pub chunk_size : ℕ
chunk_size = 4 * 1024 * 1024

abbrev pub max_nvm_chunks : ℕ
max_nvm_chunks = 100 * 1024 * 1024 * 1024 / chunk_size

abbrev pub initial_arenas : ℕ
initial_arenas = 20

abbrev pub max_id_length : ℕ
max_id_length = 54

abbrev pub sclass_small_max : ℕ
sclass_small_max = block_size / 2 - 64

abbrev pub sclass_large_max : ℕ
sclass_large_max = chunk_size / 2 - 64

-- `sizeof` of the three headers, which the source asserts to be one cache line
abbrev pub header_size : ℕ
header_size = 64

-- `GET_STATE`: the low four bits
abbrev pub get_state : ℕ → ℕ
get_state s = s % 16

-- `GET_USAGE`: the bits above them
abbrev pub get_usage : ℕ → ℕ
get_usage s = s / 16 * 16

abbrev pub state_none : ℕ
state_none = 0

abbrev pub state_initializing : ℕ
state_initializing = 1

abbrev pub state_initialized : ℕ
state_initialized = 2

abbrev pub state_prefree : ℕ
state_prefree = 4

abbrev pub state_freeing : ℕ
state_freeing = 5

abbrev pub state_preactivate : ℕ
state_preactivate = 6

abbrev pub state_activating : ℕ
state_activating = 7

abbrev pub usage_free : ℕ
usage_free = 1 * 2 ^ 4

abbrev pub usage_arena : ℕ
usage_arena = 2 * 2 ^ 4

abbrev pub usage_block : ℕ
usage_block = 3 * 2 ^ 4

abbrev pub usage_run : ℕ
usage_run = 4 * 2 ^ 4

abbrev pub usage_huge : ℕ
usage_huge = 5 * 2 ^ 4

-- `int16_t bit_idx = -1`
abbrev pub no_bit : ℕ
no_bit = 2 ^ 16 - 1

-- The conversion macros; `start` is `nvm_start`.
abbrev pub abs_to_rel : ℕ → ℕ → ℕ
abs_to_rel start p = sub64 p start

abbrev pub abs_to_rel_with_null : ℕ → ℕ → ℕ
abs_to_rel_with_null start p = if p == 0 then 0 else sub64 p start

abbrev pub rel_to_abs : ℕ → ℕ → ℕ
rel_to_abs start p = u64 (start + p)

abbrev pub rel_to_abs_with_null : ℕ → ℕ → ℕ
rel_to_abs_with_null start p = if p == 0 then 0 else u64 (start + p)
