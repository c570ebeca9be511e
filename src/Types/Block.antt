-- ===== src/Types/Block.antt =====
-- `struct nvm_huge_header_s` and `struct nvm_block_header_s` of src/types.h: offsets of the
-- fields behind the state byte. The two agree up to `on`.
use nvm_malloc.Base.{ℕ}

-- `n_pages` of a block, `n_chunks` of a huge region
abbrev pub n_units : ℕ
n_units = 4

abbrev pub on : ℕ
on = 8

abbrev pub arena_id : ℕ
arena_id = 40
