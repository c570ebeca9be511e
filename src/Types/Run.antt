-- ===== src/Types/Run.antt =====
-- `struct nvm_run_header_s` of src/types.h: offsets of the fields behind the state byte.
use nvm_malloc.Base.{ℕ}

abbrev pub n_bytes : ℕ
n_bytes = 2

abbrev pub vdata : ℕ
vdata = 8

abbrev pub on : ℕ
on = 16

abbrev pub bitmap : ℕ
bitmap = 48

abbrev pub bit_idx : ℕ
bit_idx = 56

abbrev pub arena_id : ℕ
arena_id = 58

abbrev pub version : ℕ
version = 60
