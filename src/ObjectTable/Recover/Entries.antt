-- ===== src/ObjectTable/Recover/Entries.antt =====
-- Which entries `ot_recover` of src/object_table.c keeps.
use nvm_malloc.Base.{ℕ, ◌+◌, ◌*◌, ◌/◌, ◌≤◌, ◌<◌, ◌≡◌, arith, false, some, u64, sub64}
use nvm_malloc.Types.{block_size, header_size, state_initializing}
use nvm_malloc.Types.Run
use nvm_malloc.Nvm.{Mem, memset_zero}
use nvm_malloc.ObjectTable.Recover.{header_keeps, run_keeps, region_keeps, judge_entry}

header_keeps-used : (v : ℕ) → 16 ≤ v → header_keeps v ≡ false
unfolding header_keeps
header_keeps-used v le = ground arith

run_keeps-used :
    (m : Mem) (ptr : ℕ)
    → 16 ≤ m (ptr / block_size * block_size)
    → 0 < m (ptr / block_size * block_size + Run.n_bytes)
    → run_keeps m ptr ≡ some false
unfolding run_keeps
run_keeps-used m ptr le sized = ground arith

region_keeps-used :
    (m : Mem) (start ptr : ℕ)
    → 16 ≤ m (sub64 ptr header_size)
    → 16 ≤ m (ptr / block_size * block_size)
    → 0 < m (ptr / block_size * block_size + Run.n_bytes)
    → region_keeps m start ptr ≡ some false
unfolding region_keeps
region_keeps-used m start ptr le page sized =
    ground
      (arith, header_keeps-used (m (sub64 ptr header_size)) le, run_keeps-used m ptr page sized)

-- An entry that was being activated at the crash is cleared and not kept, whenever the two headers
-- at which the code may look, 64 bytes before the entry's pointer and at the start of its page, have
-- any usage bit, and the size of a run's slots at that page is not 0: the code compares their whole
-- state bytes with states.
pub judge_entry-initializing :
    (start entry ptr : ℕ) (m : Mem)
    → m entry ≡ state_initializing
    → u64 (start + m (entry + 56)) ≡ ptr
    → 16 ≤ m (sub64 ptr header_size)
    → 16 ≤ m (ptr / block_size * block_size)
    → 0 < m (ptr / block_size * block_size + Run.n_bytes)
    → judge_entry start entry m ≡ some (false, memset_zero entry 64 m)
unfolding judge_entry
judge_entry-initializing start entry ptr m e at le page sized =
    rw (e, at, region_keeps-used m start ptr le page sized)
