-- ===== src/Util.antt =====
-- src/util.c: rounding, telling which kind of region a pointer stands in, cache-line flushes.
pub mod Round
pub mod Usage
pub mod Lines
use nvm_malloc.Base.{
  ℕ, zero, suc, ◌+◌, ◌-◌, ◌%◌, ◌/◌, ◌*◌, Bool, ◌||◌, Option, none, some, List, [], ◌∷◌, ltb, ◌==◌,
  if◌then◌else◌, u64, sub64,
}
use nvm_malloc.Types.{
  cache_line_size, block_size, chunk_size, header_size, get_usage, usage_block, usage_free,
  usage_run, usage_huge,
}

pub round_up : ℕ → ℕ → ℕ
round_up num multiple =
    if multiple == 0
    then num
    else (let rest = num % multiple in if rest == 0 then num else u64 (num + multiple - rest))

-- The `(char)-1` of the source, as a bit pattern.
abbrev pub usage_error : ℕ
usage_error = 255

-- `mem` is NVRAM, `start` is `nvm_start`.
pub identify_usage : (mem : ℕ → ℕ) (start : ℕ) → ℕ → ℕ
identify_usage mem start ptr =
    let rel_ptr = sub64 ptr start in
    if rel_ptr % chunk_size == header_size
    then usage_huge
    else if ltb header_size (rel_ptr % block_size)
    then usage_run
    else if rel_ptr % block_size == header_size
    then (let usage = get_usage (mem (sub64 ptr header_size)) in
        if (usage == usage_block) || (usage == usage_free) then usage_block else usage_run)
    else usage_error

-- The lines that `clflush_range` flushes, in order; `none` if the fuel runs out.
flush_from : ℕ → ℕ → ℕ → Option (List ℕ)
flush_from zero start stop = none
flush_from (suc fuel) start stop =
    let rest = flush_from fuel (u64 (start + cache_line_size)) stop in
    if ltb start stop then (elim rest [ none ↦ none | some ls ↦ some (start ∷ ls) ]) else some []

-- `ptr & ~(CACHE_LINE_SIZE-1)`, then a line at a time; the fuel is one round for each line and
-- one for the last test.
pub clflush_range : ℕ → ℕ → Option (List ℕ)
unfolding flush_from
clflush_range ptr len =
    flush_from (len / cache_line_size + 3) (ptr - ptr % cache_line_size) (u64 (ptr + len))
