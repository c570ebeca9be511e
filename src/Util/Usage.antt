-- ===== src/Util/Usage.antt =====
-- `identify_usage` of src/util.c on the pointers that the allocator hands out.
use nvm_malloc.Base.{ℕ, ◌+◌, ◌*◌, ◌/◌, ◌^◌, ◌<◌, ◌≡◌, ◌⊎◌, arith}
use nvm_malloc.Types.{
  chunk_size, block_size, get_usage, usage_huge, usage_block, usage_free, usage_run,
}
use nvm_malloc.Util.{identify_usage}

-- What a pointer of the allocator points at: the data of a huge region, of a large block, or a
-- slot of a run, by chunk, page and offset behind the header.
pub data Region : Type 0 where
  huge : (chunk : ℕ) → Region
  large : (chunk page : ℕ) → Region
  slot : (chunk page offset : ℕ) → Region

-- the header of the region, relative to the start of NVRAM
abbrev pub header_of : Region → ℕ
header_of (huge c) = c * chunk_size
header_of (large c p) = c * chunk_size + p * block_size
header_of (slot c p o) = c * chunk_size + p * block_size

abbrev pub offset_of : Region → ℕ
offset_of (huge c) = 0
offset_of (large c p) = 0
offset_of (slot c p o) = o

-- Page 0 of a chunk holds the chunk's header; a header in memory says what its page is used for.
abbrev pub IsPlaced : (ℕ → ℕ) → ℕ → Region → Type 0
IsPlaced mem start (huge c) = Unit
IsPlaced mem start (large c p) =
    (0 < p)
    × (p < chunk_size / block_size)
    × ((get_usage (mem (start + (c * chunk_size + p * block_size))) ≡ usage_block)
        ⊎ (get_usage (mem (start + (c * chunk_size + p * block_size))) ≡ usage_free))
IsPlaced mem start (slot c p o) =
    (0 < p)
    × (p < chunk_size / block_size)
    × (o + 64 < block_size)
    × (get_usage (mem (start + (c * chunk_size + p * block_size))) ≡ usage_run)

abbrev pub usage_of : Region → ℕ
usage_of (huge c) = usage_huge
usage_of (large c p) = usage_block
usage_of (slot c p o) = usage_run

-- For the data pointer of every region that is placed as the allocator places them, within the
-- address space, `identify_usage` gives the region's kind: huge, block (in use or free), or run.
pub identify_usage_lem :
    (mem : ℕ → ℕ) (start : ℕ) (r : Region)
    → start + (header_of r + 64 + offset_of r) < 2 ^ 64
    → IsPlaced mem start r
    → identify_usage mem start (start + (header_of r + 64 + offset_of r)) ≡ usage_of r
unfolding identify_usage
identify_usage_lem mem start (huge c) fits placed = ground arith
identify_usage_lem mem start (large c p) fits placed = ground arith
identify_usage_lem mem start (slot c p o) fits placed = ground arith
