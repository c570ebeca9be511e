-- ===== src/Chunk.antt =====
-- src/chunk.c: the mapped region, and its growth by whole chunks over the backing file.
--
-- The operating system is a parameter: whether an allocation of file space and a mapping succeed,
-- by offset and length. A success of `posix_fallocate` makes the file at least as long as asked.
-- `none` is the end of the process in `error_and_exit`.
pub mod Regions
use Prim.Native.Nat.{max}
use nvm_malloc.Base.{
  ℕ, ◌+◌, ◌*◌, ◌/◌, ◌<◌, Bool, true, false, Option, none, some, List, [], ◌∷◌, ltb, ◌==◌,
  if◌then◌else◌, u64,
}
use nvm_malloc.Types.{chunk_size, block_size}

pub record Os : Type 0 where
  pub fallocate : (offset len : ℕ) → Bool
  pub map : (offset len : ℕ) → Bool
  -- where the kernel puts the reserved region, and the page of meta information
  pub region : ℕ
  pub meta : ℕ

-- The static variables of chunk.c, and the size of the backing file.
pub record Space : Type 0 where
  pub region_start : ℕ
  pub max_chunks : ℕ
  pub next_chunk : ℕ
  pub meta_info : ℕ
  pub file_size : ℕ

module _ (os : Os) where
  -- The paths of the two files have no part in the model.
  unfoldable pub initialize_nvm_space : (max_num_chunks : ℕ) → Space → Option Space
  initialize_nvm_space max_num_chunks s =
      if os.map 0 (max_num_chunks * chunk_size)
      then some (record s { region_start = os.region; max_chunks = max_num_chunks })
      else none

  -- The files are opened empty; the first megabyte keeps PMFS from huge pages.
  unfoldable pub initialize_chunks : Space → Option Space
  initialize_chunks s =
      if os.fallocate 0 (1024 * 1024)
      then (if os.fallocate 0 block_size
          then (if os.map 0 block_size
              then some (record s { file_size = 1024 * 1024; meta_info = os.meta })
              else none)
          else none)
      else none

  -- The result is the number of chunks; 0 leaves all as it was.
  pub recover_chunks : Space → Option (ℕ × Space)
  recover_chunks s =
      if s.file_size == 0
      then some (0, s)
      else if os.map 0 s.file_size
      then (if os.map 0 block_size
          then some (
            s.file_size / chunk_size,
            record s { next_chunk = s.file_size / chunk_size; meta_info = os.meta },
          )
          else none)
      else none

  unfoldable pub activate_more_chunks : ℕ → Space → Option (ℕ × Space)
  activate_more_chunks n_chunks s =
      if ltb s.max_chunks (u64 (s.next_chunk + n_chunks))
      then none
      else (let offset = u64 (s.next_chunk * chunk_size) in
          let len = u64 (n_chunks * chunk_size) in
          if os.fallocate offset len
          then (if os.map offset len
              then some (
                u64 (s.region_start + offset),
                record s {
                  next_chunk = u64 (s.next_chunk + n_chunks);
                  file_size = max s.file_size (offset + len);
                },
              )
              else none)
          else none)

-- The files stay as they are.
pub teardown_nvm_space : Space → Space
teardown_nvm_space s = record s { region_start = 0; max_chunks = 0; next_chunk = 0; meta_info = 0 }
