-- ===== src/Header.antt =====
-- Huge regions and large blocks in NVRAM: the part of `nvm_activate` and `nvm_free` of
-- src/nvm_malloc.c and of `arena_free` of src/arena.c that writes their header, and the part of
-- `nvm_initialize_recovered` that repairs it. The statements are the same for both kinds of header
-- but for the usage bits.
pub mod Atomic
pub mod Repair
pub mod Done
pub mod Plain
pub mod Resume
pub mod Again
use nvm_malloc.Base.{
  ℕ, ◌+◌, bit_or, Bool, true, false, Option, none, some, List, [], ◌∷◌, ◌++◌, ◌==◌, if◌then◌else◌,
}
use nvm_malloc.Types.{
  get_state, state_initialized, state_prefree, state_freeing, state_preactivate, state_activating,
  usage_free, usage_block, usage_huge,
}
use nvm_malloc.Types.Block
use nvm_malloc.Nvm.{Mem, Event, store, fence, persist, clear_on}
use nvm_malloc.Links.{Links, commit_links, replay_links}

-- From the last state byte on: the state, then the links are cleared.
abbrev pub settle : (h state : ℕ) → List Event
settle h state = store h state ∷ fence ∷ (clear_on (h + Block.on) ++ persist h)

-- The repairs end with the state byte.
abbrev pub resettle : (h state : ℕ) → List Event
resettle h state = clear_on (h + Block.on) ++ (store h state ∷ persist h)

-- A huge region, whose header starts a chunk, or a large block, whose header starts a page.
pub data Kind : Type 0 where
  huge block : Kind

abbrev pub usage_of : Kind → ℕ
usage_of huge = usage_huge
usage_of block = usage_block

module _ (start : ℕ) (kind : Kind) where
  unfoldable pub activate : ℕ → Links → List Event
  activate h l =
      commit_links start h (h + Block.on) (bit_or (usage_of kind) state_activating) l
      ++ settle h (bit_or (usage_of kind) state_initialized)

  unfoldable pub free : ℕ → Links → List Event
  free h l =
      commit_links start h (h + Block.on) (bit_or (usage_of kind) state_freeing) l
      ++ settle h (bit_or usage_free state_initialized)

  -- What recovery does to a header that the log names; the flag says whether the region goes to
  -- the free tree. `none` is the failure of the assertion at the end.
  unfoldable pub recover : Mem → ℕ → Option (List Event × Bool)
  recover m h =
      let state = get_state (m h) in
      let replay = replay_links start m (h + Block.on) in
      let in_use = bit_or (usage_of kind) state_initialized in
      let unused = bit_or usage_free state_initialized in
      if state == state_prefree
      then some (resettle h in_use, false)
      else if state == state_freeing
      then some (replay ++ resettle h unused, true)
      else if state == state_preactivate
      then some (resettle h unused, true)
      else if state == state_activating
      then some (replay ++ resettle h in_use, false)
      else if state == state_initialized
      then some ([], false)
      else none
