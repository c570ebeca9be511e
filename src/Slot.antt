-- ===== src/Slot.antt =====
-- A slot of a run in NVRAM: the part of `nvm_activate` of src/nvm_malloc.c and of `arena_free` of
-- src/arena.c that writes a run's header, and the part of `nvm_initialize_recovered` that repairs
-- it.
--
-- The header's state byte is also the lock of the run: both operations begin with a
-- compare-and-swap that waits for the state RUN | INITIALIZED. The model starts when it succeeds.
-- From then on no other thread writes the header, so the bitmap byte is read from memory as it was
-- at the start.
pub mod Repair
pub mod Atomic
pub mod Done
pub mod Plain
pub mod Again
use nvm_malloc.Base.{
  ℕ, ◌+◌, ◌-◌, ◌/◌, ◌%◌, ◌^◌, leb, bit_or, Bool, Option, none, some, List, [], ◌∷◌, ◌++◌, ◌==◌,
  if◌then◌else◌, u16, sub64,
}
use nvm_malloc.Types.{
  get_state, state_initialized, state_prefree, state_freeing, state_preactivate, state_activating,
  usage_run, header_size, no_bit,
}
use nvm_malloc.Types.Run
use nvm_malloc.Bits.{set_bit, clear_bit}
use nvm_malloc.Nvm.{Mem, Event, store, fence, persist, clear_on}
use nvm_malloc.Links.{Links, commit_links, replay_links}

-- What happens to a slot: it is activated or freed.
pub data Change : Type 0 where
  activating freeing : Change

-- the state that locks the run
abbrev pub pending : Change → ℕ
pending activating = bit_or usage_run state_preactivate
pending freeing = bit_or usage_run state_prefree

-- the state once the links are recorded
abbrev pub committed : Change → ℕ
committed activating = bit_or usage_run state_activating
committed freeing = bit_or usage_run state_freeing

-- what becomes of the slot's byte in the bitmap
abbrev pub changed : Change → ℕ → ℕ → ℕ
changed activating = set_bit
changed freeing = clear_bit

abbrev pub settled : ℕ
settled = bit_or usage_run state_initialized

-- the byte of the bitmap that holds the bit of slot `idx`
abbrev pub byte_of : (h idx : ℕ) → ℕ
byte_of h idx = h + Run.bitmap + idx / 8

-- the slot that `ptr` points to, for slots of `n_bytes` behind the header at `h`
abbrev pub index_of : (h n_bytes ptr : ℕ) → ℕ
index_of h n_bytes ptr = u16 (sub64 ptr (h + header_size) / n_bytes)

-- From the bitmap byte to the state byte, and what follows.
abbrev pub mark : Change → Mem → (h idx : ℕ) → List Event
mark ch m h idx =
    fence ∷ store (byte_of h idx) (changed ch (m (byte_of h idx)) (idx % 8)) ∷ fence ∷ []

abbrev pub unlock : ℕ → List Event
unlock h = fence ∷ store (h + Run.bit_idx) no_bit ∷ (clear_on (h + Run.on) ++ persist h)

-- The replay of the links, and again the slot's bit. `bit_idx` is an `int16_t`, and a shift by a
-- negative number is undefined: `none`.
abbrev pub redo : Change → Mem → (h idx : ℕ) → List Event → Option (List Event)
redo ch m h idx replay =
    if leb (2 ^ 15) idx
    then none
    else some (replay ++ (store (byte_of h idx) (changed ch (m (byte_of h idx)) (idx % 8)) ∷ []))

module _ (start : ℕ) where
  unfoldable pub change : Change → Mem → (h idx : ℕ) → Links → List Event
  change ch m h idx l =
      store h (pending ch)
      ∷ store (h + Run.bit_idx) idx
      ∷ (commit_links start h (h + Run.on) (committed ch) l
          ++ (mark ch m h idx ++ (store h settled ∷ unlock h)))

  unfoldable pub activate : Mem → (h idx : ℕ) → Links → List Event
  unfolding change
  activate = change activating

  unfoldable pub free : Mem → (h idx : ℕ) → Links → List Event
  unfolding change
  free = change freeing

  -- The repair of a run that the log names, up to its volatile header; `none` is the failed
  -- assertion, or the shift.
  unfoldable pub recover : Mem → ℕ → Option (List Event)
  recover m h =
      let state = get_state (m h) in
      let idx = m (h + Run.bit_idx) in
      let replay = replay_links start m (h + Run.on) in
      if state == state_prefree
      then some []
      else if state == state_freeing
      then redo freeing m h idx replay
      else if state == state_preactivate
      then some []
      else if state == state_activating
      then redo activating m h idx replay
      else if state == state_initialized
      then some []
      else none

-- "reset fields either way": `run` is the new volatile header.
unfoldable pub reset : (h version run : ℕ) → List Event
reset h version run =
    clear_on (h + Run.on)
    ++ (store (h + Run.version) version
        ∷ store (h + Run.vdata) run
        ∷ store (h + Run.bit_idx) no_bit
        ∷ store h settled
        ∷ persist h)
