-- ===== src/Nvm.antt =====
-- NVRAM as the code writes it: stores, and the fences and flushes of src/util.h between them.
--
-- An operation is modelled as the list of its events, in program order. A crash keeps the stores
-- of a prefix of that list: all fields of a header stand in one cache line, and the code puts a
-- fence between the steps whose order matters. Fences and flushes change no cell; they are
-- recorded because the code issues them.
pub mod Crash
pub mod Bytes
use Prim.Native.Char.{code}
use Prim.Native.String.{String}
use nvm_malloc.Base.{ℕ, zero, suc, ◌+◌, List, [], ◌∷◌, update, ltb, leb, ◌&&◌, if◌then◌else◌}

abbrev pub Mem : Type 0
Mem = ℕ → ℕ

pub data Event : Type 0 where
  store : (address value : ℕ) → Event
  fence : Event
  flush : (address : ℕ) → Event

-- `PERSIST(ptr)`
abbrev pub persist : ℕ → List Event
persist p = fence ∷ flush p ∷ fence ∷ []

-- `memset(nvm->on, 0, 2*sizeof(nvm_ptrset_t))`, for the `on` at `a`
abbrev pub clear_on : ℕ → List Event
clear_on a = store a 0 ∷ store (a + 8) 0 ∷ store (a + 16) 0 ∷ store (a + 24) 0 ∷ []

abbrev pub apply : Event → Mem → Mem
apply (store a v) m = update m a v
apply fence m = m
apply (flush a) m = m

abbrev pub exec : List Event → Mem → Mem
exec [] m = m
exec (e ∷ es) m = exec es (apply e m)

-- Memory after a crash behind the first `k` events.
abbrev pub crash : ℕ → List Event → Mem → Mem
crash zero es m = m
crash (suc k) [] m = m
crash (suc k) (e ∷ es) m = crash k es (apply e m)

-- `memset(a, 0, len)` over all cells in range
abbrev pub memset_zero : (a len : ℕ) → Mem → Mem
memset_zero a len m b = if leb a b && ltb b (a + len) then 0 else m b

-- A copy of bytes to the cells from `a` on.
abbrev pub write_bytes : ℕ → List ℕ → Mem → Mem
write_bytes a [] m = m
write_bytes a (c ∷ cs) m = write_bytes (a + 1) cs (update m a c)

codes : String → List ℕ
codes String.[] = []
codes (String.◌∷◌ c s) = code c ∷ codes s

-- `NVM_CHUNK_SIGNATURE`
pub signature : List ℕ
unfolding codes
signature = codes "***NVM_MALLOC_CHUNK_HEADER_SIGNATURE__/o/__***"
