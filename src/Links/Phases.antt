-- ===== src/Links/Phases.antt =====
-- What a header and its link cells hold while a transaction with links runs: before the commit,
-- between the commit and the last step, and after it.
use nvm_malloc.Base.{ℕ, ◌+◌, ◌^◌, ◌≤◌, ◌<◌, ◌≡◌, ◌≢◌, ◌⊎◌, ◌==◌, if◌then◌else◌}
use nvm_malloc.Types.{header_size, abs_to_rel, abs_to_rel_with_null}
use nvm_malloc.Nvm.{Mem, Event, store, fence, flush}
use nvm_malloc.Links.{Links}

-- `a` is no cell of the header at `h`.
abbrev pub Outside : ℕ → ℕ → Type 0
Outside h a = (a < h) ⊎ (h + header_size ≤ a)

-- The links lie in NVRAM behind its first byte, apart from the header and from each other.
pub record Fits (start h : ℕ) (l : Links) : Type 0 where
  pub first : (start < l.link1) × (l.link1 < 2 ^ 64)
  pub out1 : Outside h l.link1
  pub second : (l.link2 ≡ 0) ⊎ ((start < l.link2) × (l.link2 < 2 ^ 64))
  pub out2 : Outside h l.link2
  pub apart : l.link1 ≢ l.link2

-- A store into the header at `h`, behind the state byte and apart from the cell `c`; or no store.
abbrev pub IsBodyStore : ℕ → ℕ → Event → Type 0
IsBodyStore h c (store a v) = (h < a) × (a < h + header_size) × (a ≢ c)
IsBodyStore h c fence = Unit
IsBodyStore h c (flush a) = Unit

-- A store through one of the links, or none at all.
abbrev pub IsLinkStore : Links → Event → Type 0
IsLinkStore l (store a v) = (a ≡ l.link1) ⊎ ((a ≡ l.link2) × (l.link2 ≢ 0))
IsLinkStore l fence = Unit
IsLinkStore l (flush a) = Unit

-- In the phases, `h` is the header, `m₀` memory before the transaction, and `c` a cell of the
-- header of which `V` is known: the byte of the bitmap in a run. Other headers take `c = h`.
module _ (h : ℕ) (c : ℕ) (V : ℕ → Type 0) (m₀ : Mem) where
  -- Not committed: the state byte is `st`, and nothing outside the header has changed.
  pub record Before (st : ℕ) (m : Mem) : Type 0 where
    pub state : m h ≡ st
    pub cell : V (m c)
    pub same : (a : ℕ) → Outside h a → m a ≡ m₀ a

  -- Committed: the header holds what `m₁` recorded, and at most the links have changed outside.
  pub record Committed (st : ℕ) (l : Links) (m₁ m : Mem) : Type 0 where
    pub state : m h ≡ st
    pub cell : V (m c)
    pub body : (a : ℕ) → h < a → a < h + header_size → a ≢ c → m a ≡ m₁ a
    pub same : (a : ℕ) → Outside h a → a ≢ l.link1 → a ≢ l.link2 → m a ≡ m₀ a

  -- Finished: the links hold their targets, each as `w` writes it.
  pub record Finished (start st : ℕ) (w : ℕ → ℕ) (l : Links) (m : Mem) : Type 0 where
    pub state : m h ≡ st
    pub cell : V (m c)
    pub first : m l.link1 ≡ w (abs_to_rel_with_null start l.target1)
    pub second : l.link2 ≢ 0 → m l.link2 ≡ w (abs_to_rel_with_null start l.target2)
    pub same : (a : ℕ) → Outside h a → a ≢ l.link1 → a ≢ l.link2 → m a ≡ m₀ a

-- What `record_links` leaves in `on`, if `on[1]` was clear before.
pub record Recorded (start on : ℕ) (l : Links) (m : Mem) : Type 0 where
  pub ptr1 : m on ≡ abs_to_rel start l.link1
  pub value1 : m (on + 8) ≡ abs_to_rel_with_null start l.target1
  pub ptr2 : m (on + 16) ≡ (if l.link2 == 0 then 0 else abs_to_rel start l.link2)
  pub value2 : l.link2 ≢ 0 → m (on + 24) ≡ abs_to_rel_with_null start l.target2
