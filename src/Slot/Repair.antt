-- ===== src/Slot/Repair.antt =====
-- What recovery makes of a run in each phase of a change to one of its slots.
use nvm_malloc.Base.{
  ℕ, ◌+◌, ◌%◌, ◌^◌, leb, false, ◌≡◌, arith, some, List, [], ◌∷◌, ◌++◌, All, ◌<◌, ◌≤◌, sym, subst,
  All-map, update, update_self, update-ne, ◌∙◌,
}
use nvm_malloc.Types.{no_bit}
use nvm_malloc.Types.Run
use nvm_malloc.Nvm.{Mem, Event, store, exec, clear_on}
use nvm_malloc.Nvm.Crash.{exec_of_keeps}
use nvm_malloc.Links.{Links, replay_links}
use nvm_malloc.Links.Phases.{Fits, IsBodyStore, Before, Finished}
use nvm_malloc.Links.Keeps.{Before-Keeps, Finished-Keeps}
use nvm_malloc.Slot.{
  Change, activating, freeing, pending, committed, changed, settled, byte_of, recover, reset,
}

-- The stores of `reset` behind the state byte.
abbrev reset_body : (h version run : ℕ) → List Event
reset_body h version run =
    clear_on (h + Run.on)
    ++ (store (h + Run.version) version
        ∷ store (h + Run.vdata) run
        ∷ store (h + Run.bit_idx) no_bit
        ∷ [])

-- `c` is a byte of the bitmap of the header at `h`.
abbrev pub IsBitmapByte : ℕ → ℕ → Type 0
IsBitmapByte h c = (h + Run.bitmap ≤ c) × (c < h + Run.bitmap + 8)

module _ (h c : ℕ) (bitmap : IsBitmapByte h c) (version run : ℕ) (V : ℕ → Type 0) (m₀ : Mem) where
  body : All (IsBodyStore h c) (reset_body h version run)
  body = omega arith

  pub reset-Before :
      (st : ℕ) (m : Mem)
      → Before h c V m₀ st m
      → Before h c V m₀ settled (exec (reset h version run) m)
  unfolding reset
  reset-Before st m b = record {
    state = update_self cleared h settled;
    cell = subst V (sym (update-ne cleared h settled c (omega arith))) after.cell;
    same = λ a out. update-ne cleared h settled a (ground arith) ∙ after.same a out;
  }
    where
      cleared : Mem
      cleared = exec (reset_body h version run) m

      after : Before h c V m₀ st cleared
      after =
          exec_of_keeps (Before h c V m₀ st) (reset_body h version run) m
            (All-map (reset_body h version run) (Before-Keeps h c V m₀ st) body) b

  pub reset-Finished :
      (start st : ℕ) (w : ℕ → ℕ) (l : Links) (fit : Fits start h l) (m : Mem)
      → Finished h c V m₀ start st w l m
      → Finished h c V m₀ start settled w l (exec (reset h version run) m)
  unfolding reset
  reset-Finished start st w l fit m f = record {
    state = update_self cleared h settled;
    cell = subst V (sym (update-ne cleared h settled c (omega arith))) after.cell;
    first = update-ne cleared h settled l.link1 (ground (arith, fit.out1)) ∙ after.first;
    second = λ ne. update-ne cleared h settled l.link2 (ground (arith, fit.out2)) ∙ after.second ne;
    same = λ a out n1 n2. update-ne cleared h settled a (ground arith) ∙ after.same a out n1 n2;
  }
    where
      cleared : Mem
      cleared = exec (reset_body h version run) m

      after : Finished h c V m₀ start st w l cleared
      after =
          exec_of_keeps (Finished h c V m₀ start st w l) (reset_body h version run) m
            (All-map (reset_body h version run) (λ e. Finished-Keeps h c V m₀ start st w l e fit)
              body)
            f

-- The store into the bitmap settles what is known of the byte.
pub mark-Finished :
    (h c : ℕ) (V V' : ℕ → Type 0) (m₀ : Mem) (start st : ℕ) (w : ℕ → ℕ) (l : Links) (m : Mem)
    (v : ℕ)
    → IsBitmapByte h c
    → Fits start h l
    → V' v
    → Finished h c V m₀ start st w l m
    → Finished h c V' m₀ start st w l (update m c v)
mark-Finished h c V V' m₀ start st w l m v bitmap fit known f = record {
  state = update-ne m c v h (omega arith) ∙ f.state;
  cell = subst V' (sym (update_self m c v)) known;
  first = update-ne m c v l.link1 (ground (arith, fit.out1)) ∙ f.first;
  second = λ ne. update-ne m c v l.link2 (ground (arith, fit.out2)) ∙ f.second ne;
  same = λ a out n1 n2. update-ne m c v a (ground arith) ∙ f.same a out n1 n2;
}

module _ (start h : ℕ) (m : Mem) where
  pub recover-settled : m h ≡ settled → recover start m h ≡ some []
  unfolding recover
  recover-settled e = rw e

  pub recover-pending : (ch : Change) → m h ≡ pending ch → recover start m h ≡ some []
  unfolding recover
  recover-pending activating e = rw e
  recover-pending freeing e = rw e

  pub recover-committed :
      (ch : Change) (idx : ℕ)
      → m h ≡ committed ch
      → m (h + Run.bit_idx) ≡ idx
      → leb (2 ^ 15) idx ≡ false
      → recover start m h
        ≡ some (
            replay_links start m (h + Run.on)
            ++ (store (byte_of h idx) (changed ch (m (byte_of h idx)) (idx % 8)) ∷ []))
  unfolding recover
  recover-committed activating idx e f small = rw (e, f, small)
  recover-committed freeing idx e f small = rw (e, f, small)
