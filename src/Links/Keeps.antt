-- ===== src/Links/Keeps.antt =====
-- Which stores keep which phase of a transaction.
use nvm_malloc.Base.{ℕ, ◌+◌, ◌≤◌, ◌<◌, arith, sym, update-ne}
use nvm_malloc.Types.{header_size}
use nvm_malloc.Nvm.{Mem, Event, store, fence, flush}
use nvm_malloc.Nvm.Crash.{Keeps}
use nvm_malloc.Links.{Links}
use nvm_malloc.Links.Phases.{Fits, IsBodyStore, IsLinkStore, Before, Committed, Finished}

module _ (h c : ℕ) (V : ℕ → Type 0) (m₀ : Mem) where
  pub Before-Keeps : (st : ℕ) (e : Event) → IsBodyStore h c e → Keeps (Before h c V m₀ st) e
  Before-Keeps st (store a v) body m b = record {
    state = ground (arith, b.state);
    cell = rw (update-ne m a v c (λ e. body.2 (sym e))) b.cell;
    same = λ d out. ground (arith, b.same d out);
  }
  Before-Keeps st fence body m b = b
  Before-Keeps st (flush a) body m b = b

  pub Finished-Keeps :
      (start st : ℕ) (w : ℕ → ℕ) (l : Links) (e : Event)
      → Fits start h l
      → IsBodyStore h c e
      → Keeps (Finished h c V m₀ start st w l) e
  Finished-Keeps start st w l (store a v) fit body m f = record {
    state = ground (arith, f.state);
    cell = rw (update-ne m a v c (λ e. body.2 (sym e))) f.cell;
    first = ground (arith, f.first, fit.out1);
    second = λ ne. ground (arith, f.second ne, fit.out2);
    same = λ d out n1 n2. ground (arith, f.same d out n1 n2);
  }
  Finished-Keeps start st w l fence fit body m f = f
  Finished-Keeps start st w l (flush a) fit body m f = f

  pub Committed-Keeps :
      (start st : ℕ) (l : Links) (m₁ : Mem) (e : Event)
      → Fits start h l
      → (h ≤ c) × (c < h + header_size)
      → IsLinkStore l e
      → Keeps (Committed h c V m₀ st l m₁) e
  Committed-Keeps start st l m₁ (store a v) fit inside link m f = record {
    state = ground (arith, f.state, fit.out1, fit.out2);
    cell = rw (update-ne m a v c (ground (arith, fit.out1, fit.out2))) f.cell;
    body = λ d p q ne. ground (arith, f.body d p q ne, fit.out1, fit.out2);
    same = λ d out n1 n2. ground (arith, f.same d out n1 n2);
  }
  Committed-Keeps start st l m₁ fence fit inside link m f = f
  Committed-Keeps start st l m₁ (flush a) fit inside link m f = f
