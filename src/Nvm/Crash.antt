-- ===== src/Nvm/Crash.antt =====
-- Predicates that hold at every crash point of a list of events.
use nvm_malloc.Base.{ℕ, zero, suc, ◌≡◌, refl, List, [], ◌∷◌, ◌++◌, All}
use nvm_malloc.Nvm.{Mem, Event, apply, exec, crash}

pub exec-append : (xs ys : List Event) (m : Mem) → exec (xs ++ ys) m ≡ exec ys (exec xs m)
exec-append [] ys m = refl
exec-append (x ∷ xs) ys m = exec-append xs ys (apply x m)

module _ (P : Mem → Type 0) where
  -- `P` holds before the first event, between the events and behind the last.
  abbrev pub Always : List Event → Mem → Type 0
  Always [] m = P m
  Always (e ∷ es) m = P m × Always es (apply e m)

  pub Always-crash : (es : List Event) (m : Mem) → Always es m → (k : ℕ) → P (crash k es m)
  Always-crash [] m h zero = h
  Always-crash [] m h (suc k) = h
  Always-crash (e ∷ es) m h zero = h.0
  Always-crash (e ∷ es) m h (suc k) = Always-crash es (apply e m) h.1 k

  pub Always-exec : (es : List Event) (m : Mem) → Always es m → P (exec es m)
  Always-exec [] m h = h
  Always-exec (e ∷ es) m h = Always-exec es (apply e m) h.1

  pub Always-append :
      (xs ys : List Event) (m : Mem) → Always xs m → Always ys (exec xs m) → Always (xs ++ ys) m
  Always-append [] ys m h k = k
  Always-append (x ∷ xs) ys m h k = (h.0, Always-append xs ys (apply x m) h.1 k)

  abbrev pub Keeps : Event → Type 0
  Keeps e = (m : Mem) → P m → P (apply e m)

  pub Always-of_Keeps : (es : List Event) (m : Mem) → All Keeps es → P m → Always es m
  Always-of_Keeps [] m k p = p
  Always-of_Keeps (e ∷ es) m k p = (p, Always-of_Keeps es (apply e m) k.1 (k.0 m p))

  pub exec_of_keeps : (es : List Event) (m : Mem) → All Keeps es → P m → P (exec es m)
  exec_of_keeps [] m k p = p
  exec_of_keeps (e ∷ es) m k p = exec_of_keeps es (apply e m) k.1 (k.0 m p)

pub Always-map :
    {P Q : Mem → Type 0} (es : List Event) (m : Mem)
    → ((n : Mem) → P n → Q n)
    → Always P es m
    → Always Q es m
Always-map [] m f h = f m h
Always-map (e ∷ es) m f h = (f m h.0, Always-map es (apply e m) f h.1)
