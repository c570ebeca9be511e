-- ===== src/Locks/Discipline.antt =====
-- The order in which src/arena.c, src/chunk.c and src/nvm_malloc.c take their mutexes, and what
-- each of the mutexes guards.
use nvm_malloc.Base.{
  ℕ, ◌<◌, ◌≡◌, refl, sym, subst, Bool, true, false, ◌||◌, Option, some, List, [], ◌∷◌,
  if◌then◌else◌,
}
use nvm_malloc.State.{State}
use nvm_malloc.Locks.{
  Mutex, run_state, bin_mtx, arena_mtx, huge_mtx, space_mtx, same, Program, done, lock, unlock,
  access, ◌>>=◌,
}

-- A mutex is only locked below those that are held.
abbrev pub rank : Mutex → ℕ
rank (run_state h) = 0
rank (bin_mtx a i) = 1
rank (arena_mtx a) = 2
rank huge_mtx = 3
rank space_mtx = 3

abbrev pub has : List Mutex → Mutex → Bool
has [] m = false
has (k ∷ held) m = same m k || has held m

-- All of the mutexes have a rank less than `r`.
abbrev pub IsBelow : List Mutex → ℕ → Type 0
IsBelow [] r = Unit
IsBelow (k ∷ held) r = (rank k < r) × IsBelow held r

-- The first was locked last.
abbrev pub IsDescending : List Mutex → Type 0
IsDescending [] = Unit
IsDescending (k ∷ held) = IsBelow held (rank k) × IsDescending held

-- What a mutex guards is the same in two states.
abbrev pub IsKept : Mutex → State → State → Type 0
IsKept (run_state h) s t = Unit
IsKept (bin_mtx a i) s t = (t.arenas a).bins i ≡ (s.arenas a).bins i
IsKept (arena_mtx a) s t = (t.arenas a).free_pageruns ≡ (s.arenas a).free_pageruns
IsKept huge_mtx s t = t.free_chunks ≡ s.free_chunks
IsKept space_mtx s t = t.space ≡ s.space

-- A part of the code changes only what the held mutexes guard.
abbrev pub IsGuarded : {B : Type 0} → List Mutex → (State → Option (B × State)) → Type 0
IsGuarded {B = B} held f =
    (s t : State) (b : B) → f s ≡ some (b, t) → (m : Mutex) → has held m ≡ false → IsKept m s t

-- The program, started with the mutexes of `held`, follows the order, changes only what it has
-- locked, unlocks what it locked last, and ends with the mutexes of `after`.
abbrev pub IsDisciplined : {A : Type 0} → List Mutex → Program A → List Mutex → Type 0
IsDisciplined held (done a) after = held ≡ after
IsDisciplined held (lock m p) after = IsBelow held (rank m) × IsDisciplined (m ∷ held) p after
IsDisciplined held (unlock m p) after =
    (rest : List Mutex) × (held ≡ m ∷ rest) × IsDisciplined rest p after
IsDisciplined held (access {B = B} f k) after =
    IsGuarded held f × ((b : B) → IsDisciplined held (k b) after)

pub >>=-IsDisciplined :
    {A B : Type 0} (held between after : List Mutex) (p : Program A) (g : A → Program B)
    → IsDisciplined held p between
    → ((a : A) → IsDisciplined between (g a) after)
    → IsDisciplined held (p >>= g) after
>>=-IsDisciplined held between after (done a) g e h =
    subst (λ l. IsDisciplined l (g a) after) (sym e) (h a)
>>=-IsDisciplined held between after (lock m p) g d h =
    (d.0, >>=-IsDisciplined (m ∷ held) between after p g d.1 h)
>>=-IsDisciplined held between after (unlock m p) g (rest, e, d) h =
    (rest, e, >>=-IsDisciplined rest between after p g d h)
>>=-IsDisciplined held between after (access f k) g d h =
    (d.0, λ b. >>=-IsDisciplined held between after (k b) g (d.1 b) h)

pub if-IsDisciplined :
    {A : Type 0} (held after : List Mutex) (t : Bool) (p q : Program A)
    → (t ≡ true → IsDisciplined held p after)
    → (t ≡ false → IsDisciplined held q after)
    → IsDisciplined held (if t then p else q) after
if-IsDisciplined held after true p q d e = d refl
if-IsDisciplined held after false p q d e = e refl
