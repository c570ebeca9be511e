-- ===== src/Locks/Guards.antt =====
-- What the parts of src/arena.c, src/chunk.c and src/nvm_malloc.c change, by the mutex that guards
-- it.
use nvm_malloc.Base.{
  ℕ, ◌≡◌, inl, inr, refl, sym, subst, ◌∙◌, ap, arith, false, Option, some, some-pair, List, ◌∷◌,
  Bool-cases, update-cases,
}
use nvm_malloc.Tree.{Tree}
use nvm_malloc.Chunk.{Space}
use nvm_malloc.State.{Huge, ArenaBlock, Bin, Arena, State, set_arena, set_bin}
use nvm_malloc.Locks.{Mutex, run_state, bin_mtx, arena_mtx, huge_mtx, space_mtx, same}
use nvm_malloc.Locks.Discipline.{IsKept, IsGuarded}

-- Nothing that a mutex guards is changed.
abbrev pub IsQuiet : State → State → Type 0
IsQuiet s t = (m : Mutex) → IsKept m s t

pub fields-IsQuiet :
    (s t : State)
    → t.arenas ≡ s.arenas
    → t.free_chunks ≡ s.free_chunks
    → t.space ≡ s.space
    → IsQuiet s t
fields-IsQuiet s t e f g (run_state h) = tt
fields-IsQuiet s t e f g (bin_mtx a i) = ap (λ (k : ℕ → Arena). (k a).bins i) e
fields-IsQuiet s t e f g (arena_mtx a) = ap (λ (k : ℕ → Arena). (k a).free_pageruns) e
fields-IsQuiet s t e f g huge_mtx = f
fields-IsQuiet s t e f g space_mtx = g

pub IsKept-trans : (m : Mutex) (s t u : State) → IsKept m s t → IsKept m t u → IsKept m s u
IsKept-trans (run_state h) s t u p q = tt
IsKept-trans (bin_mtx a i) s t u p q = q ∙ p
IsKept-trans (arena_mtx a) s t u p q = q ∙ p
IsKept-trans huge_mtx s t u p q = q ∙ p
IsKept-trans space_mtx s t u p q = q ∙ p

-- Only what mutex `k` guards is changed.
abbrev pub IsOnly : Mutex → State → State → Type 0
IsOnly k s t = (m : Mutex) → same m k ≡ false → IsKept m s t

pub set_tree-IsOnly :
    (a : ℕ) (r : Tree ArenaBlock) (s : State)
    → IsOnly (arena_mtx a) s (set_arena a (record (s.arenas a) { free_pageruns = r }) s)
set_tree-IsOnly a r s (run_state h) e = tt
set_tree-IsOnly a r s (bin_mtx b i) e =
    update-cases (λ (x : Arena). x.bins i ≡ (s.arenas b).bins i) s.arenas a _ b
      (λ z. ap (λ k. (s.arenas k).bins i) (sym z)) (λ _. refl)
set_tree-IsOnly a r s (arena_mtx b) e =
    update-cases (λ (x : Arena). x.free_pageruns ≡ (s.arenas b).free_pageruns) s.arenas a _ b
      (λ z. ground (arith, z, e)) (λ _. refl)
set_tree-IsOnly a r s huge_mtx e = refl
set_tree-IsOnly a r s space_mtx e = refl

pub set_bin-IsOnly : (a i : ℕ) (b : Bin) (s : State) → IsOnly (bin_mtx a i) s (set_bin a i b s)
set_bin-IsOnly a i b s (run_state h) e = tt
set_bin-IsOnly a i b s (bin_mtx c j) e =
    update-cases (λ (x : Arena). x.bins j ≡ (s.arenas c).bins j) s.arenas a _ c
      (λ z.
        update-cases (λ x. x ≡ (s.arenas c).bins j) (s.arenas a).bins i b j
          (λ w. ground (arith, z, w, e)) (λ _. ap (λ k. (s.arenas k).bins j) (sym z)))
      (λ _. refl)
set_bin-IsOnly a i b s (arena_mtx c) e =
    update-cases (λ (x : Arena). x.free_pageruns ≡ (s.arenas c).free_pageruns) s.arenas a _ c
      (λ z. ap (λ k. (s.arenas k).free_pageruns) (sym z)) (λ _. refl)
set_bin-IsOnly a i b s huge_mtx e = refl
set_bin-IsOnly a i b s space_mtx e = refl

pub set_space-IsOnly : (p : Space) (s : State) → IsOnly space_mtx s (record s { space = p })
set_space-IsOnly p s (run_state h) e = tt
set_space-IsOnly p s (bin_mtx a i) e = refl
set_space-IsOnly p s (arena_mtx a) e = refl
set_space-IsOnly p s huge_mtx e = refl
set_space-IsOnly p s space_mtx e = cc

pub set_huges-IsOnly :
    (r : Tree Huge) (s : State) → IsOnly huge_mtx s (record s { free_chunks = r })
set_huges-IsOnly r s (run_state h) e = tt
set_huges-IsOnly r s (bin_mtx a i) e = refl
set_huges-IsOnly r s (arena_mtx a) e = refl
set_huges-IsOnly r s huge_mtx e = cc
set_huges-IsOnly r s space_mtx e = refl

-- The guards of a part of the code, from what it changes.
pub IsQuiet-IsGuarded :
    {B : Type 0} (held : List Mutex) (f : State → B × State)
    → ((s : State) → IsQuiet s (f s).1)
    → IsGuarded held (λ s. some (f s))
IsQuiet-IsGuarded held f q s t b e m h = subst (IsKept m s) (some-pair e).1 (q s m)

pub only-IsGuarded :
    {B : Type 0} (k : Mutex) (held : List Mutex) (f : State → Option (B × State))
    → ((s t : State) (b : B) → f s ≡ some (b, t) → IsOnly k s t)
    → IsGuarded (k ∷ held) f
only-IsGuarded k held f q s t b e m h =
    q s t b e m (elim (Bool-cases (same m k)) [ inl z ↦ ground (arith, z, h) | inr z ↦ z ])

pub IsOnly-IsGuarded :
    {B : Type 0} (k : Mutex) (held : List Mutex) (f : State → B × State)
    → ((s : State) → IsOnly k s (f s).1)
    → IsGuarded (k ∷ held) (λ s. some (f s))
IsOnly-IsGuarded k held f q =
    only-IsGuarded k held (λ s. some (f s))
      (λ s t b e m h. subst (IsKept m s) (some-pair e).1 (q s m h))
