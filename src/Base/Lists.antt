-- ===== src/Base/Lists.antt =====
-- Lists with native indices, and predicates on lists that compute.
use Prim.Native.Nat.{ℕ, suc, ◌+◌}
use mathlib.Core.Path.{◌≡◌}
use mathlib.Core.Logic.{◌≢◌, inl, inr}
use mathlib.Core.List.{List, [], ◌∷◌, ◌++◌}
use native.Mathlib.Omega.{arith}
use nvm_malloc.Base.Words.{◌==◌, if◌then◌else◌, Bool-cases, ==→eq}

module _ {ℓ} {A : Type ℓ} where
  abbrev pub length : List A → ℕ
  length [] = 0
  length (x ∷ xs) = suc (length xs)

  length-append : (xs ys : List A) → length (xs ++ ys) ≡ length xs + length ys
  length-append [] ys = omega arith
  length-append (x ∷ xs) ys = omega (arith, length-append xs ys)

abbrev pub All {ℓ κ} : {A : Type ℓ} → (A → Type κ) → List A → Type κ
All P [] = Unit
All P (x ∷ xs) = P x × All P xs

pub All-map {ℓ κ κ'} :
    {A : Type ℓ} {P : A → Type κ} {Q : A → Type κ'} (xs : List A)
    → ((x : A) → P x → Q x)
    → All P xs
    → All Q xs
All-map [] f h = tt
All-map (x ∷ xs) f h = (f x h.0, All-map xs f h.1)

pub All-append {ℓ κ} :
    {A : Type ℓ} (P : A → Type κ) (xs ys : List A) → All P xs → All P ys → All P (xs ++ ys)
All-append P [] ys h k = k
All-append P (x ∷ xs) ys h k = (h.0, All-append P xs ys h.1 k)

-- A map as a function, changed at one key.
abbrev pub update {ℓ} : {A : Type ℓ} → (ℕ → A) → ℕ → A → ℕ → A
update f k v j = if j == k then v else f j

pub update-ne {ℓ} : {A : Type ℓ} (f : ℕ → A) (k : ℕ) (v : A) (j : ℕ) → j ≢ k → update f k v j ≡ f j
update-ne f k v j ne = ground arith

pub update_self {ℓ} : {A : Type ℓ} (f : ℕ → A) (k : ℕ) (v : A) → update f k v k ≡ v
update_self f k v = ground arith

pub update-cases {ℓ κ} :
    {A : Type ℓ} (P : A → Type κ) (f : ℕ → A) (k : ℕ) (v : A) (j : ℕ)
    → (j ≡ k → P v)
    → (j ≢ k → P (f j))
    → P (update f k v j)
update-cases P f k v j p q = elim (Bool-cases (j == k)) [
  | inl e ↦ rw e (p (==→eq j k e))
  | inr e ↦ rw e (q (λ z. ground arith))
]
