-- ===== src/Nvm/Bytes.antt =====
-- The copy of the chunk's signature, `strncpy` in src/nvm_malloc.c and src/arena.c.
use nvm_malloc.Base.{
  ℕ, ◌+◌, ◌≤◌, ◌<◌, ◌≡◌, ◌⊎◌, refl, ◌∙◌, arith, List, [], ◌∷◌, update, update-ne, length,
}
use nvm_malloc.Nvm.{Mem, write_bytes, signature}

-- Cells outside the copied bytes keep their values.
pub write_bytes-other :
    (a : ℕ) (cs : List ℕ) (m : Mem) (b : ℕ)
    → (b < a) ⊎ (a + length cs ≤ b)
    → write_bytes a cs m b ≡ m b
write_bytes-other a [] m b out = refl
write_bytes-other a (c ∷ cs) m b out =
    write_bytes-other (a + 1) cs (update m a c) b (ground (arith, out))
    ∙ update-ne m a c b (λ e. ground (arith, out, e))

pub length-signature : length signature ≤ 47
unfolding signature
length-signature = omega arith
