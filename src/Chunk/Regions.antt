-- ===== src/Chunk/Regions.antt =====
-- The regions that `activate_more_chunks` hands out, and what a restart finds of them.
use nvm_malloc.Base.{
  ℕ, ◌+◌, ◌*◌, ◌/◌, ◌<◌, ◌≤◌, ◌≡◌, ◌^◌, arith, true, Option, none, some, List, [], ◌∷◌, All, u64,
  refl, subst, ◌↔◌, ◌>>=◌, >>=-eq-some, some-pair,
}
use mathlib.Core.Path.{subst₂}
use nvm_malloc.Types.{chunk_size}
use nvm_malloc.Chunk.{Os, Space, activate_more_chunks}

-- The file holds every chunk that is mapped, and no part of another but the first megabyte.
pub record IsValid (s : Space) : Type 0 where
  pub within : s.next_chunk ≤ s.max_chunks
  pub fits : s.region_start + s.max_chunks * chunk_size < 2 ^ 64
  pub chunks : s.file_size / chunk_size ≡ s.next_chunk
  pub not_empty : 0 < s.file_size

module _ (os : Os) where
  -- A request of less than 2^32 chunks that is granted in a valid space leaves a valid space: its
  -- region starts at the first free chunk and ends where the next one will start, and the reserved
  -- range stays the same.
  activate_more_chunks-IsValid :
      (n : ℕ) (s : Space) (p : ℕ) (t : Space)
      → IsValid s
      → n < 2 ^ 32
      → activate_more_chunks os n s ≡ some (p, t)
      → IsValid t
        × (p ≡ s.region_start + s.next_chunk * chunk_size)
        × (t.region_start + t.next_chunk * chunk_size ≡ p + n * chunk_size)
        × (t.region_start ≡ s.region_start)
        × (t.max_chunks ≡ s.max_chunks)
  unfolding activate_more_chunks
  activate_more_chunks-IsValid n s p t v small e = ground (arith, v.within, v.fits, v.chunks)

  -- In a valid space, and with a system that grants everything, the process ends on a request of
  -- less than 2^32 chunks exactly if it goes beyond the limit.
  activate_more_chunks-exits :
      (n : ℕ) (s : Space)
      → IsValid s
      → n < 2 ^ 32
      → ((offset len : ℕ) → os.fallocate offset len ≡ true)
      → ((offset len : ℕ) → os.map offset len ≡ true)
      → (activate_more_chunks os n s ≡ none) ↔ (s.max_chunks < s.next_chunk + n)
  unfolding activate_more_chunks
  activate_more_chunks-exits n s v small file map = (
    λ e. ground (
      arith,
      e,
      v.fits,
      file (u64 (s.next_chunk * chunk_size)) (u64 (n * chunk_size)),
      map (u64 (s.next_chunk * chunk_size)) (u64 (n * chunk_size)),
    ),
    λ lt. ground (arith, v.fits),
  )

  -- The requests of a program in order, and the regions that they get, each with its length.
  unfoldable pub activations : List ℕ → Space → Option (List (ℕ × ℕ) × Space)
  activations [] s = some ([], s)
  activations (n ∷ ns) s = do
    (p, t) ← activate_more_chunks os n s
    (rs, u) ← activations ns t
    some ((p, n * chunk_size) ∷ rs, u)

  -- The regions follow one another from `a` to `b`, with neither gap nor overlap.
  abbrev pub Tiles : ℕ → List (ℕ × ℕ) → ℕ → Type 0
  Tiles a [] b = a ≡ b
  Tiles a ((p, len) ∷ rs) b = (p ≡ a) × Tiles (p + len) rs b

  abbrev pub Granted : Space → List (ℕ × ℕ) → Space → Type 0
  Granted s rs t =
      Tiles (s.region_start + s.next_chunk * chunk_size) rs
        (s.region_start + t.next_chunk * chunk_size)
      × (t.next_chunk ≤ s.max_chunks)
      × (t.file_size / chunk_size ≡ t.next_chunk)

  Granted-cons :
      (n : ℕ) (s : Space) (p : ℕ) (u : Space) (qs : List (ℕ × ℕ)) (w : Space)
      → (p ≡ s.region_start + s.next_chunk * chunk_size)
      → (u.region_start + u.next_chunk * chunk_size ≡ p + n * chunk_size)
      → (u.region_start ≡ s.region_start)
      → (u.max_chunks ≡ s.max_chunks)
      → Granted u qs w
      → Granted s ((p, n * chunk_size) ∷ qs) w
  Granted-cons n s p u qs w start stop same_start same_max (tiles, within, chunks) = (
    (
      start,
      subst (λ x. Tiles (p + n * chunk_size) qs (x + w.next_chunk * chunk_size)) same_start
          (subst (λ x. Tiles x qs (u.region_start + w.next_chunk * chunk_size)) stop tiles),
    ),
    omega arith,
    chunks,
  )

  -- Any requests, each of less than 2^32 chunks, that are granted one after the other from a valid
  -- space get regions that tile the space from the first free chunk on and stay below the reserved
  -- limit; and the file's size in whole chunks is the number of chunks handed out.
  pub activations-Granted :
      (ns : List ℕ) (s : Space) (rs : List (ℕ × ℕ)) (t : Space)
      → IsValid s
      → All (λ n. n < 2 ^ 32) ns
      → activations ns s ≡ some (rs, t)
      → Granted s rs t
  unfolding activations
  activations-Granted [] s rs t v small e =
      let (list, last) = some-pair e in rw (← list, ← last) (refl, v.within, v.chunks)
  activations-Granted (n ∷ ns) s rs t v small e =
      let ((p, u), first, e₁) = >>=-eq-some (activate_more_chunks os n s) _ e in
      let ((qs, w), rest, e₂) = >>=-eq-some (activations ns u) _ e₁ in
      let (list, last) = some-pair e₂ in
      let (vu, start, stop, same_start, same_max) =
        activate_more_chunks-IsValid n s p u v small.0 first in
      subst₂ (Granted s) list last (
        Granted-cons n s p u qs w start stop same_start same_max
          (activations-Granted ns u qs w vu small.1 rest))
