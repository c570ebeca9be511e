-- ===== src/Util/Lines.antt =====
-- The cache lines that `clflush_range` of src/util.c flushes.
use native.Mathlib.Decide.{dec_lt}
use nvm_malloc.Base.{
  ℕ, zero, suc, ◌+◌, ◌-◌, ◌*◌, ◌/◌, ◌%◌, ◌^◌, u64, ◌≤◌, ◌<◌, ◌≡◌, ◌⊎◌, inl, inr, arith, List, [],
  ◌∷◌, some, All, ltb, ltb→lt, ltb→le, Bool-cases,
}
use nvm_malloc.Types.{cache_line_size}
use nvm_malloc.Util.{flush_from, clflush_range}

-- Some line of the list holds the byte `b`.
abbrev pub Covers : List ℕ → ℕ → Type 0
Covers [] b = ⊥
Covers (l ∷ ls) b = ((l ≤ b) × (b < l + cache_line_size)) ⊎ Covers ls b

-- A line is aligned, and reaches into the range from `lo` to `hi`.
abbrev pub IsLineOf : ℕ → ℕ → ℕ → Type 0
IsLineOf lo hi l = (l % cache_line_size ≡ 0) × (lo < l + cache_line_size) × (l < hi)

record Flushed (lo start stop : ℕ) (ls : List ℕ) : Type 0 where
  cover : (b : ℕ) → start ≤ b → b < stop → Covers ls b
  only : All (IsLineOf lo stop) ls

Covers-cons :
    (start stop : ℕ) (ls : List ℕ)
    → ((b : ℕ) → start + cache_line_size ≤ b → b < stop → Covers ls b)
    → (b : ℕ) → start ≤ b
    → b < stop
    → Covers (start ∷ ls) b
Covers-cons start stop ls rest b p q = elim (dec_lt b (start + cache_line_size)) [
  | yes near ↦ inl (p, near)
  | no far ↦ inr (rest b (omega arith) q)
]

flush_from-suc :
    (fuel start stop : ℕ) {next : ℕ} {ls : List ℕ}
    → start < stop
    → u64 (start + cache_line_size) ≡ next
    → flush_from fuel next stop ≡ some ls
    → flush_from (suc fuel) start stop ≡ some (start ∷ ls)
unfolding flush_from
flush_from-suc fuel start stop h step e = rw (step, e) (ground arith)

flush_from-Flushed :
    (fuel lo start stop : ℕ)
    → start % cache_line_size ≡ 0
    → lo < start + cache_line_size
    → 0 < fuel
    → stop + cache_line_size ≤ start + fuel * cache_line_size
    → stop + cache_line_size < 2 ^ 64
    → (ls : List ℕ) × (flush_from fuel start stop ≡ some ls) × Flushed lo start stop ls
unfolding flush_from
flush_from-Flushed zero lo start stop al near pos enough fits = absurd (omega arith)
flush_from-Flushed (suc fuel) lo start stop al near pos enough fits =
    elim (Bool-cases (ltb start stop)) [
      | inl more ↦
          let h : start < stop = ltb→lt start stop more in
          let step : u64 (start + cache_line_size) ≡ start + cache_line_size = omega arith in
          let (ls, e, f) =
            flush_from-Flushed fuel lo (start + cache_line_size) stop (omega arith) (omega arith)
              (omega arith) (omega arith) fits in
          (
            start ∷ ls,
            flush_from-suc fuel start stop h step e,
            record { cover = Covers-cons start stop ls f.cover; only = ((al, near, h), f.only) },
          )
      | inr done ↦ (
        [],
        rw done,
        record { cover = λ b p q. omega (arith, ltb→le start stop done); only = tt },
      )
    ]

clflush_range-some :
    (ptr len stop : ℕ) {ls : List ℕ}
    → u64 (ptr + len) ≡ stop
    → flush_from (len / cache_line_size + 3) (ptr - ptr % cache_line_size) stop ≡ some ls
    → clflush_range ptr len ≡ some ls
unfolding clflush_range
clflush_range-some ptr len stop step e = rw step e

-- If the line after the range is within the address space, `clflush_range` ends; the lines that it
-- flushes are aligned, each reaches into the range from `ptr` to `ptr + len`, and together they
-- hold every byte of it.
clflush_range_lem :
    (ptr len : ℕ)
    → ptr + len + cache_line_size < 2 ^ 64
    → (ls : List ℕ) × (clflush_range ptr len ≡ some ls)
      × All (IsLineOf ptr (ptr + len)) ls
      × ((b : ℕ) → ptr ≤ b → b < ptr + len → Covers ls b)
clflush_range_lem ptr len fits =
    let (ls, e, f) =
      flush_from-Flushed (len / cache_line_size + 3) ptr (ptr - ptr % cache_line_size) (ptr + len)
        (omega arith) (omega arith) (omega arith) (omega arith) fits in
    (
      ls,
      clflush_range-some ptr len (ptr + len) (omega arith) e,
      f.only,
      λ b p q. f.cover b (omega arith) q,
    )
