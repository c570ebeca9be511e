-- ===== src/NvmMalloc/Log.antt =====
-- The log of activations as a ring: `log_activate` of src/nvm_malloc.c.
use nvm_malloc.Base.{
  ℕ, suc, ◌+◌, ◌*◌, ◌%◌, ◌^◌, ◌<◌, ◌≤◌, ◌≡◌, ◌≢◌, ◌⊎◌, refl, ◌∙◌, ap, arith, List, [], ◌∷◌, ◌++◌,
  length, update_self, update-ne,
}
use nvm_malloc.Types.{abs_to_rel}
use nvm_malloc.State.{State}
use nvm_malloc.NvmMalloc.{max_log_entries, log_activate}

-- Activations one after the other, the first of the list first.
abbrev pub log_all : List ℕ → State → State
log_all [] s = s
log_all (p ∷ ps) s = log_all ps (log_activate p s)

-- The cell of the `n`-th log entry.
abbrev pub log_slot : State → ℕ → ℕ
log_slot s n = s.log_start + 8 * (n % max_log_entries)

module _ (p : ℕ) (s : State) where
  -- What an entry leaves as it is.
  log_activate-start : (log_activate p s).log_start ≡ s.log_start
  unfolding log_activate
  log_activate-start = refl

  log_activate-region : (log_activate p s).nvm_start ≡ s.nvm_start
  unfolding log_activate
  log_activate-region = refl

  log_activate-next :
      s.next_log_entry + 1 < 2 ^ 64 → (log_activate p s).next_log_entry ≡ s.next_log_entry + 1
  unfolding log_activate
  log_activate-next lt = omega (arith, lt)

  log_activate-entry :
      (log_activate p s).mem (log_slot s s.next_log_entry) ≡ abs_to_rel s.nvm_start p
  unfolding log_activate
  log_activate-entry = update_self s.mem (log_slot s s.next_log_entry) (abs_to_rel s.nvm_start p)

  log_activate-other :
      (a : ℕ) → a ≢ log_slot s s.next_log_entry → (log_activate p s).mem a ≡ s.mem a
  unfolding log_activate
  log_activate-other a ne =
      update-ne s.mem (log_slot s s.next_log_entry) (abs_to_rel s.nvm_start p) a ne

-- Later entries change no cell but their own.
log_all-other :
    (ps : List ℕ) (s : State) (a : ℕ)
    → s.next_log_entry + length ps < 2 ^ 64
    → ((i : ℕ) → i < length ps → a ≢ log_slot s (s.next_log_entry + i))
    → (log_all ps s).mem a ≡ s.mem a
log_all-other [] s a lt apart = refl
log_all-other (p ∷ ps) s a lt apart =
    let next = log_activate-next p s (omega (arith, lt)) in
    log_all-other ps (log_activate p s) a (omega (arith, lt, next)) (λ i small e.
      apart (suc i) (omega (arith, small))
        (e ∙ rw (next, log_activate-start p s) (ap (log_slot s) (omega arith))))
    ∙ log_activate-other p s a (λ e. apart 0 (omega arith) (e ∙ ap (log_slot s) (omega arith)))

log_all-entry :
    (xs ys : List ℕ) (p : ℕ) (s : State)
    → s.next_log_entry + length (xs ++ (p ∷ ys)) < 2 ^ 64
    → length ys < max_log_entries
    → (log_all (xs ++ (p ∷ ys)) s).mem (log_slot s (s.next_log_entry + length xs))
      ≡ abs_to_rel s.nvm_start p
log_all-entry [] ys p s lt recent =
    let next = log_activate-next p s (omega (arith, lt)) in
    let here : log_slot s (s.next_log_entry + 0) ≡ log_slot s s.next_log_entry =
      ap (log_slot s) (omega arith) in
    rw here (
      log_all-other ys (log_activate p s) (log_slot s s.next_log_entry) (omega (arith, lt, next))
        (λ i small. rw (next, log_activate-start p s) (λ e. omega (arith, small, recent, e)))
      ∙ log_activate-entry p s)
log_all-entry (x ∷ xs) ys p s lt recent =
    let next = log_activate-next x s (omega (arith, lt)) in
    let there : log_slot s (s.next_log_entry + length (x ∷ xs))
        ≡ log_slot (log_activate x s) ((log_activate x s).next_log_entry + length xs) =
      rw (next, log_activate-start x s) (ap (log_slot s) (omega arith)) in
    rw there (
      log_all-entry xs ys p (log_activate x s) (omega (arith, lt, next)) recent
      ∙ ap (λ z. abs_to_rel z p) (log_activate-region x s))

-- Let fewer than 2 ^ 64 activations have been logged. After any activations the log holds each of
-- the last 127 pointers, relative to the start of NVRAM, in the entry of its number modulo 127, and
-- no cell outside the 127 entries has changed.
pub log_all_lem :
    (xs ys : List ℕ) (p : ℕ) (s : State)
    → s.next_log_entry + length (xs ++ (p ∷ ys)) < 2 ^ 64
    → length ys < max_log_entries
    → ((log_all (xs ++ (p ∷ ys)) s).mem (log_slot s (s.next_log_entry + length xs))
        ≡ abs_to_rel s.nvm_start p)
      × ((a : ℕ)
          → (a < s.log_start) ⊎ (s.log_start + 8 * max_log_entries ≤ a)
          → (log_all (xs ++ (p ∷ ys)) s).mem a ≡ s.mem a)
log_all_lem xs ys p s lt recent = (
  log_all-entry xs ys p s lt recent,
  λ a out. log_all-other (xs ++ (p ∷ ys)) s a lt (λ i small e. omega (arith, out, e)),
)
