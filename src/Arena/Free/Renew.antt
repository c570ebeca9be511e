-- ===== src/Arena/Free/Renew.antt =====
-- The volatile headers of runs and blocks of an earlier start: `arena_create_run_header`, the check
-- that calls it, and `arena_create_block_header` of src/arena.c.
use nvm_malloc.Base.{
  ℕ, ◌+◌, ◌≤◌, ◌<◌, ◌^◌, u16, ◌≡◌, ◌≢◌, refl, arith, some, false, Bool-cases, inl, inr, ltb, ◌∙◌,
  ap, u32, none, Bool, if◌then◌else◌, update, update-ne,
}
use nvm_malloc.Types.Run
use nvm_malloc.Types.Block
use nvm_malloc.State.{State, set_mem}
use nvm_malloc.Arena.Free.{arena_create_block_header, arena_create_run_header, renew_run}

-- What a renewal leaves as it is: all but the run's version and its pointer to the volatile header.
pub record IsRenewed (h : ℕ) (s t : State) : Type 0 where
  pub arenas : t.arenas ≡ s.arenas
  pub free_chunks : t.free_chunks ≡ s.free_chunks
  pub nvm_start : t.nvm_start ≡ s.nvm_start
  pub kept : (a : ℕ) → a ≢ h + Run.vdata → a ≢ h + Run.version → t.mem a ≡ s.mem a

if-false {ℓ} : {A : Type ℓ} (b : Bool) (x y : A) → b ≡ false → (if b then x else y) ≡ y
if-false b x y e = rw e

-- A header that can be read gives a new volatile one, and memory is left as it is.
create-IsRenewed :
    (h : ℕ) (s : State)
    → 64 ≤ s.mem (h + Run.n_bytes)
    → (run : ℕ) × (t : State) × (arena_create_run_header h s ≡ some (run, t))
      × (t.mem ≡ s.mem)
      × IsRenewed h s t
unfolding arena_create_run_header
create-IsRenewed h s large = (
  _,
  _,
  if-false (ltb (s.mem (h + Run.n_bytes)) 64) none _ (ground (arith, large)),
  refl,
  record { arenas = refl; free_chunks = refl; nvm_start = refl; kept = λ a n1 n2. refl },
)

-- A run whose slots have at least 64 bytes can be renewed.
pub renew_run-IsRenewed :
    (h : ℕ) (s : State)
    → 64 ≤ s.mem (h + Run.n_bytes)
    → (run : ℕ) × (t : State) × (renew_run h s ≡ some (run, t)) × IsRenewed h s t
unfolding renew_run
renew_run-IsRenewed h s large =
    elim (Bool-cases (ltb (s.mem (h + Run.version)) s.current_version)) [
      | inl e ↦
          let (run, t, made, same, is) = create-IsRenewed h s large in
          (
            run,
            set_mem
                (update (update t.mem (h + Run.vdata) run) (h + Run.version)
                  (u32 s.current_version))
                t,
            rw (e, made) refl,
            record {
              arenas = is.arenas;
              free_chunks = is.free_chunks;
              nvm_start = is.nvm_start;
              kept = λ a n1 n2.
                  update-ne (update t.mem (h + Run.vdata) run) (h + Run.version)
                    (u32 s.current_version) a n2
                  ∙ update-ne t.mem (h + Run.vdata) run a n1
                  ∙ ap (λ m. m a) same;
            },
          )
      | inr e ↦ (
        s.mem (h + Run.vdata),
        s,
        rw e refl,
        record { arenas = refl; free_chunks = refl; nvm_start = refl; kept = λ a n1 n2. refl },
      )
    ]

-- A block's volatile header holds what its header in NVRAM holds.
pub arena_create_block_header_lem :
    (h n a : ℕ) (s : State)
    → s.mem (h + Block.n_units) ≡ n
    → s.mem (h + Block.arena_id) ≡ a
    → n < 2 ^ 16
    → arena_create_block_header h s ≡ record { nvm_block = h; n_pages = n; arena = a }
unfolding arena_create_block_header
arena_create_block_header_lem h n a s units id small =
    let whole : u16 n ≡ n = omega (arith, small) in rw (units, id, whole) refl
