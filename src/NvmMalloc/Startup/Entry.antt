-- ===== src/NvmMalloc/Startup/Entry.antt =====
-- A log entry of a huge region or a large block, from the transaction on its header to the restart:
-- `nvm_initialize_recovered` of src/nvm_malloc.c with `identify_usage` of src/util.c.
use nvm_malloc.Base.{
  ℕ, ◌+◌, ◌*◌, ◌/◌, ◌%◌, ◌^◌, ◌<◌, ◌≡◌, ◌≢◌, ◌⊎◌, inl, inr, refl, ◌∙◌, ap, arith, Bool, true, false,
  some, List, update, ne→==, ◌-◌, if◌then◌else◌,
}
use nvm_malloc.Types.{block_size, header_size, get_state, state_initialized, rel_to_abs}
use nvm_malloc.Types.Block
use nvm_malloc.Util.{identify_usage}
use nvm_malloc.Util.Usage
use nvm_malloc.Nvm.{Mem, Event, exec, crash}
use nvm_malloc.Links.{Links}
use nvm_malloc.Links.Phases.{Outside, Fits}
use nvm_malloc.Slot.{Change, activating, freeing}
use nvm_malloc.Header.{Kind, huge, block, usage_of, recover}
use nvm_malloc.Header.Atomic.{Outcome}
use nvm_malloc.Header.Again.{perform, middle, final, Attempts, Attempts-kept, Attempts-Outcome}
use nvm_malloc.Arena.{put_block}
use nvm_malloc.Arena.Free.{arena_create_block_header}
use nvm_malloc.State.{Huge, State, Env, set_mem}
use nvm_malloc.NvmMalloc.Startup.{recover_entry}

-- The region that starts at a chunk, or at a page of a chunk.
abbrev pub region_of : Kind → (chunk page : ℕ) → Usage.Region
region_of huge c p = Usage.huge c
region_of block c p = Usage.large c p

-- A cell that is neither the header's nor a link stands apart from a transaction.
Outcome-apart :
    (start h old fin : ℕ) (l : Links) (m₀ m : Mem) (a v : ℕ)
    → Fits start h l
    → Outside h a
    → a ≢ l.link1
    → a ≢ l.link2
    → Outcome start h old fin l m₀ m
    → Outcome start h old fin l (update m₀ a v) (update m a v)
Outcome-apart start h old fin l m₀ m a v fit out n1 n2 (inl b) = inl (record {
  state = ground (arith, b.state, out);
  cell = tt;
  same = λ d od. ground (arith, b.same d od);
})
Outcome-apart start h old fin l m₀ m a v fit out n1 n2 (inr (inl f)) = inr (
    inl (record {
      state = ground (arith, f.state, out);
      cell = tt;
      first = ground (arith, f.first);
      second = λ ne. ground (arith, f.second ne);
      same = λ d od e1 e2. ground (arith, f.same d od e1 e2);
    }))
Outcome-apart start h old fin l m₀ m a v fit out n1 n2 (inr (inr f)) = inr (
    inr (record {
      state = ground (arith, f.state, out);
      cell = tt;
      first = ground (arith, f.first);
      second = λ ne. ground (arith, f.second ne);
      same = λ d od e1 e2. ground (arith, f.same d od e1 e2);
    }))

module _ (env : Env) (s : State) (h i : ℕ) where
  abbrev entry_at : ℕ
  entry_at = s.log_start + 8 * i

  abbrev named_by : ℕ
  named_by = rel_to_abs s.nvm_start (s.mem entry_at)

  -- The state behind the repair of the header, for either kind of region.
  abbrev pub repaired : Kind → List Event → Bool → State
  repaired huge es added =
      let m = exec es s.mem in
      let region : Huge = record { nvm_chunk = h; n_chunks = m (h + Block.n_units) } in
      if added
      then record s { mem = m; free_chunks = env.huges.tree_add region s.free_chunks }
      else set_mem m s
  repaired block es added =
      let t = set_mem (exec es s.mem) s in
      let b = arena_create_block_header h t in if added then put_block env b.arena b t else t

  repaired-mem :
      (kind : Kind) (es : List Event) (added : Bool) → (repaired kind es added).mem ≡ exec es s.mem
  unfolding put_block
  repaired-mem huge es true = refl
  repaired-mem huge es false = refl
  repaired-mem block es true = refl
  repaired-mem block es false = refl

  -- An entry that names a region whose recovery succeeds is processed and cleared.
  pub recover_entry-region :
      (kind : Kind) (es : List Event) (added : Bool)
      → s.mem entry_at ≢ 0
      → named_by ≡ h + header_size
      → h % block_size ≡ 0
      → identify_usage s.mem s.nvm_start named_by ≡ usage_of kind
      → recover s.nvm_start kind s.mem h ≡ some (es, added)
      → recover_entry env i s
        ≡ (let t = repaired kind es added in some (set_mem (update t.mem entry_at 0) t))
  unfolding recover_entry
  recover_entry-region huge es added ne at page usage e =
      let place : named_by - header_size ≡ h = omega (arith, at) in
      rw (ne→== (s.mem entry_at) 0 ne, usage, place, e) refl
  recover_entry-region block es added ne at page usage e =
      let place : named_by / block_size * block_size ≡ h = omega (arith, at, page) in
      rw (ne→== (s.mem entry_at) 0 ne, usage, place, e) refl

-- The state bytes of a transaction leave the page a block's or a free one.
IsPlaced-after :
    (start : ℕ) (kind : Kind) (ch : Change) (c p : ℕ) (m n : Mem)
    → Usage.IsPlaced m start (region_of kind c p)
    → (let h = start + Usage.header_of (region_of kind c p) in
        (n h ≡ m h) ⊎ (n h ≡ middle kind ch) ⊎ (n h ≡ final kind ch))
    → Usage.IsPlaced n start (region_of kind c p)
IsPlaced-after start huge ch c p m n placed e = tt
IsPlaced-after start block ch c p m n placed (inl e) = (placed.0, placed.1, rw e placed.2)
IsPlaced-after start block activating c p m n placed (inr (inl e)) =
    (placed.0, placed.1, inl (rw e refl))
IsPlaced-after start block freeing c p m n placed (inr (inl e)) =
    (placed.0, placed.1, inl (rw e refl))
IsPlaced-after start block activating c p m n placed (inr (inr e)) =
    (placed.0, placed.1, inl (rw e refl))
IsPlaced-after start block freeing c p m n placed (inr (inr e)) =
    (placed.0, placed.1, inr (rw e refl))

usage_of_region :
    (mem : Mem) (start : ℕ) (kind : Kind) (c p : ℕ)
    → start + Usage.header_of (region_of kind c p) + header_size < 2 ^ 64
    → Usage.IsPlaced mem start (region_of kind c p)
    → identify_usage mem start (start + Usage.header_of (region_of kind c p) + header_size)
      ≡ usage_of kind
usage_of_region mem start huge c p fits placed =
    ap (identify_usage mem start) (omega arith)
    ∙ Usage.identify_usage_lem mem start (Usage.huge c) (omega (arith, fits)) tt
usage_of_region mem start block c p fits placed =
    ap (identify_usage mem start) (omega arith)
    ∙ Usage.identify_usage_lem mem start (Usage.large c p) (omega (arith, fits)) placed

page_of :
    (start : ℕ) (kind : Kind) (c p : ℕ)
    → start % block_size ≡ 0
    → (start + Usage.header_of (region_of kind c p)) % block_size ≡ 0
page_of start huge c p e = omega (arith, e)
page_of start block c p e = omega (arith, e)

module _ (env : Env) (s : State) (i : ℕ) (kind : Kind) (ch : Change) (c p : ℕ) (l : Links)
    (m : Mem) where
  abbrev header_at : ℕ
  header_at = s.nvm_start + Usage.header_of (region_of kind c p)

  -- Let an activation or a free of a huge region or a large block have links that fit, in a header
  -- on a page of its kind, in the state INITIALIZED and with a clear record of a second link. Let
  -- entry `i` of the log name the region and stand apart from the header and the links. Wherever a
  -- crash falls in the transaction, and however many starts are cut off in the recovery of the
  -- header, the processing of entry `i` succeeds: it finds the header from the entry, and leaves
  -- the transaction undone or done, the entry cleared, and all other cells outside the header as
  -- they were. Done means the state byte in its new state and both links holding their targets,
  -- relative or (where recovery wrote them) absolute; undone means the state byte as it was.
  pub recover_entry-Outcome :
      Fits s.nvm_start header_at l
      → m (header_at + Block.on + 16) ≡ 0
      → get_state (m header_at) ≡ state_initialized
      → s.nvm_start % block_size ≡ 0
      → header_at + header_size < 2 ^ 64
      → Usage.IsPlaced m s.nvm_start (region_of kind c p)
      → m (s.log_start + 8 * i) ≡ Usage.header_of (region_of kind c p) + header_size
      → Outside header_at (s.log_start + 8 * i)
      → s.log_start + 8 * i ≢ l.link1
      → s.log_start + 8 * i ≢ l.link2
      → (k : ℕ)
      → Attempts s.nvm_start kind header_at
          (crash k (perform s.nvm_start kind ch header_at l) m)
          s.mem
      → (t : State) × (recover_entry env i s ≡ some t)
        × Outcome s.nvm_start header_at
            (m header_at)
            (final kind ch)
            l
            (update m (s.log_start + 8 * i) 0)
            t.mem
  recover_entry-Outcome fit clear ready aligned fits placed named out n1 n2 k path =
      let slot = s.log_start + 8 * i in
      let (states, same) =
        Attempts-kept s.nvm_start kind header_at l fit m clear ready k ch s.mem path in
      let (es, added, e, done) =
        Attempts-Outcome s.nvm_start kind header_at l fit m clear ready k ch s.mem path in
      let logged : s.mem slot ≡ Usage.header_of (region_of kind c p) + header_size =
        same slot out n1 n2 ∙ named in
      let names : rel_to_abs s.nvm_start (s.mem slot) ≡ header_at + header_size =
        omega (arith, logged, fits) in
      let usage : identify_usage s.mem s.nvm_start (rel_to_abs s.nvm_start (s.mem slot))
          ≡ usage_of kind =
        ap (identify_usage s.mem s.nvm_start) names
        ∙ usage_of_region s.mem s.nvm_start kind c p fits
            (IsPlaced-after s.nvm_start kind ch c p m s.mem placed states) in
      (
        _,
        recover_entry-region env s header_at i kind es added (omega (arith, logged)) names
            (page_of s.nvm_start kind c p aligned) usage e,
        rw (repaired-mem env s header_at i kind es added) (
            Outcome-apart s.nvm_start header_at (m header_at) (final kind ch) l m (exec es s.mem)
              slot 0 fit out n1 n2 done),
      )
