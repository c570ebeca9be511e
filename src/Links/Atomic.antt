-- ===== src/Links/Atomic.antt =====
-- A transaction with links, seen at each of its crash points.
use nvm_malloc.Base.{
  ℕ, ◌+◌, ◌≤◌, ◌<◌, ◌≡◌, ◌≢◌, ◌⊎◌, inl, inr, arith, List, [], ◌∷◌, ◌++◌, All, update, ◌∙◌, ne→==,
  All-map, update-ne, update_self,
}
use nvm_malloc.Types.{header_size}
use nvm_malloc.Nvm.{Mem, Event, store, fence, exec}
use nvm_malloc.Nvm.Crash.{
  Always, Always-append, Always-of_Keeps, Always-map, Keeps, exec_of_keeps, exec-append,
}
use nvm_malloc.Links.{Links, record_links, write_links, commit_links}
use nvm_malloc.Links.Phases.{Outside, Fits, IsBodyStore, Before, Committed, Finished}
use nvm_malloc.Links.Keeps.{Before-Keeps, Finished-Keeps, Committed-Keeps}
use nvm_malloc.Links.Commit.{
  IsOnOf, record_links-body, write_links-link, write_links-first, write_links-second,
}

-- The setting of one transaction: its header at `h` with `on` and the cell `c`, its links, and what
-- is known of `c` before the commit, while committed, and at the end.
module _ (start h c on : ℕ) (l : Links) (V₀ Vc V₁ : ℕ → Type 0) (m₀ : Mem) (old st fin : ℕ) where
  -- One of the three phases; `m₁` is memory once the links are recorded.
  abbrev pub Phase : Mem → Mem → Type 0
  Phase m₁ m =
      Before h c V₀ m₀ old m
      ⊎ Committed h c Vc m₀ st l m₁ m
      ⊎ Finished h c V₁ m₀ start fin (λ v. v) l m

  module _ (fit : Fits start h l) (o : IsOnOf h c on) (inside : (h ≤ c) × (c < h + header_size))
      (commits : (n : Mem) → V₀ (n c) → Vc (update n h st c)) (m : Mem)
      (b : Before h c V₀ m₀ old m) where
    abbrev pub recorded : Mem
    recorded = exec (record_links start on l) m

    recorded-Before : Before h c V₀ m₀ old recorded
    recorded-Before =
        exec_of_keeps (Before h c V₀ m₀ old) (record_links start on l) m
          (All-map (record_links start on l) (Before-Keeps h c V₀ m₀ old)
            (record_links-body start h c on l o))
          b

    committed : Mem
    committed = update recorded h st

    committed_lem : Committed h c Vc m₀ st l recorded committed
    unfolding committed
    committed_lem = record {
      state = update_self recorded h st;
      cell = commits recorded recorded-Before.cell;
      body = λ a p q ne. update-ne recorded h st a (omega arith);
      same = λ a out n1 n2. update-ne recorded h st a (ground arith) ∙ recorded-Before.same a out;
    }

    Keeps-links : All (Keeps (Committed h c Vc m₀ st l recorded)) (write_links start l)
    Keeps-links =
        All-map (write_links start l)
          (λ e. Committed-Keeps h c Vc m₀ start st l recorded e fit inside)
          (write_links-link start h c on l)

    linked : Mem
    linked = exec (write_links start l) committed

    linked_lem : Committed h c Vc m₀ st l recorded linked
    unfolding linked
    linked_lem =
        exec_of_keeps (Committed h c Vc m₀ st l recorded) (write_links start l) committed
          Keeps-links committed_lem

    Always-record : Always (Phase recorded) (record_links start on l) m
    Always-record =
        Always-map (record_links start on l) m (λ n p. inl p)
          (Always-of_Keeps (Before h c V₀ m₀ old) (record_links start on l) m
            (All-map (record_links start on l) (Before-Keeps h c V₀ m₀ old)
              (record_links-body start h c on l o))
            b)

    Always-write : Always (Phase recorded) (write_links start l) committed
    Always-write =
        Always-map (write_links start l) committed (λ n p. inr (inl p))
          (Always-of_Keeps (Committed h c Vc m₀ st l recorded) (write_links start l) committed
            Keeps-links committed_lem)

    -- What stands between the links and the last state byte: `pre` changes `c` alone.
    module _ (pre post : List Event)
        (pre_keeps : All (Keeps (Committed h c Vc m₀ st l recorded)) pre)
        (pre_same : (n : Mem) (a : ℕ) → Outside h a → exec pre n a ≡ n a)
        (finishes : (n : Mem) → V₁ (update (exec pre n) h fin c))
        (tail : All (IsBodyStore h c) post) where
      finished : Mem
      finished = update (exec pre linked) h fin

      finished_lem : Finished h c V₁ m₀ start fin (λ v. v) l finished
      unfolding finished linked
      finished_lem = record {
        state = update_self (exec pre linked) h fin;
        cell = finishes linked;
        first =
            update-ne (exec pre linked) h fin l.link1 (ground (arith, fit.out1))
            ∙ pre_same linked l.link1 fit.out1
            ∙ write_links-first start h c on l committed fit;
        second = λ ne.
            update-ne (exec pre linked) h fin l.link2 (ground (arith, fit.out2))
            ∙ pre_same linked l.link2 fit.out2
            ∙ write_links-second start h c on l committed ne;
        same = λ a out n1 n2.
            update-ne (exec pre linked) h fin a (ground arith)
            ∙ pre_same linked a out
            ∙ linked_lem.same a out n1 n2;
      }

      Always-finish : Always (Phase recorded) (pre ++ (store h fin ∷ post)) linked
      unfolding finished
      Always-finish =
          Always-append (Phase recorded) pre (store h fin ∷ post) linked
            (Always-map pre linked (λ n p. inr (inl p))
              (Always-of_Keeps (Committed h c Vc m₀ st l recorded) pre linked pre_keeps linked_lem))
            (
              inr (
                  inl (
                    exec_of_keeps (Committed h c Vc m₀ st l recorded) pre linked pre_keeps
                      linked_lem)),
              Always-map post finished (λ n p. inr (inr p))
                  (Always-of_Keeps (Finished h c V₁ m₀ start fin (λ v. v) l) post finished
                    (All-map post (λ e. Finished-Keeps h c V₁ m₀ start fin (λ v. v) l e fit) tail)
                    finished_lem),
            )

      -- At each crash point the transaction is in one of its phases.
      pub transaction-Phase :
          l.link1 ≢ 0
          → Always
              (Phase recorded)
              (commit_links start h on st l ++ (pre ++ (store h fin ∷ post)))
              m
      unfolding commit_links linked committed
      transaction-Phase ne = rw (ne→== l.link1 0 ne) (
          Always-append (Phase recorded) (links_part) (pre ++ (store h fin ∷ post)) m
            (Always-append (Phase recorded) (record_links start on l) commit_part m Always-record
              (inl recorded-Before, (inl recorded-Before, (inr (inl committed_lem), Always-write))))
            (rw (exec-append (record_links start on l) commit_part m) Always-finish))
        where
          commit_part : List Event
          commit_part = (fence ∷ store h st ∷ fence ∷ []) ++ write_links start l

          links_part : List Event
          links_part = record_links start on l ++ commit_part
