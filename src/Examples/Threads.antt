-- ===== src/Examples/Threads.antt =====
-- Threads that change slots of one run, and schedules of their steps.
use nvm_malloc.Base.{
  ℕ, ◌≡◌, ◌≢◌, inl, inr, refl, arith, none, true, List, [], ◌∷◌, ◌==◌, if◌then◌else◌, Bool-cases,
}
use nvm_malloc.Links.{no_links}
use nvm_malloc.Slot.{activating, freeing, settled, committed, recover}
use nvm_malloc.Threads.{
  Task, waiting, returned, Machine, Reachable, initial, holds, has_marked, advance, step, records,
}
use nvm_malloc.Threads.Lock.{IsPlaced}
use nvm_malloc.Threads.Exclusion.{Reachable-alone}
use nvm_malloc.Threads.Marks.{IsOrder, Reachable-IsOrder}
use nvm_malloc.Threads.Slots.{bit_at, Reachable-bit_at}
use nvm_malloc.Threads.Progress.{follow, follow-Reachable, Reachable-returned}
use nvm_malloc.Threads.Overlap.{recover-none}
use nvm_malloc.Examples.Headers.{start, region, links, links-Fits, memory}

-- Thread 0 activates slot 5 with links, every other frees slot 6.
abbrev task : ℕ → Task
task i =
    if i == 0
    then record { kind = activating; idx = 5; links = links }
    else record { kind = freeing; idx = 6; links = no_links }

task-IsPlaced : (i : ℕ) → IsPlaced start region (task i)
task-IsPlaced i = elim (Bool-cases (i == 0)) [
  | inl e ↦ rw e (record { range = omega arith; links = inr links-Fits })
  | inr e ↦ rw e (record { range = omega arith; links = inl refl })
]

abbrev idle : Machine
idle = record { mem = memory settled; threads = λ _. waiting }

-- Thread 0 takes the lock and goes on; thread 1 waits.
abbrev machine : Machine
machine = follow start region task (0 ∷ 1 ∷ 0 ∷ 1 ∷ []) idle

machine-Reachable : Reachable start region task (memory settled) machine
machine-Reachable =
    follow-Reachable start region task (memory settled) (0 ∷ 1 ∷ 0 ∷ 1 ∷ []) idle initial

machine-holds : holds (machine.threads 0) ≡ true
unfolding advance step records
machine-holds = refl

Reachable-alone_example : (◌≡◌ {A = ℕ} 0 0) × (machine.mem region ≢ settled)
Reachable-alone_example =
    Reachable-alone start region task task-IsPlaced (memory settled) machine machine-Reachable 0 0
      machine-holds machine-holds

Reachable-IsOrder_example :
    (order : List ℕ) × IsOrder start region task (memory settled) machine order
Reachable-IsOrder_example =
    Reachable-IsOrder start region task (memory settled) task-IsPlaced machine machine-Reachable

Reachable-bit_at_example :
    bit_at region 5 machine.mem
    ≡ (if has_marked (machine.threads 0) then 1 else bit_at region 5 (memory settled))
Reachable-bit_at_example =
    Reachable-bit_at start region task task-IsPlaced (memory settled) (λ a at. ground arith) 0
      (λ j ne. ground arith) machine machine-Reachable

Reachable-returned_example :
    (schedule : List ℕ) × ((follow start region task schedule machine).threads 1 ≡ returned)
Reachable-returned_example =
    Reachable-returned start region task task-IsPlaced (memory settled) refl machine
      machine-Reachable 1

recover-none_example :
    (s : Machine) × Reachable start region task (memory settled) s
    × (s.mem region ≡ committed activating)
    × (recover start s.mem region ≡ none)
recover-none_example =
    recover-none start region task (memory settled) refl 1 0 (omega arith) (task-IsPlaced 1)
      (λ e. omega arith)
