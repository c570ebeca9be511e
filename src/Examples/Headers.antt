-- ===== src/Examples/Headers.antt =====
-- Concrete headers and links, and crashes of transactions on them.
use nvm_malloc.Base.{ℕ, ◌+◌, ◌*◌, ◌^◌, inl, inr, refl, arith, ◌==◌, if◌then◌else◌, bit_or}
use nvm_malloc.Types.{chunk_size, block_size, usage_huge, usage_free, state_initialized}
use nvm_malloc.Nvm.{Mem, crash, exec}
use nvm_malloc.Links.{Links}
use nvm_malloc.Links.Phases.{Fits}
use nvm_malloc.Header
use nvm_malloc.Header.{Kind, huge, block}
use nvm_malloc.Header.Again.{first, again, Attempts-Outcome}
use nvm_malloc.Header.Atomic as RegionAtomic
use nvm_malloc.Slot
use nvm_malloc.Slot.{committed, Change, activating, settled, byte_of, changed}
use nvm_malloc.Slot.Atomic as SlotAtomic
use nvm_malloc.Header.Done as RegionDone
use nvm_malloc.Slot.Done as SlotDone

abbrev pub start : ℕ
start = 2 ^ 32

-- The header, in the second chunk.
abbrev pub region : ℕ
region = 2 ^ 32 + chunk_size + 3 * block_size

-- The first link is cleared, the second points to the region.
abbrev pub links : Links
links = record {
  link1 = 2 ^ 32 + 8192;
  target1 = 0;
  link2 = 2 ^ 32 + 8200;
  target2 = 2 ^ 32 + chunk_size + 3 * block_size + 64;
}

pub links-Fits : Fits start region links
links-Fits = record {
  first = (omega arith, omega arith);
  out1 = inl (omega arith);
  second = inr (omega arith, omega arith);
  out2 = inl (omega arith);
  apart = λ e. omega arith;
}

-- Memory that is zero but for the region's state byte.
abbrev pub memory : ℕ → Mem
memory state a = if a == region then state else 0

change-Outcome_example :
    SlotAtomic.Recovers start 3 1 region
      (SlotAtomic.Outcome start activating region 5 links (memory settled))
      (crash 20 (Slot.change start activating (memory settled) region 5 links) (memory settled))
change-Outcome_example =
    SlotAtomic.change-Outcome start 3 1 activating region 5 links links-Fits (memory settled)
      (omega arith) (omega arith) refl refl 20

activate-free-IsDone_example :
    RegionDone.IsDone start region
      (bit_or usage_huge state_initialized)
      links
      (memory 18)
      (exec (Header.activate start huge region links) (memory 18))
    × RegionDone.IsDone start region
        (bit_or usage_free state_initialized)
        links
        (memory 18)
        (exec (Header.free start huge region links) (memory 18))
activate-free-IsDone_example =
    RegionDone.activate-free-IsDone start region links links-Fits huge (memory 18)

change-IsDone_example :
    SlotDone.IsDone start activating region 5 links
      (memory settled)
      (exec (Slot.change start activating (memory settled) region 5 links) (memory settled))
change-IsDone_example =
    SlotDone.change-IsDone start activating region 5 links links-Fits (memory settled) (omega arith)

-- Memory after a crash in the activation, in its committed state.
abbrev crashed : Mem
crashed = crash 7 (Header.activate start huge region links) (memory 18)

-- What recovery does then.
repaired :
    RegionAtomic.Recovers start huge region
      (RegionAtomic.Outcome start region 18 (bit_or usage_huge state_initialized) links (memory 18))
      crashed
repaired =
    Attempts-Outcome start huge region links links-Fits (memory 18) refl refl 7 activating crashed
      first

Attempts-Outcome_example :
    RegionAtomic.Recovers start huge region
      (RegionAtomic.Outcome start region 18 (bit_or usage_huge state_initialized) links (memory 18))
      (crash 5 repaired.0 crashed)
Attempts-Outcome_example =
    Attempts-Outcome start huge region links links-Fits (memory 18) refl refl 7 activating
      (crash 5 repaired.0 crashed) (again first repaired.2 5)
