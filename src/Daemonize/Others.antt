-- ===== src/Daemonize/Others.antt =====
-- What the daemon of src/daemonize.c finds in the shared words, and what it relies on other processes
-- for.
use Prim.Native.String.{String}
use atomicles.Base.{ℕ, ◌≡◌, false, List}
use atomicles.Sys.{Kernel}
use atomicles.Sys.Processes.{Processes}
use atomicles.Sys.Run.{Returns}
use atomicles.Sys.View.{SemSet}
use atomicles.Sys.Laws.{Laws}
use atomicles.Daemonize.{Ending, returned, left, replaced, serving}
use atomicles.Daemonize.Service.{Next, again, ended}
use atomicles.Daemonize.Release.{IsReleased}
use atomicles.Daemonize.Words.{Shared, IsShared}

module _ {W : Type 0} ⦃k : Kernel W⦄ (laws : Laws k) (key id size addr guard_id : ℕ)
    (s : SemSet) where
  open laws use {view}

  -- The words, but for the count, which the children write.
  abbrev pub Counts : Shared → W → Type 0
  Counts x w = (n : ℕ) × IsShared key id size addr guard_id s (record x { count = n }) (view w)

  -- The daemon is noted as `pid`.
  abbrev pub IsNoted : ℕ → W → Type 0
  IsNoted pid w =
      (a : ℕ) × (cpid : ℕ) × Counts (record { active = a; pid = pid; cpid = cpid; count = 0 }) w

  -- It is active, with some child.
  abbrev pub IsActive : ℕ → W → Type 0
  IsActive pid w = (cpid : ℕ) × Counts (record { active = 1; pid = pid; cpid = cpid; count = 0 }) w

  -- What is asked of each ending: no return, nothing left behind at an exit, and an active daemon
  -- where it is not over. A process that became the command is not looked at any further.
  abbrev pub Over : ℕ → Ending → W → Type 0
  Over pid returned w = ⊥
  Over pid left w = IsReleased id addr guard_id (view w)
  Over pid replaced w = Unit
  Over pid serving w = IsActive pid w

  abbrev pub After : ℕ → Next → W → Type 0
  After pid (again l o) w = IsActive pid w
  After pid (ended e) w = Over pid e w

-- What the daemon relies on: while it waits, sleeps or forks, other processes change no word but the
-- count and leave the guard free. A call of `execvp` that succeeds takes the mapping away.
pub record Others {W : Type 0} ⦃k : Kernel W⦄ (p : Processes W) (laws : Laws k)
    (key id size addr guard_id : ℕ) (s : SemSet) : Type 0 where
  pub forks :
      (x : Shared) (w : W)
      → Counts laws key id size addr guard_id s x w
      → Returns (λ _ w'. Counts laws key id size addr guard_id s x w') (p.fork w)
  pub waits :
      (x : Shared) (cpid : ℕ) (w : W)
      → Counts laws key id size addr guard_id s x w
      → Returns (λ _ w'. Counts laws key id size addr guard_id s x w') (p.waitpid cpid w)
  pub spins :
      (x : Shared) (w : W)
      → Counts laws key id size addr guard_id s x w
      → Returns (λ _ w'. Counts laws key id size addr guard_id s x w') (p.spin w)
  pub dozes :
      (x : Shared) (n : ℕ) (w : W)
      → Counts laws key id size addr guard_id s x w
      → Returns (λ _ w'. Counts laws key id size addr guard_id s x w') (p.doze n w)
  pub execs :
      (x : Shared) (argv : List String) (w : W)
      → Counts laws key id size addr guard_id s x w
      → Returns
          (λ became w'. became ≡ false → Counts laws key id size addr guard_id s x w')
          (p.execvp argv w)
