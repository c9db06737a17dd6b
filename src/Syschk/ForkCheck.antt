-- ===== src/Syschk/ForkCheck.antt =====
-- chk_fork of src/syschk.c as a whole: the segment for the ids of the children is made, used and taken
-- away again.
use atomicles.Base.{ℕ, ◌*◌, ◌≡◌, Bool, none, some, Option}
use atomicles.Sys.{Kernel}
use atomicles.Sys.Run
use atomicles.Sys.Run.{Cmd, returns}
use atomicles.Sys.View.{View}
use atomicles.Sys.Laws.{Laws}
use atomicles.SharedMemory.{SharedMemory}
use atomicles.SharedMemory.Life.{mapped, with_segment}
use atomicles.Syschk.{Host}
use atomicles.Syschk.Fork.{Forks}
use atomicles.Syschk.Scanning.{ForkLaws}
use atomicles.Syschk.Prepare.{Control}
use atomicles.Syschk.Prepared.{Limits, ControlLaws, both}
use atomicles.Syschk.Checks.{Start}
use atomicles.Syschk.Segment.{Checks, Undisturbed, StartLaws}

module _ {W : Type 0} ⦃k : Kernel W⦄ ⦃h : Host W⦄ ⦃f : Forks W⦄ ⦃c : Control W⦄ ⦃s : Start W⦄
    (laws : Laws k) (left : (ℕ → Bool) → ℕ) (forking : ForkLaws h f laws.view left)
    (quiet : Undisturbed k f laws.view) (limits : W → Limits)
    (control : ControlLaws c limits laws.view)
    (starting : StartLaws s (both limits laws.view)) where
  open laws use {view}

  -- What SharedMemory$new makes.
  abbrev Makes : View → ℕ → Option SharedMemory → W → Type 0
  Makes v n r w' =
      (id : ℕ) × (addr : ℕ) × (guard_id : ℕ) × (r ≡ some (mapped 0 id (4 * n) addr guard_id))
      × (v.shms id ≡ none)
      × (v.sems guard_id ≡ none)
      × (view w' ≡ with_segment laws v 0 n id addr guard_id)
