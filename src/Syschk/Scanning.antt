-- ===== src/Syschk/Scanning.antt =====
-- What `do_fork` of src/syschk.c relies on, and its look at the ids that it has noted.
use atomicles.Base.{ℕ, zero, suc, ◌+◌, ◌^◌, ◌≤◌, ◌<◌, ◌≡◌, refl, ◌∙◌, Bool, true, List, arith}
use atomicles.Sys.{Kernel}
use atomicles.Sys.Run
use atomicles.Sys.Run.{Cmd, Returns, returns}
use atomicles.Sys.View.{View, SemSet}
use atomicles.Sys.Laws.{Laws, Answers}
use atomicles.Semaphore.{Semaphore}
use atomicles.SharedMemory.{SharedMemory}
use atomicles.SharedMemory.Access.{IsReady, read_uint_lem}
use atomicles.Syschk.{Host, Answer, got, refused}
use atomicles.Syschk.Noted.{AreNoted}
use atomicles.Syschk.Fork.{Forks, scan}

-- What `fork` answers its caller, when `left` processes can be forked besides those that there are: an
-- id of 31 bits, and it is one less, or a failure.
abbrev pub Splits : (left : (ℕ → Bool) → ℕ) → Answer → (before after : View) → Type 0
Splits left (got pid) v v' =
    (0 < pid)
    × (pid < 2 ^ 31)
    × (procs : ℕ → Bool) × (v' ≡ record v { procs = procs })
    × (suc (left procs) ≡ left v.procs)
Splits left (refused e) v v' = v' ≡ v

-- The manual pages, for the process that forks.
pub record ForkLaws {W : Type 0} (h : Host W) (f : Forks W) (view : W → View)
    (left : (ℕ → Bool) → ℕ) : Type 0 where
  pub time_ok : (w : W) → Returns (λ _ w'. view w' ≡ view w) (h.time w)
  pub fork_ok : (w : W) → Returns (λ a w'. Splits left a (view w) (view w')) (f.fork w)
  pub kill_ok : (w : W) → Returns (λ r w'. r ≡ true) (f.kill_group w)

module _ {W : Type 0} ⦃k : Kernel W⦄ ⦃h : Host W⦄ ⦃f : Forks W⦄ (laws : Laws k)
    (left : (ℕ → Bool) → ℕ) (forking : ForkLaws h f laws.view left) (this : SharedMemory)
    (g : Semaphore) (addr : ℕ) (s : SemSet) where
  open laws use {view}

  -- The words are mapped, with their guard free.
  abbrev pub Words : List ℕ → View → Type 0
  Words ws v = IsReady this g addr s (record { words = ws }) v

  pub scan_lem :
      (n i : ℕ) (w : W) (ws : List ℕ)
      → i + n ≤ 2 ^ 16
      → AreNoted ws (i + n)
      → Words ws (view w)
      → Returns (Answers view w true) (scan this n i w)
  unfolding scan
  scan_lem zero i w ws short noted ready = returns (refl, refl)
  scan_lem (suc n) i w ws short noted ready =
      let (m, there) = noted i (omega arith) in
      Run.bind
        (read_uint_lem laws {this = this} {g = g} {addr = addr} {s = s}
          {seg = record { words = ws }} ready i (omega (arith, short)) there)
        λ pid w1 (e, same). rw e (
          Run.mono
            (scan_lem n (i + 1) w1 ws (omega (arith, short))
              (λ j below. noted j (omega (arith, below))) (rw same ready))
            λ b w2 (all, same2). (all, same2 ∙ same))
