-- ===== src/Syschk/Whole.antt =====
-- `main` of src/syschk.c from its start to its exit.
use atomicles.Base.{ℕ, ◌≤◌, ◌≡◌, Bool, true, false}
use atomicles.Sys.{Kernel}
use atomicles.Sys.Run
use atomicles.Sys.Laws.{Laws}
use atomicles.Syschk.{Host}
use atomicles.Syschk.Fork.{Forks}
use atomicles.Syschk.Scanning.{ForkLaws}
use atomicles.Syschk.Messages.{Chain, Msg, null, node}
use atomicles.Syschk.Proc.{Files, Reader}
use atomicles.Syschk.Prepare.{Control}
use atomicles.Syschk.Prepared.{Limits, Prepares}
use atomicles.Syschk.Dump.{Floats, dump}
use atomicles.Syschk.Checks.{Start, Rounds, open_name, fork_name, calloc_name}
use atomicles.Syschk.Segment.{Undisturbed}
use atomicles.Syschk.System.{Readings, Stock, SystemLaws}
use atomicles.Syschk.Main.{Exit, exits}

-- A row of the check of files, and one of the check of processes.
abbrev pub IsOpened : (limit : ℕ) → Msg → Type 0
IsOpened limit m = (m.name ≡ open_name) × (m.limit ≡ limit)

abbrev pub IsForked : (limit : ℕ) → Msg → Type 0
IsForked limit m = (m.name ≡ fork_name) × (m.limit ≡ limit) × (m.reach ≤ limit)

-- The exit and the table that is printed; whether there is a row for the memory.
abbrev pub Table : {F : Type 0} ⦃fl : Floats F⦄ → Bool → (files processes : ℕ) → Exit F → Type 0
Table true files processes exit =
    (opened : Msg) × (forked : Msg) × (allocated : Msg) × (exit
      ≡ exits 0 (dump (node opened (node forked (node allocated null)))))
    × IsOpened files opened
    × IsForked processes forked
    × (allocated.name ≡ calloc_name)
Table false files processes exit =
    (opened : Msg) × (forked : Msg) × (exit ≡ exits 1 (dump (node opened (node forked null))))
    × IsOpened files opened
    × IsForked processes forked

-- What two checks leave.
abbrev Two : (files processes : ℕ) → Chain → Type 0
Two files processes msg =
    (opened : Msg) × (forked : Msg) × (msg ≡ node opened (node forked null))
    × IsOpened files opened
    × IsForked processes forked

module _ {W : Type 0} ⦃k : Kernel W⦄ ⦃h : Host W⦄ ⦃f : Forks W⦄ ⦃p : Files W⦄ ⦃c : Control W⦄
    ⦃s : Start W⦄ (laws : Laws k) (limits : W → Limits) (left : (ℕ → Bool) → ℕ)
    (forking : ForkLaws h f laws.view left) (quiet : Undisturbed k f laws.view) (stock : Stock W)
    (settings : Readings) (system : SystemLaws h p c s laws.view limits stock settings)
    (n : Rounds) where
  open laws use {view}

  abbrev Prepared : Bool → W → ℕ × Reader → W → Type 0
  Prepared b w e w' =
      Prepares limits view system.control n.reads n.lines settings.text settings.junk settings.mode
        settings.swap settings.ratio system.mode_ok system.swap_ok system.ratio_ok system.text_ok
        system.stale_ok b w e w'
