-- ===== src/Syschk/System.antt =====
-- What src/syschk.c relies on of its system, and what it sets before its checks.
use atomicles.Base.{ℕ, ◌*◌, ◌<◌, true, ◌≤◌, ◌≡◌, refl, ◌∙◌, ap, List}
use atomicles.Base.Int.{ℤ, minus_one}
use atomicles.Sys.Run
use atomicles.Sys.Run.{Returns, returns}
use atomicles.Sys.View.{View}
use atomicles.Syschk.{Host, got}
use atomicles.Syschk.Calloc.{max_count}
use atomicles.Syschk.Opening.{FileLaws}
use atomicles.Syschk.Opening.Frame.{IsApart}
use atomicles.Syschk.Callocing.{BlockLaws}
use atomicles.Syschk.Limits.{setrlim}
use atomicles.Syschk.Proc.{
  Files, overcommit_memory, swappiness, overcommit_ratio, pid_max, file_max, meminfo,
}
use atomicles.Syschk.Proc.Lines.{ProcLaws, SettingLaws, get_proc_reading_lem}
use atomicles.Syschk.Prepare.{
  Control, nofile, nproc, sigpending, to_u64, chk_open_prepare, chk_fork_prepare,
}
use atomicles.Syschk.Prepared.{Limits, ControlLaws, both, set_limit_lem}
use atomicles.Syschk.Checks.{Start}
use atomicles.Syschk.Segment.{StartLaws}

-- What /proc says, and the memory behind the text of meminfo.
pub record Readings : Type 0 where
  pub mode : ℤ
  pub swap : ℤ
  pub ratio : ℤ
  pub files_max : ℤ
  pub pids_max : ℤ
  pub text : List ℕ
  pub junk : List ℕ

-- The counts of open files and of blocks, with what there can be of them.
pub record Stock (W : Type 0) : Type 0 where
  pub files : W → ℕ
  pub files_cap : ℕ
  pub blocks : W → ℕ
  pub blocks_cap : ℕ

-- The manual pages: the calls on /proc, on limits and on times leave the kernel's tables as they are,
-- and so do those that open files. One file or more can be open, the stack has room for the numbers of
-- as many, and there is memory for the table of the blocks and for the messages.
pub record SystemLaws {W : Type 0} (h : Host W) (p : Files W) (c : Control W) (s : Start W)
    (view : W → View) (limits : W → Limits) (stock : Stock W) (settings : Readings) : Type 0 where
  pub control : ControlLaws c limits view
  pub starting : StartLaws s (both limits view)
  pub apart : IsApart h (both limits view)
  pub opening : FileLaws h stock.files stock.files_cap
  pub stack_ok :
      (w : W)
      → Returns
          (λ r w'. (r ≡ true) × (stock.files w' ≡ stock.files w))
          (h.on_stack (4 * stock.files_cap) w)
  pub files_some : 0 < stock.files_cap
  pub files_few : (w : W) → stock.files w ≤ stock.files_cap
  pub allocating : BlockLaws h stock.blocks stock.blocks_cap
  pub table_ok :
      (w : W)
      → Returns
          (λ a w'. (table : ℕ) × (a ≡ got table) × (stock.blocks w' ≡ stock.blocks w))
          (h.allocate_table max_count 8 w)
  pub blocks_few : (w : W) → stock.blocks w ≤ stock.blocks_cap
  pub mode_ok : SettingLaws p (both limits view) overcommit_memory settings.mode
  pub swap_ok : SettingLaws p (both limits view) swappiness settings.swap
  pub ratio_ok : SettingLaws p (both limits view) overcommit_ratio settings.ratio
  pub files_ok : SettingLaws p (both limits view) file_max settings.files_max
  pub pids_ok : SettingLaws p (both limits view) pid_max settings.pids_max
  pub text_ok : ProcLaws p (both limits view) meminfo settings.text settings.junk
  pub stale_ok :
      (w : W) → Returns (λ _ w'. both limits view w' ≡ both limits view w) (p.stale_int w)

module _ {W : Type 0} ⦃h : Host W⦄ ⦃p : Files W⦄ ⦃c : Control W⦄ ⦃s : Start W⦄ (view : W → View)
    (limits : W → Limits) (stock : Stock W) (settings : Readings)
    (laws : SystemLaws h p c s view limits stock settings) where
  abbrev same_limits : {w w' : W} → both limits view w' ≡ both limits view w → limits w' ≡ limits w
  same_limits same = ap (λ b. b.0) same

  abbrev same_view : {w w' : W} → both limits view w' ≡ both limits view w → view w' ≡ view w
  same_view same = ap (λ b. b.1) same

  -- chk_open_prepare succeeds, and lowers the limit of open files to the system's.
  pub chk_open_prepare_lem :
      (w : W)
      → Returns
          (λ r w'.
            (r ≡ 0)
            × (limits w' nofile ≡ setrlim (to_u64 settings.files_max) (limits w nofile))
            × (limits w' nproc ≡ limits w nproc)
            × (view w' ≡ view w))
          (chk_open_prepare w)
  unfolding chk_open_prepare
  chk_open_prepare_lem w = Run.bind (laws.control.getpriority_ok w) λ _ w1 (l1, v1).
      Run.bind (laws.control.setpriority_ok w1) λ _ w2 (e2, l2, v2). rw e2 (
        Run.bind (laws.control.getpriority_ok w2) λ _ w3 (l3, v3).
          Run.bind
            (get_proc_reading_lem (both limits view) file_max settings.files_max laws.files_ok w3
              minus_one)
            λ _ w4 (e4, same4). rw e4 (
              let l4 : limits w4 ≡ limits w = same_limits same4 ∙ l3 ∙ l2 ∙ l1 in
              Run.bind
                (set_limit_lem limits view laws.control w4 nofile (to_u64 settings.files_max))
                λ _ w5 ((now, others), v5). returns (
                  refl,
                  now ∙ ap (λ ls. setrlim (to_u64 settings.files_max) (ls nofile)) l4,
                  others nproc refl ∙ ap (λ ls. ls nproc) l4,
                  v5 ∙ same_view same4 ∙ v3 ∙ v2 ∙ v1,
                )))

  -- chk_fork_prepare succeeds, and lowers the limit of processes to the system's.
  pub chk_fork_prepare_lem :
      (w : W)
      → Returns
          (λ r w'.
            (r ≡ 0)
            × (limits w' nproc ≡ setrlim (to_u64 settings.pids_max) (limits w nproc))
            × (view w' ≡ view w))
          (chk_fork_prepare w)
  unfolding chk_fork_prepare
  chk_fork_prepare_lem w =
      Run.bind
        (get_proc_reading_lem (both limits view) pid_max settings.pids_max laws.pids_ok w minus_one)
        λ _ w1 (e1, same1). rw e1 (
          Run.bind (set_limit_lem limits view laws.control w1 nproc (to_u64 settings.pids_max))
            λ _ w2 ((now, _), v2).
              Run.bind
                (set_limit_lem limits view laws.control w2 sigpending (to_u64 settings.pids_max))
                λ _ w3 ((_, others), v3). returns (
                  refl,
                  others nproc refl
                      ∙ now
                      ∙ ap (λ ls. setrlim (to_u64 settings.pids_max) (ls nproc))
                          (same_limits same1),
                  v3 ∙ v2 ∙ same_view same1,
                ))
