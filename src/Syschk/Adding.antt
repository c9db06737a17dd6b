-- ===== src/Syschk/Adding.antt =====
-- The messages that the checks of files and of memory in src/syschk.c add.
use atomicles.Base.{ℕ, ◌/◌, ◌<◌, ◌≡◌, refl, ◌∙◌, ap, none, some, Option, List, arith}
use atomicles.Base.Int.{pos}
use atomicles.Sys.Run
use atomicles.Sys.Run.{Returns, returns}
use atomicles.Sys.Frame.{Returns-Stays}
use atomicles.Sys.View.{View}
use atomicles.Syschk.{Host, Clock, Reason}
use atomicles.Syschk.Open.{Checked}
use atomicles.Syschk.Opening.{Opened, chk_open_lem}
use atomicles.Syschk.Opening.Frame.{chk_open-Stays}
use atomicles.Syschk.Calloc.{max_count, mega}
use atomicles.Syschk.Callocing.{Callocked, chk_calloc_lem}
use atomicles.Syschk.Messages.{Timeb, Chain, add_message}
use atomicles.Syschk.Limits.{Rlimit}
use atomicles.Syschk.Proc.{Files}
use atomicles.Syschk.Prepare.{Control, nofile, address_space}
use atomicles.Syschk.Prepared.{Limits, both}
use atomicles.Syschk.Checks.{
  Start, open_name, calloc_name, open_threshold, calloc_threshold, calloc_size, note, check_open,
  check_calloc,
}
use atomicles.Syschk.System.{Readings, Stock, SystemLaws}

module _ {W : Type 0} ⦃h : Host W⦄ ⦃p : Files W⦄ ⦃c : Control W⦄ ⦃s : Start W⦄ (view : W → View)
    (limits : W → Limits) (stock : Stock W) (settings : Readings)
    (laws : SystemLaws h p c s view limits stock settings) where
  -- A message behind `msg`, from a check with the limit `limit`.
  abbrev pub Adds : (name : List ℕ) (limit : ℕ) (msg : Chain) → Chain → Type 0
  Adds name limit msg msg' =
      (start : Timeb) × (now : Timeb) × (reach : ℕ) × (reason : Reason) × (msg'
        ≡ add_message msg name start now limit reach reason)

  note_lem :
      (w : W) (code : ℕ) (name : List ℕ) (t : Timeb) (limit : ℕ) (msg : Chain) (r : Option Checked)
      → ((checked : Checked) × (r ≡ some checked))
      → Returns
          (λ p w'.
            (p.code ≡ code)
            × Adds name limit msg p.msg
            × (both limits view w' ≡ both limits view w))
          (note code name t limit msg r w)
  unfolding note
  note_lem w code name t limit msg r (checked, e) = rw e (
      Run.bind (laws.starting.message_ok w) λ _ w0 (granted, same0). rw granted (
        Run.bind (laws.starting.ftime_ok w0) λ now w1 same.
          returns (refl, (t, now, checked.reach, checked.reason, refl), same ∙ same0)))

  Opened-some :
      (base : ℕ) (r : Option Checked) (w : W)
      → Opened stock.files stock.files_cap laws.opening (pos open_threshold) base r w
      → (checked : Checked) × (r ≡ some checked)
  Opened-some base none w ended = elim ended [ ]
  Opened-some base (some checked) w ended = (checked, refl)

  Callocked-some :
      (base : ℕ) (r : Option Checked) (w : W)
      → Callocked stock.blocks stock.blocks_cap laws.allocating calloc_size
          (pos calloc_threshold)
          base
          r
          w
      → (checked : Checked) × (r ≡ some checked)
  Callocked-some base none w ended = elim ended [ ]
  Callocked-some base (some checked) w ended = (checked, refl)

  -- The check of open files, as many as the limit says: it fails, always, and adds its message.
  pub check_open_lem :
      (rounds : ℕ) (w : W) (msg : Chain) (clock : Clock)
      → (limits w nofile).rlim_cur ≡ stock.files_cap
      → stock.files_cap < rounds
      → Returns
          (λ p w'.
            (p.code ≡ 1)
            × Adds open_name stock.files_cap msg p.msg
            × (both limits view w' ≡ both limits view w))
          (check_open rounds msg clock w)
  unfolding check_open
  check_open_lem rounds w msg clock capped enough =
      Run.bind (laws.starting.ftime_ok w) λ t w1 same1.
        Run.bind (laws.control.getrlimit_ok w1 nofile) λ l w2 (e2, l2, v2).
          let cap : l.rlim_cur ≡ stock.files_cap =
            ap (λ (m : Rlimit). m.rlim_cur) (e2 ∙ ap (λ b. b.0 nofile) same1) ∙ capped in
          let few = laws.files_few w2 in
          rw cap (
            Run.bind
              (Returns-Stays (both limits view) w2
                (chk_open_lem stock.files stock.files_cap laws.opening (pos open_threshold) rounds
                  w2 clock (laws.stack_ok w2) laws.files_some few (omega (arith, enough)))
                (chk_open-Stays (both limits view) laws.apart (pos open_threshold) stock.files_cap
                  rounds w2 clock))
              λ r w3 (opened, same3).
                Run.mono
                  (note_lem w3 1 open_name t stock.files_cap msg r
                    (Opened-some (stock.files w2) r w3 opened))
                  λ p w4 (e4, adds, same4). (e4, adds, same4 ∙ same3 ∙ rw (l2, v2) refl ∙ same1))

  -- The check of memory: it succeeds, and adds its message.
  pub check_calloc_lem :
      (rounds : ℕ) (w : W) (msg : Chain) (clock : Clock)
      → stock.blocks_cap < max_count
      → stock.blocks_cap < rounds
      → Returns
          (λ p w'. (p.code ≡ 0) × ((limit : ℕ) × Adds calloc_name limit msg p.msg))
          (check_calloc rounds msg clock w)
  unfolding check_calloc
  check_calloc_lem rounds w msg clock short enough =
      Run.bind (laws.starting.ftime_ok w) λ t w1 same1.
        Run.bind (laws.control.getrlimit_ok w1 address_space) λ l w2 _.
          let few = laws.blocks_few w2 in
          Run.bind
            (chk_calloc_lem stock.blocks stock.blocks_cap laws.allocating calloc_size
              (pos calloc_threshold) rounds w2 clock (laws.table_ok w2) few (omega (arith, short))
              (omega (arith, enough)))
            λ r w3 ended.
              Run.mono
                (note_lem w3 0 calloc_name t (l.rlim_cur / mega) msg r
                  (Callocked-some (stock.blocks w2) r w3 ended))
                λ p w4 (e4, adds, _). (e4, (l.rlim_cur / mega, adds))
