-- ===== src/Daemonize/Stop.antt =====
-- `stop` of src/daemonize.c.
use atomicles.Base.{ℕ, ◌≤◌, ◌≡◌, refl, ◌∙◌, ap, Bool, Bool-cases, inl, inr, if◌then◌else◌}
use atomicles.Base.Int.{ℤ, pos, is_zero_ℤ}
use atomicles.Sys.{Kernel}
use atomicles.Sys.Processes.{Processes, SignalLaws, usr1}
use atomicles.Sys.Run
use atomicles.Sys.Run.{Returns, returns, pure, fault}
use atomicles.Sys.View.{View, SemSet}
use atomicles.Sys.Laws.{Laws}
use atomicles.SharedMemory.Life.{mapped, without_segment}
use atomicles.Daemonize.Command.{kill_both, stop}
use atomicles.Daemonize.Words.{
  Shared, IsShared, get_pid_lem, get_cpid_lem, get_count_lem, cleanup_lem,
}
use atomicles.Daemonize.Report.{is_noted, daemonstr_lem}

-- 2 without the child, 3 without the daemon's process, 0 when both were told.
abbrev pub kill_code : (ℕ → Bool) → Shared → ℤ
kill_code procs x = if procs x.cpid then (if procs x.pid then pos 0 else pos 3) else pos 2

-- 1 without a daemon.
abbrev pub stop_code : (ℕ → Bool) → Shared → ℤ
stop_code procs x = if is_noted x then kill_code procs x else pos 1

module _ {W : Type 0} ⦃k : Kernel W⦄ ⦃p : Processes W⦄ (laws : Laws k)
    (signals : SignalLaws p laws.view) (key id size addr guard_id : ℕ) where
  open laws use {view}

  -- The tables after `stop`.
  abbrev pub after_stop : View → ℤ → View
  after_stop v e = if is_zero_ℤ e then without_segment laws v id addr guard_id else v

  module _ {s : SemSet} {x : Shared} where
    -- What the words hold is known when the signals are sent.
    kill_both_lem :
        {w : W} {v : View}
        → size ≤ 16
        → view w ≡ v
        → IsShared key id size addr guard_id s x v
        → Returns
            (λ e w'. (e ≡ kill_code v.procs x) × (view w' ≡ after_stop v e))
            (kill_both (mapped key id size addr guard_id) x.pid x.cpid w)
    unfolding kill_both
    kill_both_lem {w} {v} fits same ready =
        Run.bind (signals.kill_ok w x.cpid usr1) λ a w1 (e1, s1).
          rw (e1, same)
            (elim (Bool-cases (v.procs x.cpid)) [
              | inl child ↦ rw child (
                  Run.bind (signals.kill_ok w1 x.pid usr1) λ b w2 (e2, s2).
                    rw (e2, s1, same)
                      (elim (Bool-cases (v.procs x.pid)) [
                        | inl there ↦ rw there (
                            Run.bind
                              (cleanup_lem laws key id size addr guard_id {s = s} {x = x} fits
                                (rw (s2, s1, same) ready))
                              λ _ w3 (_, s3). returns (
                                refl,
                                s3
                                    ∙ ap (λ u. without_segment laws u id addr guard_id)
                                        (s2 ∙ s1 ∙ same),
                              ))
                        | inr not_there ↦ rw not_there (returns (refl, s2 ∙ s1 ∙ same))
                      ]))
              | inr childless ↦ rw childless (returns (refl, s1 ∙ same))
            ])

    -- With the words mapped, their guard free and the object's size within the segment, `stop`
    -- returns 1 where an id is 0, 2 where the child cannot be signalled, 3 where the daemon cannot,
    -- and else 0; for 0 the segment, its mapping and its guard are gone, else no table changes.
    pub stop-stop_code :
        {w : W}
        → size ≤ 16
        → IsShared key id size addr guard_id s x (view w)
        → Returns
            (λ e w'. (e ≡ stop_code (view w).procs x) × (view w' ≡ after_stop (view w) e))
            (stop (mapped key id size addr guard_id) w)
    unfolding stop
    stop-stop_code {w} fits ready =
        Run.bind (get_pid_lem laws key id size addr guard_id ready) λ _ w1 (e1, s1).
          Run.bind (get_cpid_lem laws key id size addr guard_id {s = s} {x = x} (rw s1 ready))
            λ _ w2 (e2, s2).
              Run.bind
                (get_count_lem laws key id size addr guard_id {s = s} {x = x} (rw (s2, s1) ready))
                λ _ w3 (e3, s3).
                  rw (e1, e2, e3)
                    (Run.bind (daemonstr_lem laws signals {v = view w} key x (s3 ∙ s2 ∙ s1))
                      λ l w4 (_, s4). elim (Bool-cases (is_noted x)) [
                        | inl noted ↦ rw noted (kill_both_lem fits s4 ready)
                        | inr unnoted ↦ rw unnoted (returns (refl, s4))
                      ])
