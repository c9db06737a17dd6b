-- ===== src/Tests/Command.antt =====
-- The command on the counter under the key 5 of the small kernel.
use atomicles.Base.{◌≤◌, ◌+◌, [], ◌∷◌, arith, ◌≡◌, refl}
use atomicles.Base.Int.{pos, minus_one}
use atomicles.Sys.Run.{Returns}
use atomicles.Sys.Sim.{sim, key_of}
use atomicles.Sys.Sim.Lawful.{sim-Laws}
use atomicles.Semaphore.Life.{object}
use atomicles.Lock
use atomicles.Lock.{globals}
use atomicles.Lock.Counter.{Ids, IsCounter, globals_of}
use atomicles.Lock.Init.{init-IsCounter}
use atomicles.Lock.Spec.{report_of}
use atomicles.Lock.Acquire.{lock-acquire, unlock-release}
use atomicles.Lock.Report.{status-report_of}
use atomicles.Lock.Session.{on, off, taken, given, session, session-answers}
use atomicles.Lock.Create.{create-IsCounter}
use atomicles.Tests.Worlds.{
  lasting, in_use_for_ever, lasting-IsCounter, empty, in_use, pair, ids, pair-IsCounter, set_id,
}

lock-acquire_example :
    Returns
      (λ e w'. (e ≡ pos 0) × IsCounter sim 5 (record pair { free = 0 }) ids w'.v)
      (Lock.lock ⦃k = sim⦄ globals 5 minus_one in_use)
unfolding sim-Laws key_of
lock-acquire_example =
    lock-acquire ⦃k = sim⦄ sim-Laws {key = 5} {c = pair} {i = ids} {w = in_use} pair-IsCounter refl

unlock-release_example :
    Returns
      (λ e w'. (e ≡ pos 0) × IsCounter sim 5 (record pair { free = 2 }) ids w'.v)
      (Lock.unlock ⦃k = sim⦄ globals 5 in_use)
unfolding sim-Laws key_of
unlock-release_example =
    unlock-release ⦃k = sim⦄ sim-Laws {key = 5} {c = pair} {i = ids} {w = in_use} pair-IsCounter

status-report_of_example :
    Returns
      (λ a w'. (a ≡ report_of pair 100) × IsCounter sim 5 pair ids w'.v)
      (Lock.status ⦃k = sim⦄ globals 5 in_use)
unfolding sim-Laws key_of
status-report_of_example =
    status-report_of ⦃k = sim⦄ sim-Laws {key = 5} {c = pair} {i = ids} {w = in_use} pair-IsCounter

init-IsCounter_example :
    Returns
      (λ a w'. (a ≡ (globals_of pair 100, object 5 set_id 1 2)) × IsCounter sim 5 pair ids w'.v)
      (Lock.init ⦃k = sim⦄ globals (object 5 set_id 1 1) in_use)
unfolding sim-Laws key_of
init-IsCounter_example =
    init-IsCounter ⦃k = sim⦄ sim-Laws {w = in_use} {key = 5} {c = pair} {i = ids} pair-IsCounter

create-IsCounter_example :
    Returns
      (λ r w'.
        (i : Ids) × (r ≡ pos 0)
        × IsCounter sim 5 (record { size = 3; free = 3; since = 100; lifetime = 60 }) i w'.v)
      (Lock.create ⦃k = sim⦄ 5 3 (pos 60) empty)
unfolding sim-Laws key_of
create-IsCounter_example =
    create-IsCounter ⦃k = sim⦄ sim-Laws {w = empty} 5 3 60 refl refl refl (omega arith)
      (omega arith)

session-answers_example :
    Returns
      (λ as_ w'.
        (as_ ≡ pos 0 ∷ pos 1 ∷ pos 0 ∷ pos 0 ∷ minus_one ∷ [])
        × IsCounter sim 5 (record lasting { free = 2 }) ids w'.v
        × (taken (on ∷ on ∷ off ∷ off ∷ off ∷ []) as_
            ≤ given (on ∷ on ∷ off ∷ off ∷ off ∷ []) as_ + 2))
      (session ⦃k = sim⦄ 5 (on ∷ on ∷ off ∷ off ∷ off ∷ []) in_use_for_ever)
unfolding sim-Laws key_of
session-answers_example =
    session-answers ⦃k = sim⦄ sim-Laws {w = in_use_for_ever} {key = 5} {c = lasting} {i = ids}
      (on ∷ on ∷ off ∷ off ∷ off ∷ []) refl lasting-IsCounter
