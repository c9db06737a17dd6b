-- ===== src/Tests/Users.antt =====
-- Two processes that share a semaphore of size 2 in the small kernel: both take a unit, and the first
-- one looks at the units in use.
use atomicles.Base.{ℕ, ◌≤◌, ◌<◌, ◌≡◌, refl, Bool, some, List, [], ◌∷◌, arith, get_elem?, true}
use atomicles.Base.Int.{ℤ, pos, minus_one}
use atomicles.Sys.Run.{Returns}
use atomicles.Sys.View.{SemSet}
use atomicles.Sys.Sim.{World, sim, key_of, with_set}
use atomicles.Sys.Sim.Lawful.{sim-Laws}
use atomicles.Semaphore as Sem
use atomicles.Semaphore.Locking.{IsTimeout}
use atomicles.Semaphore.Places.{Place, outside, holding, looked, inside}
use atomicles.Semaphore.Users.{State, Reach, here, after, take, look, inside-Reach}
use atomicles.Tests.Worlds.{in_use, pair_object, set_id}

abbrev values : ℕ → SemSet
values n = record { values = n ∷ []; ctime = 90 }

abbrev free_world : World
free_world = with_set in_use set_id (values 2)

abbrev one_taken : World
one_taken = with_set free_world set_id (values 1)

abbrev both_taken : World
both_taken = with_set one_taken set_id (values 0)

abbrev at_places : World → List Place → State ⦃k = sim⦄ sim-Laws pair_object 0
at_places w ps = record { world = w; places = ps }

reached :
    Reach ⦃k = sim⦄ sim-Laws pair_object 0
      (at_places free_world (outside ∷ outside ∷ []))
      (at_places both_taken (looked (pos 2) ∷ holding ∷ []))
unfolding sim-Laws key_of Sem.lock Sem.used
reached =
    after
      (after
        (after here (
          take 0 1 (values 2) (pos 0) true minus_one tt refl
            (record { exists = refl; value = refl }) refl))
        (take 1 0 (values 1) (pos 0) true (pos 0) tt refl (record { exists = refl; value = refl })
          refl))
      (look 0 (pos 2) refl refl)

inside-Reach_example :
    (inside (looked (pos 2) ∷ holding ∷ []) ≤ 2)
    × ((p : ℕ) (seen : ℤ) (persist : Bool)
        → get_elem? (looked (pos 2) ∷ holding ∷ []) p ≡ some (looked seen)
        → Returns (λ e _. e ≡ pos 0) (Sem.release ⦃k = sim⦄ pair_object 0 persist seen both_taken))
    × ((persist : Bool) (timeout : ℤ)
        → IsTimeout timeout
        → inside (looked (pos 2) ∷ holding ∷ []) < 2
        → Returns (λ e _. e ≡ pos 0) (Sem.lock ⦃k = sim⦄ pair_object 0 persist timeout both_taken))
unfolding sim-Laws key_of
inside-Reach_example =
    inside-Reach ⦃k = sim⦄ sim-Laws pair_object 0 {s = values 2} (omega arith)
      (record { exists = refl; value = refl }) refl reached
