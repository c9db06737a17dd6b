-- ===== src/Semaphore/Locking.antt =====
-- Semaphore$lock and Semaphore$unlock: what they do to the value of a semaphore.
use atomicles.Base.{
  ℕ, zero, suc, ◌≤◌, ◌<◌, ◌≡◌, refl, ◌∙◌, ap, Bool, some, get_elem?, get_elem?-set_self, set-set,
  set-get_elem?,
}
use atomicles.Base.Int.{ℤ, pos, negsuc, minus_one, sub_ℕ, sub_ℕ-positive, sub_ℕ-not_positive}
use atomicles.Sys.{Kernel}
use atomicles.Sys.Run
use atomicles.Sys.Run.{Returns, returns, done, ◌>>◌}
use atomicles.Sys.View.{SemSet, put_set, set_value}
use atomicles.Sys.Tables.{update_self, put_set-back}
use atomicles.Sys.Laws.{Laws, max_value, Answers, Leaves}
use atomicles.Semaphore.{Semaphore, lock, used, release, unlock}

-- The timeouts that make an attempt: -1, 0 and any number of seconds.
abbrev pub IsTimeout : ℤ → Type 0
IsTimeout (pos n) = Unit
IsTimeout (negsuc zero) = Unit
IsTimeout (negsuc (suc n)) = ⊥

module _ {W : Type 0} ⦃k : Kernel W⦄ (laws : Laws k) where
  open laws use {view}

  -- The object's set is in the kernel, and semaphore `i` of it has the value `v`.
  pub record Holds (this : Semaphore) (i : ℕ) (w : W) (s : SemSet) (v : ℕ) : Type 0 where
    pub exists : (view w).sems this.id ≡ some s
    pub value : get_elem? s.values i ≡ some v

  -- A value that is set is the value then.
  pub Holds-set_value :
      {this : Semaphore} {i : ℕ} {w w' : W} {s : SemSet} {v : ℕ} (n : ℕ)
      → Holds this i w s v
      → view w' ≡ put_set (view w) this.id (set_value s i n)
      → Holds this i w' (set_value s i n) n
  Holds-set_value {this} {i} {w} {s} n h after = record {
    exists = rw after (update_self (view w).sems this.id (some (set_value s i n)));
    value = get_elem?-set_self s.values i n h.value;
  }

  module _ {this : Semaphore} {i : ℕ} {w : W} {s : SemSet} where
    -- Without waiting, a semaphore with nothing left gives 1, and nothing changes.
    pub lock-again :
        (persist : Bool)
        → Holds this i w s 0
        → Returns (Answers view w (pos 1)) (lock this i persist minus_one w)
    unfolding lock
    lock-again persist h =
        Run.bind (laws.semop_again w i _ h.exists h.value)
          λ r w' (e, same). rw e (returns (refl, same))

  module _ {this : Semaphore} {i : ℕ} {w : W} {s : SemSet} {v : ℕ} where
    -- A free semaphore is taken at once, whatever the timeout: 0, and the value goes down by one.
    pub lock-take :
        (persist : Bool) (timeout : ℤ)
        → IsTimeout timeout
        → Holds this i w s (suc v)
        → Returns
            (Leaves view (put_set (view w) this.id (set_value s i v)) (pos 0))
            (lock this i persist timeout w)
    unfolding lock
    lock-take persist (pos zero) t h =
        Run.bind (laws.semop_take w i _ _ h.exists h.value)
          λ r w' (e, same). rw e (returns (refl, same))
    lock-take persist (pos (suc n)) t h =
        Run.bind (laws.semop_take w i _ _ h.exists h.value)
          λ r w' (e, same). rw e (returns (refl, same))
    lock-take persist (negsuc zero) t h =
        Run.bind (laws.semop_take w i _ _ h.exists h.value)
          λ r w' (e, same). rw e (returns (refl, same))
    lock-take persist (negsuc (suc n)) t h = absurd t

    pub used_lem : Holds this i w s v → Returns (Answers view w (sub_ℕ this.size v)) (used this i w)
    unfolding used
    used_lem h =
        Run.bind (laws.getval_ok w i h.exists h.value) λ r w' (e, same). rw e (returns (refl, same))

    -- With fewer than `size` free at the look, one more is freed, whatever is free by then.
    pub release-give :
        (persist : Bool) (seen : ℕ)
        → Holds this i w s v
        → seen < this.size
        → v < max_value
        → Returns
            (Leaves view (put_set (view w) this.id (set_value s i (suc v))) (pos 0))
            (release this i persist (sub_ℕ this.size seen) w)
    unfolding release
    release-give persist seen h below room = rw (sub_ℕ-positive this.size seen below) (
        Run.bind (laws.semop_give w {s = s} i _ h.exists h.value room)
          λ r w1 (e, after). rw e (returns (refl, after)))

  module _ {this : Semaphore} {i : ℕ} {w : W} {s : SemSet} {v : ℕ} where
    -- While fewer than `size` are free, an unlock frees one more and answers 0.
    pub unlock-give :
        (persist : Bool)
        → Holds this i w s v
        → v < this.size
        → v < max_value
        → Returns
            (Leaves view (put_set (view w) this.id (set_value s i (suc v))) (pos 0))
            (unlock this i persist w)
    unfolding unlock
    unlock-give persist h below room = Run.bind (used_lem h) λ u w1 (e, same). rw e (
        Run.mono
          (release-give {this = this} {s = s} persist v
            (record { exists = rw same h.exists; value = h.value }) below room)
          λ r w2 (e', after).
            (e', after ∙ ap (λ t. put_set t this.id (set_value s i (suc v))) same))

    -- With all of them free an unlock answers -1 and changes nothing.
    pub unlock-full :
        (persist : Bool)
        → Holds this i w s v
        → this.size ≤ v
        → Returns (Answers view w minus_one) (unlock this i persist w)
    unfolding unlock release
    unlock-full persist h full =
        Run.bind (used_lem h)
          λ u w1 (e, same). rw (e, sub_ℕ-not_positive _ _ full) (returns (refl, same))

  module _ {this : Semaphore} {i : ℕ} {w : W} {s : SemSet} {v : ℕ} where
    -- For a timeout of -1 or more, a semaphore with a unit free, and an object whose size covers
    -- the units: a lock and then an unlock return, the unlock answers 0, and every table of the
    -- kernel is as it was.
    pub unlock-lock :
        (persist : Bool) (timeout : ℤ)
        → IsTimeout timeout
        → Holds this i w s (suc v)
        → suc v ≤ this.size
        → suc v ≤ max_value
        → Returns
            (Answers view w (pos 0))
            ((lock this i persist timeout >> unlock this i persist) w)
    unlock-lock persist timeout t h below room =
        Run.bind (lock-take persist timeout t h) λ e w1 (_, mid).
          Run.mono (unlock-give {s = set_value s i v} persist (Holds-set_value v h mid) below room)
            λ e' w2 (zero_, after). (
              zero_,
              after
                  ∙ ap (λ t. put_set t this.id (set_value (set_value s i v) i (suc v))) mid
                  ∙ rw (set-set, set-get_elem? s.values i h.value)
                      (put_set-back (view w) this.id (set_value s i v) h.exists),
            )
