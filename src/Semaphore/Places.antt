-- ===== src/Semaphore/Places.antt =====
-- Where the processes are that share a semaphore of src/Semaphore.c.
use atomicles.Base.{ℕ, zero, suc, ◌+◌, ◌<◌, ◌≡◌, subst, some, List, [], ◌∷◌, arith, get_elem?, set}
use mathlib.Core.Option.{some_inj}
use atomicles.Base.Int.{ℤ, sub_ℕ}

-- Where a process is: without the semaphore, with it, or within Semaphore$unlock, behind the look at
-- the units in use.
pub data Place : Type 0 where
  outside holding : Place
  looked : (seen : ℤ) → Place

abbrev pub weight : Place → ℕ
weight outside = 0
weight holding = 1
weight (looked seen) = 1

-- How many processes have a unit.
abbrev pub inside : List Place → ℕ
inside [] = 0
inside (x ∷ ps) = weight x + inside ps

pub inside-set :
    (ps : List Place) (p : ℕ) (x : Place) {old : Place}
    → get_elem? ps p ≡ some old
    → inside (set ps p x) + weight old ≡ inside ps + weight x
inside-set [] p x at = ground (arith, at)
inside-set (y ∷ ps) zero x at = ground (arith, at)
inside-set (y ∷ ps) (suc p) x at = omega (arith, inside-set ps p x at)

-- What a process has seen was a value with a unit in use.
abbrev pub FitsIn : ℕ → Place → Type 0
FitsIn size outside = Unit {0}
FitsIn size holding = Unit {0}
FitsIn size (looked seen) = (v : ℕ) × (seen ≡ sub_ℕ size v) × (v < size)

abbrev pub AllFit : ℕ → List Place → Type 0
AllFit size [] = Unit {0}
AllFit size (x ∷ ps) = FitsIn size x × AllFit size ps

pub AllFit-set :
    (size : ℕ) (ps : List Place) (p : ℕ) (x : Place)
    → AllFit size ps
    → FitsIn size x
    → AllFit size (set ps p x)
AllFit-set size [] p x all fit = tt
AllFit-set size (y ∷ ps) zero x (first, all) fit = (fit, all)
AllFit-set size (y ∷ ps) (suc p) x (first, all) fit = (first, AllFit-set size ps p x all fit)

pub AllFit-get_elem? :
    (size : ℕ) (ps : List Place) (p : ℕ) {x : Place}
    → AllFit size ps
    → get_elem? ps p ≡ some x
    → FitsIn size x
AllFit-get_elem? size [] p all at = absurd (ground (arith, at))
AllFit-get_elem? size (y ∷ ps) zero (first, all) at = subst (FitsIn size) ((some_inj).0 at) first
AllFit-get_elem? size (y ∷ ps) (suc p) (first, all) at = AllFit-get_elem? size ps p all at

pub AllFit-outside : (size : ℕ) (ps : List Place) → inside ps ≡ 0 → AllFit size ps
AllFit-outside size [] none_in = tt
AllFit-outside size (outside ∷ ps) none_in = (tt, AllFit-outside size ps (omega (arith, none_in)))
AllFit-outside size (holding ∷ ps) none_in = absurd (omega (arith, none_in))
AllFit-outside size (looked seen ∷ ps) none_in = absurd (omega (arith, none_in))
