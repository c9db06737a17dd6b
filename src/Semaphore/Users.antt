-- ===== src/Semaphore/Users.antt =====
-- Several processes with one semaphore of src/Semaphore.c: each locks it, and gives it back with
-- Semaphore$unlock only when it holds it. Their system calls come in any order, so that others act
-- between the look and the give of an unlock.
use atomicles.Base.{
  ℕ, zero, suc, ◌+◌, ◌≤◌, ◌<◌, ◌≡◌, sym, ap, ◌∙◌, subst, Bool, some, List, arith, get_elem?, set,
}
use mathlib.Core.Option.{some_inj}
use atomicles.Base.Int.{ℤ, pos, minus_one}
use atomicles.Sys.{Kernel}
use atomicles.Sys.Run
use atomicles.Sys.Run.{Run, done, Returns, returns}
use atomicles.Sys.View.{View, SemSet, set_value}
use atomicles.Sys.Laws.{Laws, max_value}
use atomicles.Semaphore.{Semaphore, used, release, lock}
use atomicles.Semaphore.Locking.{
  IsTimeout, Holds, Holds-set_value, lock-take, lock-again, used_lem, release-give,
}
use atomicles.Semaphore.Places.{
  Place, outside, holding, looked, inside, inside-set, AllFit, AllFit-set, AllFit-get_elem?,
  AllFit-outside,
}

module _ {W : Type 0} ⦃k : Kernel W⦄ (laws : Laws k) (this : Semaphore) (i : ℕ) where
  open laws use {view}

  -- The world and the places of the processes.
  pub record State : Type 0 where
    pub world : W
    pub places : List Place

  -- A system call of one process. A lock is taken when a unit is free; without one it waits, or
  -- answers at once. Anything that leaves the set alone can happen in between.
  pub data Step : State → State → Type 0 where
    take :
        {w w' : W} {ps : List Place} (p v : ℕ) (s : SemSet) (e : ℤ) (persist : Bool) (timeout : ℤ)
        → IsTimeout timeout
        → get_elem? ps p ≡ some outside
        → Holds laws this i w s (suc v)
        → lock this i persist timeout w ≡ done e w'
        → Step
            (record { world = w; places = ps })
            (record { world = w'; places = set ps p holding })
    miss :
        {w w' : W} {ps : List Place} (s : SemSet) (e : ℤ) (persist : Bool)
        → Holds laws this i w s 0
        → lock this i persist minus_one w ≡ done e w'
        → Step (record { world = w; places = ps }) (record { world = w'; places = ps })
    look :
        {w w' : W} {ps : List Place} (p : ℕ) (seen : ℤ)
        → get_elem? ps p ≡ some holding
        → used this i w ≡ done seen w'
        → Step
            (record { world = w; places = ps })
            (record { world = w'; places = set ps p (looked seen) })
    give :
        {w w' : W} {ps : List Place} (p : ℕ) (seen e : ℤ) (persist : Bool)
        → get_elem? ps p ≡ some (looked seen)
        → release this i persist seen w ≡ done e w'
        → Step
            (record { world = w; places = ps })
            (record { world = w'; places = set ps p outside })
    elsewhere :
        {w w' : W} {ps : List Place}
        → (view w').sems this.id ≡ (view w).sems this.id
        → Step (record { world = w; places = ps }) (record { world = w'; places = ps })

  pub data Reach (start : State) : State → Type 0 where
    here : Reach start start
    after : {t u : State} → Reach start t → Step t u → Reach start u

  -- The free units and the processes that have one make up the size.
  record Shared (t : State) : Type 0 where
    s : SemSet
    v : ℕ
    held : Holds laws this i t.world s v
    sum : v + inside t.places ≡ this.size
    fit : AllFit this.size t.places

  Holds-unique :
      {w : W} {s s' : SemSet} {v v' : ℕ}
      → Holds laws this i w s v
      → Holds laws this i w s' v'
      → v ≡ v'
  Holds-unique {s} {s'} {v} h h' =
      let e : s ≡ s' = some_inj.0 (sym h.exists ∙ h'.exists) in
      some_inj.0 (sym h.value ∙ ap (λ (t : SemSet). get_elem? t.values i) e ∙ h'.value)

  Holds-same :
      {w w' : W} {s : SemSet} {v : ℕ}
      → (view w').sems this.id ≡ (view w).sems this.id
      → Holds laws this i w s v
      → Holds laws this i w' s v
  Holds-same same h = record { exists = same ∙ h.exists; value = h.value }

  Shared-step : {t u : State} → this.size ≤ max_value → Step t u → Shared t → Shared u
  Shared-step small (take p v s e persist timeout tries at free locked) shared =
      let (_, taken) = Run.Returns-at (lock-take laws persist timeout tries free) locked in
      let all : shared.v ≡ suc v = Holds-unique shared.held free in
      record {
        s = set_value s i v;
        v = v;
        held = Holds-set_value laws v free taken;
        sum = omega (arith, all, shared.sum, inside-set _ p holding at);
        fit = AllFit-set this.size _ p holding shared.fit tt;
      }
  Shared-step small (miss s e persist busy missed) shared =
      let (_, same) = Run.Returns-at (lock-again laws persist busy) missed in
      record {
        s = shared.s;
        v = shared.v;
        held = Holds-same (ap (λ (v : View). v.sems this.id) same) shared.held;
        sum = shared.sum;
        fit = shared.fit;
      }
  Shared-step small (look p seen at saw) shared =
      let (what, same) = Run.Returns-at (used_lem laws shared.held) saw in
      let moved = inside-set _ p (looked seen) at in
      record {
        s = shared.s;
        v = shared.v;
        held = Holds-same (ap (λ (v : View). v.sems this.id) same) shared.held;
        sum = omega (arith, shared.sum, moved);
        fit =
            AllFit-set this.size _ p (looked seen) shared.fit
              (shared.v, what, omega (arith, shared.sum, inside-set _ p outside at));
      }
  Shared-step small (give {w} {w'} p seen e persist at gave) shared =
      let (v, what, below) = AllFit-get_elem? this.size _ p shared.fit at in
      let moved = inside-set _ p outside at in
      let (_, given) =
        Run.Returns-at
          (release-give laws {this = this} {s = shared.s} persist v shared.held below
            (omega (arith, shared.sum, moved, small)))
          (subst (λ z. release this i persist z w ≡ done e w') what gave) in
      record {
        s = set_value shared.s i (suc shared.v);
        v = suc shared.v;
        held = Holds-set_value laws (suc shared.v) shared.held given;
        sum = omega (arith, shared.sum, moved);
        fit = AllFit-set this.size _ p outside shared.fit tt;
      }
  Shared-step small (elsewhere same) shared = record {
    s = shared.s;
    v = shared.v;
    held = Holds-same same shared.held;
    sum = shared.sum;
    fit = shared.fit;
  }

  Shared-reach : {t u : State} → this.size ≤ max_value → Shared t → Reach t u → Shared u
  Shared-reach small shared here = shared
  Shared-reach small shared (after reached step) =
      Shared-step small step (Shared-reach small shared reached)

  lock-free :
      (w : W) (s : SemSet) (v : ℕ) (persist : Bool) (timeout : ℤ)
      → IsTimeout timeout
      → Holds laws this i w s v
      → 0 < v
      → Returns (λ e _. e ≡ pos 0) (lock this i persist timeout w)
  lock-free w s zero persist timeout tries held positive = absurd (omega (arith, positive))
  lock-free w s (suc v) persist timeout tries held positive =
      Run.mono (lock-take laws persist timeout tries held) λ e w' (taken, _). taken

  -- Processes that give a semaphore back only when they hold it, whose system calls come in any order,
  -- where nobody else changes the set: from a start where all units are free, up to SEMVMX of them,
  -- and nobody holds one, in every state that is reached no more processes hold a unit than the size
  -- says. The unlock of a process that has looked answers 0, whatever the others did since it looked,
  -- and with a unit left a lock takes it at once and answers 0.
  pub inside-Reach :
      {t u : State} {s : SemSet}
      → this.size ≤ max_value
      → Holds laws this i t.world s this.size
      → inside t.places ≡ 0
      → Reach t u
      → (inside u.places ≤ this.size)
        × ((p : ℕ) (seen : ℤ) (persist : Bool)
            → get_elem? u.places p ≡ some (looked seen)
            → Returns (λ e _. e ≡ pos 0) (release this i persist seen u.world))
        × ((persist : Bool) (timeout : ℤ)
            → IsTimeout timeout
            → inside u.places < this.size
            → Returns (λ e _. e ≡ pos 0) (lock this i persist timeout u.world))
  inside-Reach {t} {u} {s} small free nobody reached =
      let first : Shared t = record {
        s = s;
        v = this.size;
        held = free;
        sum = omega (arith, nobody);
        fit = AllFit-outside this.size t.places nobody;
      } in
      let shared : Shared u = Shared-reach small first reached in
      (
        omega (arith, shared.sum),
        (λ p seen persist at.
            let (v, what, below) = AllFit-get_elem? this.size u.places p shared.fit at in
            rw what (
              Run.mono
                (release-give laws {this = this} {s = shared.s} persist v shared.held below
                  (omega (arith, shared.sum, small, inside-set u.places p outside at)))
                λ e w' (zero_, _). zero_)),
        (λ persist timeout tries room.
            lock-free u.world shared.s shared.v persist timeout tries shared.held
              (omega (arith, shared.sum, room))),
      )
