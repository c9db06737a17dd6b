-- ===== src/Daemonize/Channel.antt =====
-- The command of src/daemonize.c from its command line to the words of a channel: attaching, and what
-- is done with the object.
use atomicles.Base.{ℕ, ◌<◌, ◌≡◌, refl, ◌∙◌, true, some, [], ◌∷◌, ltb, length, get_elem?, arith}
use atomicles.Base.Int.{pos, ltb_ℤ, to_u32}
use atomicles.Sys.{Kernel}
use atomicles.Sys.Processes.{Processes, SignalLaws}
use atomicles.Sys.Run
use atomicles.Sys.Run.{Returns, returns}
use atomicles.Sys.View.{View, SemSet, attach_at}
use atomicles.Sys.Tables.{update_self}
use atomicles.Sys.Laws.{Laws}
use atomicles.Semaphore.{sem_key}
use atomicles.SharedMemory.{shm_key, guard_key}
use atomicles.SharedMemory.Life.{attach-attach_at}
use atomicles.Daemonize.Command.{code}
use atomicles.Daemonize.Words.{Shared, IsShared, words_of}
use atomicles.Daemonize.Report.{status-verdict_of}
use atomicles.Daemonize.Main.{status_on, with_key, apply_switch, apply_switches, run_choice, main}

module _ {W : Type 0} ⦃k : Kernel W⦄ ⦃p : Processes W⦄ (laws : Laws k)
    (signals : SignalLaws p laws.view) where
  open laws use {view}

  attached :
      (v : View) (key id junk addr guard_id : ℕ) (s : SemSet) (x : Shared)
      → v.shms id ≡ some (record { words = words_of x })
      → v.sems guard_id ≡ some s
      → get_elem? s.values 0 ≡ some 1
      → IsShared key id junk addr guard_id s x (attach_at v addr id)
  attached v key id junk addr guard_id s x there kept free = record {
    guarded = refl;
    binary = refl;
    exists = kept;
    free = free;
    mapped = refl;
    points = update_self v.maps addr (some id);
    holds = there;
  }

  module _ (rounds argc key : ℕ) (several : 2 < argc) (positive : 0 < key) where
    -- For a positive key, with more than two arguments, where the words of a channel are there with
    -- their guard free: `daemonize --status` returns 0, whatever the words say, and the tables are as
    -- before but for one more mapping of the segment.
    pub main-attach_at :
        (w : W) (id guard_id : ℕ) (s : SemSet) (x : Shared)
        → (view w).shm_ids (shm_key k key) ≡ some id
        → (view w).shms id ≡ some (record { words = words_of x })
        → (view w).sem_ids (sem_key k (guard_key key)) ≡ some guard_id
        → (view w).sems guard_id ≡ some s
        → length s.values ≡ 1
        → get_elem? s.values 0 ≡ some 1
        → Returns
            (λ r w'. (r ≡ code (pos 0)) × ((addr : ℕ) × (view w' ≡ attach_at (view w) addr id)))
            (main rounds argc (status_on (pos key) ∷ []) [] w)
    unfolding main apply_switches apply_switch with_key run_choice
    main-attach_at w id guard_id s x bound there guarded kept one free =
        let enough : ltb 2 argc ≡ true = ground (arith, several) in
        let given : ltb_ℤ (pos 0) (pos key) ≡ true = ground (arith, positive) in
        rw (enough, given)
          (Run.bind
            (attach-attach_at laws {w = w} {key = key} {id = id} {guard_id = guard_id}
              {seg = record { words = words_of x }} {s = s} bound there guarded kept one)
            λ _ w1 (junk, addr, e1, mapped_). rw e1 (
              Run.bind
                (status-verdict_of laws signals key id junk addr guard_id (to_u32 (pos key)) {s = s}
                  {x = x} {w = w1}
                  (rw mapped_ (attached (view w) key id junk addr guard_id s x there kept free)))
                λ r w2 (e2, same). rw e2 (returns (refl, (addr, same ∙ mapped_)))))
