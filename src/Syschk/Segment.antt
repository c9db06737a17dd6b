-- ===== src/Syschk/Segment.antt =====
-- The segment in which chk_fork of src/syschk.c keeps the ids of the children, from when it is made
-- until it is taken away.
use atomicles.Base.{
  ℕ, ◌*◌, ◌≤◌, ◌≡◌, refl, ◌∙◌, ap, Bool, true, none, some, Option, List, arith, length, replicate,
}
use atomicles.Sys.{Kernel}
use atomicles.Sys.Run
use atomicles.Sys.Run.{Cmd, Returns, returns, ◌>>=◌}
use atomicles.Sys.View.{View}
use atomicles.Sys.Tables.{update_self}
use atomicles.Sys.Laws.{Laws}
use atomicles.Semaphore.Life.{object, fresh_set}
use atomicles.SharedMemory.{SharedMemory, guard_key}
use atomicles.SharedMemory.Access.{IsReady}
use atomicles.SharedMemory.Life.{mapped, with_segment, delete-without_segment}
use atomicles.Syschk.{Host, Reason}
use atomicles.Syschk.Messages.{Timeb, Chain, add_message}
use atomicles.Syschk.Fork.{Forks, Forked}
use atomicles.Syschk.Scanning.{ForkLaws, Words}
use atomicles.Syschk.Forking.{Reports}
use atomicles.Syschk.Prepare.{Control}
use atomicles.Syschk.Prepared.{Limits, ControlLaws, both}
use atomicles.Syschk.Checks.{Start, Progress, fork_name, note_forks}

-- The tables are as before, but for the time and for the processes that there are.
abbrev pub SameTables : (before after : View) → Type 0
SameTables v v' =
    (clock : ℕ) × (procs : ℕ → Bool) × (v' ≡ record v { clock = clock; procs = procs })

-- The children only wait, and nobody else uses the segment: while the process sleeps, and when it
-- signals its group, the tables stay as they are.
pub record Undisturbed {W : Type 0} (k : Kernel W) (f : Forks W) (view : W → View) : Type 0 where
  pub sleep_ok : (w : W) → Returns (λ _ w'. SameTables (view w) (view w')) (k.sleep 1 w)
  pub kill_ok :
      (w : W) → Returns (λ r w'. (r ≡ true) × SameTables (view w) (view w')) (f.kill_group w)

-- `ftime`, a `sigaction` that succeeds, and memory for a message.
pub record StartLaws {W K : Type 0} (s : Start W) (kept : W → K) : Type 0 where
  pub ftime_ok : (w : W) → Returns (λ _ w'. kept w' ≡ kept w) (s.ftime w)
  pub message_ok : (w : W) → Returns (λ r w'. (r ≡ true) × (kept w' ≡ kept w)) (s.new_message w)
  pub sigaction_ok : (w : W) → Returns (λ r w'. (r ≡ true) × (kept w' ≡ kept w)) (s.sigaction w)

-- A message of the fork check behind `msg`.
abbrev pub Notes : (msg : Chain) (limit most : ℕ) → Progress → Type 0
Notes msg limit most p =
    (start : Timeb) × (now : Timeb) × (reach : ℕ) × (reason : Reason) × (p.msg
      ≡ add_message msg fork_name start now limit reach reason)
    × (reach ≤ limit)
    × (reach ≤ most)

module _ {W : Type 0} ⦃k : Kernel W⦄ ⦃h : Host W⦄ ⦃f : Forks W⦄ ⦃c : Control W⦄ ⦃s : Start W⦄
    (laws : Laws k) (left : (ℕ → Bool) → ℕ) (forking : ForkLaws h f laws.view left)
    (quiet : Undisturbed k f laws.view) (limits : W → Limits)
    (control : ControlLaws c limits laws.view)
    (starting : StartLaws s (both limits laws.view)) where
  open laws use {view}

  -- A segment, its mapping and its guard that were not there before, and are not there behind.
  abbrev pub IsGone : (before after : View) → Type 0
  IsGone v v' =
      (id : ℕ) × (addr : ℕ) × (guard_id : ℕ) × (v.shms id ≡ none)
      × (v.sems guard_id ≡ none)
      × (v'.shms id ≡ none)
      × (v'.maps addr ≡ none)
      × (v'.sems guard_id ≡ none)

  pub new_Words :
      (v : View) (n id addr guard_id : ℕ)
      → IsReady
          (mapped 0 id (4 * n) addr guard_id)
          (object (guard_key 0) guard_id 1 1)
          addr
          (fresh_set 1 1 v.clock)
          (record { words = replicate n 0 })
          (with_segment laws v 0 n id addr guard_id)
  new_Words v n id addr guard_id = record {
    guarded = refl;
    binary = refl;
    exists = update_self v.sems guard_id (some (fresh_set 1 1 v.clock));
    free = refl;
    mapped = refl;
    points = update_self v.maps addr (some id);
    holds = update_self v.shms id (some (record { words = replicate n 0 }));
  }

  -- The object that was made, from its ids, and its words.
  module _ (v : View) (n id addr guard_id : ℕ) where
    abbrev pub children : SharedMemory
    children = mapped 0 id (4 * n) addr guard_id

    abbrev pub ReadyWords : List ℕ → View → Type 0
    ReadyWords ws =
        Words laws left forking children (object (guard_key 0) guard_id 1 1) addr
          (fresh_set 1 1 v.clock) ws

    ReadyWords-SameTables :
        (ws : List ℕ) (v1 v2 : View) → ReadyWords ws v1 → SameTables v1 v2 → ReadyWords ws v2
    ReadyWords-SameTables ws v1 v2 ready (clock, procs, same) = rw same (record {
      guarded = ready.guarded;
      binary = ready.binary;
      exists = ready.exists;
      free = ready.free;
      mapped = ready.mapped;
      points = ready.points;
      holds = ready.holds;
    })

    -- So many words are still there.
    abbrev pub Still : ℕ → W → Type 0
    Still size w = (ws : List ℕ) × (length ws ≡ size) × ReadyWords ws (view w)

    pub sleep-Still :
        (w : W) (ws : List ℕ)
        → ReadyWords ws (view w)
        → Returns (λ _ w'. Still (length ws) w') (k.sleep 1 w)
    sleep-Still w ws ready =
        Run.mono (quiet.sleep_ok w)
          λ _ w' same. (ws, refl, ReadyWords-SameTables ws (view w) (view w') ready same)

    pub kill-Still :
        (w : W) (size : ℕ)
        → Still size w
        → Returns (λ r w'. (r ≡ true) × Still size w') (f.kill_group w)
    kill-Still w size (ws, long, ready) =
        Run.mono (quiet.kill_ok w)
          λ r w' (e, same). (e, (ws, long, ReadyWords-SameTables ws (view w) (view w') ready same))

    -- Behind do_fork: the message is added, and the segment taken away.
    pub note_forks_lem :
        (w : W) (t : Timeb) (msg : Chain) (most : ℕ) (r : Forked)
        → Reports laws left forking children
            (object (guard_key 0) guard_id 1 1)
            addr
            (fresh_set 1 1 v.clock)
            n
            most
            r
            w
        → Still n w
        → v.shms id ≡ none
        → v.sems guard_id ≡ none
        → Returns
            (λ r' w'.
              (p : Progress) × (r' ≡ some p)
              × (p.code ≡ 0)
              × Notes msg n most p
              × IsGone v (view w'))
            (note_forks children t n msg r w)
    unfolding note_forks
    note_forks_lem w t msg most r (reach, reason, clock, e, low, few) (ws, long, ready) new1 new2 =
        rw e (
          Run.bind (starting.message_ok w) λ _ w0 (granted, same0). rw granted (
            Run.bind (starting.ftime_ok w0) λ now w1 same1.
              let same : both limits view w1 ≡ both limits view w = same1 ∙ same0 in
              Run.bind
                (delete-without_segment laws {w = w1} 0 id (4 * n) addr guard_id
                  {seg = record { words = ws }} {s = fresh_set 1 1 v.clock}
                  (rw (ap (λ b. b.1) same) ready.exists) (rw (ap (λ b. b.1) same) ready.holds)
                  (rw (ap (λ b. b.1) same) ready.points) (omega (arith, long)))
                λ _ w2 (_, gone). returns (
                  record {
                    code = 0;
                    msg = add_message msg fork_name t now n reach reason;
                    clock = clock;
                  },
                  refl,
                  refl,
                  (t, now, reach, reason, refl, low, few),
                  (
                    id,
                    addr,
                    guard_id,
                    new1,
                    new2,
                    rw gone (update_self (view w1).shms id none),
                    rw gone (update_self (view w1).maps addr none),
                    rw gone (update_self (view w1).sems guard_id none),
                  ),
                )))

  -- What chk_fork ends with, where the tables were `v` before it.
  abbrev pub Checks : (v : View) (msg : Chain) (lim : ℕ) → Option Progress → W → Type 0
  Checks v msg lim r w' =
      (p : Progress) × (r ≡ some p)
      × (p.code ≡ 0)
      × Notes msg lim (left v.procs) p
      × IsGone v (view w')
