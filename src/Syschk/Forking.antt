-- ===== src/Syschk/Forking.antt =====
-- `do_fork` of src/syschk.c on a system where some number of processes can still be forked.
use atomicles.Base.{
  ℕ, zero, suc, ◌+◌, ◌^◌, ◌≤◌, ◌<◌, ◌≡◌, refl, sym, Bool, Bool-cases, inl, inr, true, List, arith,
  ltb, length, set, length-set,
}
use atomicles.Base.Int.{ℤ, ltb_ℤ}
use atomicles.Sys.{Kernel}
use atomicles.Sys.Run
use atomicles.Sys.Run.{Cmd, Returns, returns}
use atomicles.Sys.View.{View, SemSet}
use atomicles.Sys.Laws.{Laws}
use atomicles.Semaphore.{Semaphore}
use atomicles.SharedMemory.{SharedMemory}
use atomicles.SharedMemory.Access.{written-IsReady}
use atomicles.Syschk.{Host, Clock, Reason, threshold, unknown, Answer, got, refused}
use atomicles.Syschk.Open.{is_unknown}
use atomicles.Syschk.Opening.{performance_lem}
use atomicles.Syschk.Noted.{AreNoted, AreNoted-set}
use atomicles.Syschk.Fork.{
  Forks, Forked, reported, fork_reason, verify, finish_forks, clean_forks, note_child, fork_next,
  fork_rounds, do_fork,
}
use atomicles.Syschk.Scanning.{Splits, ForkLaws, Words, scan_lem}

module _ {W : Type 0} ⦃k : Kernel W⦄ ⦃h : Host W⦄ ⦃f : Forks W⦄ (laws : Laws k)
    (left : (ℕ → Bool) → ℕ) (forking : ForkLaws h f laws.view left) (this : SharedMemory)
    (g : Semaphore) (addr : ℕ) (s : SemSet) where
  open laws use {view}

  -- The words are mapped, with their guard free.
  abbrev AreMapped : List ℕ → View → Type 0
  AreMapped ws = Words laws left forking this g addr s ws

  -- A report of no more than `lim` and `most`.
  abbrev pub Reports : (lim most : ℕ) → Forked → W → Type 0
  Reports lim most r w =
      (reach : ℕ) × (reason : Reason) × (c : Clock) × (r ≡ reported reach reason c)
      × (reach ≤ lim)
      × (reach ≤ most)

  -- What the process relies on at the end, when it sleeps with the words as it left them: `P` holds
  -- when it wakes up, and `Q` behind the signal.
  module _ (P Q : ℕ → W → Type 0)
      (sleeps : (w : W) (ws : List ℕ)
        → AreMapped ws (view w)
        → Returns (λ _ w'. P (length ws) w') (k.sleep 1 w))
      (kills : (w : W) (n : ℕ)
        → P n w
        → Returns (λ r w'. (r ≡ true) × Q n w') (f.kill_group w)) where
    abbrev Ends : (lim most : ℕ) → Forked → W → Type 0
    Ends lim most r w = Reports lim most r w × Q lim w

    clean_lem :
        (w : W) (ws : List ℕ) (passes forked lim most : ℕ) (reason : Reason) (c : Clock)
        → AreNoted ws forked
        → AreMapped ws (view w)
        → length ws ≡ lim
        → forked ≤ lim
        → lim ≤ 2 ^ 16
        → forked ≤ most
        → Returns (Ends lim most) (clean_forks this (suc passes) forked reason c w)
    unfolding clean_forks verify finish_forks
    clean_lem w ws passes forked lim most reason c noted ready size fits short few =
        Run.bind {P = λ all w'. (all ≡ true) × P lim w'}
          (Run.bind
            (scan_lem laws left forking this g addr s forked 0 w ws (omega (arith, fits, short))
              (λ i below. noted i (omega (arith, below))) ready)
            λ b w1 (all, same).
              Run.bind (sleeps w1 ws (rw same ready))
                λ _ w2 woken. rw all (returns (refl, rw (sym size) woken)))
          λ all w3 (e, woken). rw e (
            Run.bind (kills w3 lim woken) λ killed w4 (e4, left_).
              rw e4 (returns ((forked, reason, c, refl, fits, few), left_)))

    module _ (limit : ℤ) (lim most passes : ℕ) (short : lim ≤ 2 ^ 16) where
      abbrev Rest : (before : ℕ → Clock → Cmd W Forked) → ℕ → ℕ → Type 0
      Rest rest after bound =
          (w : W) (ws : List ℕ) (forked : ℕ) (c : Clock)
          → AreNoted ws forked
          → AreMapped ws (view w)
          → length ws ≡ lim
          → forked ≤ lim
          → left (view w).procs ≡ after
          → forked + after ≤ bound
          → Returns (Ends lim most) (rest forked c w)

      note_child_lem :
          (rest : ℕ → Clock → Cmd W Forked) (w : W) (ws : List ℕ) (forked pid after : ℕ) (c : Clock)
          → Rest rest after most
          → AreNoted ws forked
          → AreMapped ws (view w)
          → length ws ≡ lim
          → forked ≤ lim
          → left (view w).procs ≡ after
          → forked + suc after ≤ most
          → suc pid < 2 ^ 31
          → Returns
              (Ends lim most)
              (note_child this limit lim (suc passes) rest forked c (suc pid) w)
      unfolding note_child
      note_child_lem rest w ws forked pid after c further noted ready size fits remain few small =
          elim (Bool-cases (ltb forked lim)) [
            | inr full ↦ rw full (
                clean_lem w ws passes forked lim most unknown c noted ready size fits short
                  (omega (arith, few)))
            | inl room ↦
                let below : forked < lim = ground (arith, room) in
                let inside : forked < length ws = omega (arith, below, size) in
                rw room (
                  Run.bind
                    (written-IsReady laws ws forked (suc pid) ready (omega (arith, below, short))
                      (omega (arith, small)) inside)
                    λ _ w1 (ready1, stored).
                      Run.bind (performance_lem view forking.time_ok c forked 1)
                        λ (performed, c') w2 same.
                          let ws' = set ws forked (suc pid) in
                          let noted' : AreNoted ws' (forked + 1) =
                            AreNoted-set ws forked pid inside noted in
                          let earlier : AreNoted ws' forked =
                            λ i low. noted' i (omega (arith, low)) in
                          let ready' : AreMapped ws' (view w2) = rw same ready1 in
                          let size' : length ws' ≡ lim = rw (length-set ws forked (suc pid)) size in
                          let remain' : left (view w2).procs ≡ after = rw (same, stored) remain in
                          elim (Bool-cases (is_unknown performed)) [
                            | inl early ↦ rw early (
                                further w2 ws' (forked + 1) c' noted' ready' size'
                                  (omega (arith, below)) remain' (omega (arith, few)))
                            | inr measured ↦
                                rw measured (elim (Bool-cases (ltb_ℤ performed limit)) [
                                  | inl slow ↦ rw slow (
                                      clean_lem w2 ws' passes forked lim most threshold c' earlier
                                        ready' size' fits short (omega (arith, few)))
                                  | inr fast ↦ rw fast (
                                      further w2 ws' forked c' earlier ready' size' fits remain'
                                        (omega (arith, few)))
                                ])
                          ])
          ]

      AreMapped-procs :
          {ws : List ℕ} {v : View} {procs : ℕ → Bool}
          → AreMapped ws v
          → AreMapped ws (record v { procs = procs })
      AreMapped-procs ready = record {
        guarded = ready.guarded;
        binary = ready.binary;
        exists = ready.exists;
        free = ready.free;
        mapped = ready.mapped;
        points = ready.points;
        holds = ready.holds;
      }

      fork_next_lem :
          (rest : ℕ → Clock → Cmd W Forked) (w : W) (before : View) (ws : List ℕ) (forked : ℕ)
          (c : Clock) (a : Answer)
          → ((after : ℕ) → suc after ≡ left before.procs → Rest rest after most)
          → AreNoted ws forked
          → AreMapped ws before
          → length ws ≡ lim
          → forked ≤ lim
          → forked + left before.procs ≤ most
          → Splits left a before (view w)
          → Returns (Ends lim most) (fork_next this limit lim (suc passes) rest forked c a w)
      unfolding fork_next
      fork_next_lem rest w before ws forked c (refused e) further noted ready size fits few same =
          clean_lem w ws passes forked lim most (fork_reason e) c noted (rw same ready) size fits
            short (omega (arith, few))
      fork_next_lem rest w before ws forked c (got zero) further noted ready size fits few
            (positive, _, _, _, _) =
          absurd (omega (arith, positive))
      fork_next_lem rest w before ws forked c (got (suc n)) further noted ready size fits few
            (_, small, procs, at, fewer) =
          note_child_lem rest w ws forked n (left procs) c (further (left procs) fewer) noted
            (rw at (AreMapped-procs ready)) size fits (rw at refl) (omega (arith, few, fewer)) small

      fork_rounds_lem :
          (n : ℕ) (after : ℕ)
          → after < n
          → Rest (fork_rounds this limit lim (suc passes) n) after most
      unfolding fork_rounds
      fork_rounds_lem zero after enough w ws forked c noted ready size fits remain few =
          absurd (omega (arith, enough))
      fork_rounds_lem (suc n) after enough w ws forked c noted ready size fits remain few =
          Run.bind (forking.fork_ok w) λ a w1 splits.
            fork_next_lem (fork_rounds this limit lim (suc passes) n) w1 (view w) ws forked c a
              (λ after' one. fork_rounds_lem n after' (omega (arith, enough, one, remain))) noted
              ready size fits (omega (arith, remain, few)) splits

    pub do_fork-Ends :
        (limit : ℤ) (passes rounds : ℕ) (w : W) (ws : List ℕ) (c : Clock)
        → length ws ≤ 2 ^ 16
        → AreMapped ws (view w)
        → left (view w).procs < rounds
        → Returns
            (Ends (length ws) (left (view w).procs))
            (do_fork this limit (length ws) (suc passes) rounds c w)
    unfolding do_fork
    do_fork-Ends limit passes rounds w ws c short ready enough =
        fork_rounds_lem limit (length ws) (left (view w).procs) passes short rounds
          (left (view w).procs) enough w ws 0 c (λ i low. absurd (omega (arith, low))) ready refl
          (omega arith) refl (omega arith)

  -- With as many words mapped as the limit says, at most 65536, their guard free, and a process
  -- group that can be signalled: with more rounds than processes can be forked, and one pass of
  -- the verification or more, `do_fork` ends in its caller with a report, of no more than the
  -- limit and no more than could be forked.
  pub do_fork_lem :
      (limit : ℤ) (passes rounds : ℕ) (w : W) (ws : List ℕ) (c : Clock)
      → length ws ≤ 2 ^ 16
      → AreMapped ws (view w)
      → left (view w).procs < rounds
      → Returns
          (Reports (length ws) (left (view w).procs))
          (do_fork this limit (length ws) (suc passes) rounds c w)
  do_fork_lem limit passes rounds w ws c short ready enough =
      Run.mono
        (do_fork-Ends (λ _ _. Unit {0}) (λ _ _. Unit {0})
          (λ w ws ready. Run.mono (laws.sleep_ok w 1) λ _ _ _. tt)
          (λ w n woken. Run.mono (forking.kill_ok w) λ r _ e. (e, tt)) limit passes rounds w ws c
          short ready enough)
        λ r w' ends. ends.0
