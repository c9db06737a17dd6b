-- ===== src/Syschk/Prepared.antt =====
-- What the preparations of the checks of src/syschk.c make of the limits of the process.
use atomicles.Base.{
  ℕ, ◌+◌, ◌≤◌, ◌<◌, ◌≡◌, refl, ◌∙◌, ap, subst, Bool, true, false, Bool-cases, inl, inr, List, arith,
  length,
}
use atomicles.Base.Int.{ℤ, pos}
use atomicles.Sys.Run
use atomicles.Sys.Run.{Cmd, Returns, returns}
use atomicles.Syschk.Limits.{Rlimit, exceeds, lowered, setrlim}
use atomicles.Syschk.Proc.{
  Files, Reader, closed, bufsiz, overcommit_memory, swappiness, overcommit_ratio, meminfo,
}
use atomicles.Syschk.Proc.Tokens.{NoNul, lines, fold_lines}
use atomicles.Syschk.Proc.Lines.{ProcLaws, SettingLaws, get_proc_reading_lem, for_lines-lines}
use atomicles.Syschk.Prepare.{
  Resource, nofile, nproc, sigpending, address_space, Control, prio, is_two, unread, commit_limit,
  note_line, set_limit, measure_memory, chk_calloc_prepare,
}

abbrev pub Limits : Type 0
Limits = Resource → Rlimit

abbrev pub is_same : Resource → Resource → Bool
is_same nofile nofile = true
is_same nproc nproc = true
is_same sigpending sigpending = true
is_same address_space address_space = true
is_same _ _ = false

-- The limit of one resource is set, and those of the others are as before.
abbrev pub Sets : Resource → Rlimit → Limits → Limits → Type 0
Sets r l before after = (after r ≡ l) × ((q : Resource) → is_same r q ≡ false → after q ≡ before q)

-- The manual pages: a positive limit that does not exceed its own maximum, nor the maximum there was,
-- is set, and the priority of an own process may be lowered.
pub record ControlLaws {W K : Type 0} (c : Control W) (limits : W → Limits) (kept : W → K)
    : Type 0 where
  pub ordered : (w : W) (r : Resource) → (limits w r).rlim_cur ≤ (limits w r).rlim_max
  pub getrlimit_ok :
      (w : W) (r : Resource)
      → Returns
          (λ l w'. (l ≡ limits w r) × (limits w' ≡ limits w) × (kept w' ≡ kept w))
          (c.getrlimit r w)
  pub setrlimit_ok :
      (w : W) (r : Resource) (l : Rlimit)
      → 0 < l.rlim_cur
      → l.rlim_cur ≤ l.rlim_max
      → l.rlim_max ≤ (limits w r).rlim_max
      → Returns (λ _ w'. Sets r l (limits w) (limits w') × (kept w' ≡ kept w)) (c.setrlimit r l w)
  pub getpriority_ok :
      (w : W) → Returns (λ _ w'. (limits w' ≡ limits w) × (kept w' ≡ kept w)) (c.getpriority w)
  pub setpriority_ok :
      (w : W)
      → Returns
          (λ r w'. (r ≡ true) × (limits w' ≡ limits w) × (kept w' ≡ kept w))
          (c.setpriority prio w)

lowered_lem :
    (syslim : ℕ) (l : Rlimit)
    → l.rlim_cur ≤ l.rlim_max
    → exceeds syslim l ≡ true
    → (0 < (lowered syslim l).rlim_cur)
      × ((lowered syslim l).rlim_cur ≤ (lowered syslim l).rlim_max)
      × ((lowered syslim l).rlim_max ≤ l.rlim_max)
unfolding lowered exceeds
lowered_lem syslim l ordered above = (ground (arith, above), ground arith, ground arith)

module _ {W K : Type 0} ⦃c : Control W⦄ (limits : W → Limits) (kept : W → K)
    (laws : ControlLaws c limits kept) where
  pub set_limit_lem :
      (w : W) (r : Resource) (syslim : ℕ)
      → Returns
          (λ _ w'. Sets r (setrlim syslim (limits w r)) (limits w) (limits w') × (kept w' ≡ kept w))
          (set_limit r syslim w)
  unfolding set_limit setrlim
  set_limit_lem w r syslim = Run.bind (laws.getrlimit_ok w r) λ l w1 (e1, same1, held1).
      rw e1 (elim (Bool-cases (exceeds syslim (limits w r))) [
        | inr within ↦
            rw within (returns ((ap (λ ls. ls r) same1, (λ q other. ap (λ ls. ls q) same1)), held1))
        | inl above ↦
            let (some_, below, less) = lowered_lem syslim (limits w r) (laws.ordered w r) above in
            rw above (
              Run.bind
                (laws.setrlimit_ok w1 r (lowered syslim (limits w r)) some_ below (rw same1 less))
                λ _ w2 ((now, others), held2).
                  Run.bind (laws.getrlimit_ok w2 r) λ _ w3 (_, same3, held3). returns (
                    (
                      ap (λ ls. ls r) same3 ∙ now,
                      (λ q other. ap (λ ls. ls q) same3 ∙ others q other ∙ ap (λ ls. ls q) same1),
                    ),
                    held3 ∙ held2 ∙ held1,
                  ))
      ])

-- What the calls on files leave as it is.
abbrev pub both : {W K : Type 0} → (W → Limits) → (W → K) → W → Limits × K
both limits kept w = (limits w, kept w)

module _ {W K : Type 0} ⦃f : Files W⦄ ⦃c : Control W⦄ (limits : W → Limits) (kept : W → K)
    (control : ControlLaws c limits kept) (reads rounds : ℕ) (text junk : List ℕ)
    (mode swap ratio : ℤ) (mode_laws : SettingLaws f (both limits kept) overcommit_memory mode)
    (swap_laws : SettingLaws f (both limits kept) swappiness swap)
    (ratio_laws : SettingLaws f (both limits kept) overcommit_ratio ratio)
    (text_laws : ProcLaws f (both limits kept) meminfo text junk)
    (stale_ok : (w : W)
      → Returns (λ _ w'. both limits kept w' ≡ both limits kept w) (f.stale_int w)) where
  -- memsyslim, from the lines of the text.
  abbrev pub committed : ℕ
  committed = commit_limit (fold_lines (note_line f.scan_u64) unread (lines text)) ratio

  -- What the preparation answers and makes of the limits.
  abbrev pub Prepares : Bool → W → ℕ × Reader → W → Type 0
  Prepares true w r w' =
      (r ≡ (0, closed))
      × Sets address_space (setrlim committed (limits w address_space)) (limits w) (limits w')
      × (kept w' ≡ kept w)
  Prepares false w r w' = (r ≡ (1, closed)) × (limits w' ≡ limits w) × (kept w' ≡ kept w)

  measure_memory_lem :
      (w : W)
      → NoNul text
      → length text + 1 + length junk ≡ bufsiz
      → length text < rounds
      → Returns (Prepares true w) (measure_memory reads rounds closed w)
  unfolding measure_memory
  measure_memory_lem w proper fits enough =
      Run.bind
        (for_lines-lines (both limits kept) meminfo text junk text_laws reads (note_line f.scan_u64)
          rounds w unread proper fits enough)
        λ r w1 (e1, same1). rw e1 (
          Run.bind (stale_ok w1) λ s w2 same2.
            Run.bind (get_proc_reading_lem (both limits kept) swappiness swap swap_laws w2 s)
              λ _ w3 (_, same3).
                Run.bind
                  (get_proc_reading_lem (both limits kept) overcommit_ratio ratio ratio_laws w3
                    (pos 0))
                  λ _ w4 (e4, same4). rw e4 (
                    let same = same4 ∙ same3 ∙ same2 ∙ same1 in
                    Run.bind (set_limit_lem limits kept control w4 address_space committed)
                      λ _ w5 (sets, held). returns (
                        refl,
                        subst
                            (λ ls.
                              Sets address_space (setrlim committed (ls address_space)) ls
                                (limits w5))
                            (ap (λ b. b.0) same) sets,
                        held ∙ ap (λ b. b.1) same,
                      )))

  -- Where /proc gives `mode` for overcommit_memory, a swappiness, a ratio, and a text for meminfo
  -- that has no NUL and fits the buffer, with a NUL behind it: chk_calloc_prepare returns. With
  -- the mode 2 it succeeds and lowers the limit of the address space, and no other, to the swap
  -- and the ratio of the memory that the lines of the text say, in 64 bits; with another mode it
  -- fails and no limit is changed. More rounds are given than the text has bytes.
  pub chk_calloc_prepare_lem :
      (w : W)
      → NoNul text
      → length text + 1 + length junk ≡ bufsiz
      → length text < rounds
      → Returns (Prepares (is_two mode) w) (chk_calloc_prepare reads rounds closed w)
  unfolding chk_calloc_prepare
  chk_calloc_prepare_lem w proper fits enough = Run.bind (stale_ok w) λ l w1 same1.
      Run.bind (get_proc_reading_lem (both limits kept) overcommit_memory mode mode_laws w1 l)
        λ _ w2 (e2, same2). rw e2 (
          let same = same2 ∙ same1 in
          elim (Bool-cases (is_two mode)) [
            | inr other ↦ rw other (returns (refl, ap (λ b. b.0) same, ap (λ b. b.1) same))
            | inl protected ↦ rw protected (
                Run.mono (measure_memory_lem w2 proper fits enough) λ r w3 (e3, sets, held). (
                  e3,
                  subst
                      (λ ls.
                        Sets address_space (setrlim committed (ls address_space)) ls (limits w3))
                      (ap (λ b. b.0) same) sets,
                  held ∙ ap (λ b. b.1) same,
                ))
          ])
