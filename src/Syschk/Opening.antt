-- ===== src/Syschk/Opening.antt =====
-- `chk_open` of src/syschk.c on a system with a limit of open files.
pub mod Frame
use atomicles.Base.{
  ℕ, zero, suc, ◌+◌, ◌*◌, ◌≤◌, ◌<◌, ◌≡◌, ◌∙◌, Bool-cases, inl, inr, true, Option, none, some, List,
  [], ◌∷◌, arith, ltb, length,
}
use atomicles.Base.Int.{ℤ, ltb_ℤ}
use atomicles.Sys.Run
use atomicles.Sys.Run.{Cmd, Returns, returns, ◌>>=◌}
use atomicles.Syschk.{Host, Clock, Answer, got, refused, Reason, threshold, restart, performance}
use atomicles.Syschk.Open.{
  Checked, is_unknown, open_reason, close_all, clean_up, open_next, open_rounds, chk_open,
}

-- A call of `time` leaves a count of resources as it is, and so does `performance`.
pub performance_lem :
    {W A : Type 0} ⦃h : Host W⦄ (count : W → A)
    → ((w : W) → Returns (λ _ w'. count w' ≡ count w) (h.time w))
    → {w : W} (c : Clock) (counter divider : ℕ)
    → Returns (λ _ w'. count w' ≡ count w) (performance c counter divider w)
unfolding performance
performance_lem count keeps {w} c counter divider = Run.bind (keeps w) λ t w1 same.
    elim (Bool-cases (ltb 0 (restart c counter).t_last)) [
      | inl started ↦ rw started (returns same)
      | inr idle ↦ rw idle (Run.bind (keeps w1) λ t' w2 same2. returns (same2 ∙ same))
    ]

-- What `open` answers and makes of the number of open files, when there can be `cap` of them.
abbrev pub Opens : (cap : ℕ) → Answer → (before after : ℕ) → Type 0
Opens cap (got fh) m n = (m < cap) × (n ≡ suc m)
Opens cap (refused e) m n = n ≡ m

-- The manual pages, on the number of open files.
pub record FileLaws {W : Type 0} (h : Host W) (files : W → ℕ) (cap : ℕ) : Type 0 where
  pub time_ok : (w : W) → Returns (λ _ w'. files w' ≡ files w) (h.time w)
  pub open_ok : (w : W) → Returns (λ a w'. Opens cap a (files w) (files w')) (h.open_tmp w)
  pub unlink_ok : (w : W) → Returns (λ _ w'. files w' ≡ files w) (h.unlink_tmp w)
  pub close_ok :
      (w : W) (fh : ℕ) → 0 < files w → Returns (λ _ w'. suc (files w') ≡ files w) (h.close fh w)

module _ {W : Type 0} ⦃h : Host W⦄ (files : W → ℕ) (cap : ℕ) (laws : FileLaws h files cap)
    (limit : ℤ) where
  close_all_lem :
      (w : W) (opened : List ℕ)
      → length opened ≤ files w
      → Returns (λ _ w'. files w' + length opened ≡ files w) (close_all limit cap opened w)
  unfolding close_all
  close_all_lem w [] fits = returns (omega arith)
  close_all_lem w (fh ∷ opened) fits =
      Run.bind (laws.close_ok w fh (omega (arith, fits))) λ _ w1 closed.
        Run.mono (close_all_lem w1 opened (omega (arith, fits, closed)))
          λ _ w2 e. omega (arith, e, closed)

  -- What the check leaves, when `base` files were open before it.
  abbrev pub Opened : ℕ → Option Checked → W → Type 0
  Opened base none w = ⊥
  Opened base (some r) w = (0 < r.reach) × (base ≤ files w) × (files w + r.reach ≤ cap + 1)

  clean_up_lem :
      (w : W) (base : ℕ) (opened : List ℕ) (reason : Reason) (c : Clock)
      → base + length opened ≤ files w
      → files w ≤ cap
      → Returns (Opened base) (clean_up limit cap opened reason c w)
  unfolding clean_up
  clean_up_lem w base opened reason c fits capped =
      Run.bind (close_all_lem w opened (omega (arith, fits)))
        λ _ w1 e. returns ((omega arith, omega (arith, e, fits), omega (arith, e, fits, capped)))

  open_next_lem :
      (rest : List ℕ → Clock → Cmd W (Option Checked)) (w : W) (base before : ℕ) (opened : List ℕ)
      (c : Clock) (a : Answer)
      → ((w' : W) (opened' : List ℕ) (c' : Clock)
          → files w' ≡ suc before
          → base + length opened' ≤ files w'
          → files w' ≤ cap
          → Returns (Opened base) (rest opened' c' w'))
      → base + length opened ≤ before
      → before ≤ cap
      → Opens cap a before (files w)
      → Returns (Opened base) (open_next limit cap rest opened c a w)
  unfolding open_next
  open_next_lem rest w base before opened c (refused e) further fits capped same =
      clean_up_lem w base opened (open_reason e) c (omega (arith, fits, same))
        (omega (arith, capped, same))
  open_next_lem rest w base before opened c (got fh) further fits capped (below, more) =
      Run.bind (performance_lem files laws.time_ok c (length opened) 1) λ (performed, c') w1 same.
        elim (Bool-cases (is_unknown performed)) [
          | inl early ↦
              let inside : ltb (length opened) cap ≡ true = ground (arith, fits, below) in
              rw (early, inside)
                (Run.bind (laws.unlink_ok w1) λ _ w2 same2.
                  further w2 (fh ∷ opened) c' (omega (arith, same, same2, more))
                    (omega (arith, same, same2, more, fits))
                    (omega (arith, same, same2, more, below)))
          | inr measured ↦ rw measured (elim (Bool-cases (ltb_ℤ performed limit)) [
            | inl slow ↦ rw slow (
                clean_up_lem w1 base opened threshold c' (omega (arith, same, more, fits))
                  (omega (arith, same, more, below)))
            | inr fast ↦ rw fast (
                further w1 opened c' (omega (arith, same, more)) (omega (arith, same, more, fits))
                  (omega (arith, same, more, below)))
          ])
        ]

  open_rounds_lem :
      (n : ℕ) (w : W) (base : ℕ) (opened : List ℕ) (c : Clock)
      → base + length opened ≤ files w
      → files w ≤ cap
      → cap < files w + n
      → Returns (Opened base) (open_rounds limit cap n opened c w)
  unfolding open_rounds
  open_rounds_lem zero w base opened c fits capped enough = absurd (omega (arith, capped, enough))
  open_rounds_lem (suc n) w base opened c fits capped enough =
      Run.bind (laws.open_ok w) λ a w1 opens.
        open_next_lem (open_rounds limit cap n) w1 base (files w) opened c a
          (λ w' opened' c' one_more fits' capped'.
            open_rounds_lem n w' base opened' c' fits' capped' (omega (arith, one_more, enough)))
          fits capped opens

  pub chk_open_lem :
      (rounds : ℕ) (w : W) (c : Clock)
      → Returns (λ r w'. (r ≡ true) × (files w' ≡ files w)) (h.on_stack (4 * cap) w)
      → 0 < cap
      → files w ≤ cap
      → cap < files w + rounds
      → Returns (Opened (files w)) (chk_open limit cap rounds c w)
  unfolding chk_open
  chk_open_lem rounds w c stack some_file capped enough = Run.bind stack λ r w1 (e, same).
      let positive : ltb 0 cap ≡ true = ground (arith, some_file) in
      rw (e, positive)
        (open_rounds_lem rounds w1 (files w) [] c (omega (arith, same))
          (omega (arith, same, capped)) (omega (arith, same, enough)))
