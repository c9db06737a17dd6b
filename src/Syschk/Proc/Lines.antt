-- ===== src/Syschk/Proc/Lines.antt =====
-- read_file_lines and get_proc_reading of src/syschk.c on files of /proc; read_file_lines is called
-- until it answers NULL.
use atomicles.Base.{
  ℕ, zero, suc, ◌+◌, ◌≤◌, ◌<◌, ◌≡◌, refl, ◌∙◌, ap, Bool, true, false, none, some, Option, List, [],
  ◌∷◌, ◌++◌, arith, ◌==◌, length,
}
use atomicles.Base.Int.{ℤ}
use atomicles.Sys.Run
use atomicles.Sys.Run.{Cmd, Returns, returns}
use atomicles.Syschk.Proc.{
  ProcFile, Files, bufsiz, overlay, skip, Reader, closed, get_proc_reading, refill, load_proc,
  load_open, load, hand_out, next_line, first_line, read_file_lines, for_next, for_lines,
}
use atomicles.Syschk.Proc.Tokens.{
  cut, lines, fold_lines, NoNul, Skipped, skip_lem, split_token, overlay_lem,
}

-- A call that leaves a part of the world, `kept`, as it is, with what it answers.
abbrev pub Keeps : {W K A : Type 0} → (W → K) → W → (A → Type 0) → A → W → Type 0
Keeps kept w P r w' = P r × (kept w' ≡ kept w)

-- The manual pages, for a file of /proc that holds `text`, and the memory of the buffer, which is
-- a NUL and `junk` behind the place of the text. `open_at` says that the file stands open, at its
-- start, under a number.
pub record ProcLaws {W K : Type 0} (f : Files W) (kept : W → K) (path : ProcFile)
    (text junk : List ℕ) : Type 0 where
  pub stat_ok : (w : W) → Returns (Keeps kept w λ r. r ≡ some 0) (f.stat path w)
  pub open_at : ℕ → W → Bool
  pub open_ok :
      (w : W)
      → Returns
          (λ r w'. (fh : ℕ) × (r ≡ some fh) × (open_at fh w' ≡ true) × (kept w' ≡ kept w))
          (f.open_file path w)
  pub read_ok :
      (w : W) (fh : ℕ)
      → open_at fh w ≡ true
      → Returns (Keeps kept w λ r. r ≡ some text) (f.read (some fh) bufsiz w)
  pub close_ok : (w : W) (fh : ℕ) → Returns (λ _ w'. kept w' ≡ kept w) (f.close_file (some fh) w)
  pub malloc_ok :
      (w : W)
      → Returns
          (λ r w'.
            (front : List ℕ) × (r ≡ some (front ++ (0 ∷ junk)))
            × (length front ≡ length text)
            × ((fh : ℕ) → open_at fh w ≡ true → open_at fh w' ≡ true)
            × (kept w' ≡ kept w))
          (f.malloc_bytes bufsiz w)
  pub free_ok : (w : W) → Returns (λ _ w'. kept w' ≡ kept w) (f.free_bytes w)

-- The same for a file of /proc that holds the number `n`, which `sscanf` finds whatever is behind it.
pub record SettingLaws {W K : Type 0} (f : Files W) (kept : W → K) (path : ProcFile) (n : ℤ)
    : Type 0 where
  pub stale_ok : (w : W) → Returns (λ _ w'. kept w' ≡ kept w) (f.stale 32 w)
  pub stat_ok : (w : W) → Returns (Keeps kept w λ r. (size : ℕ) × (r ≡ some size)) (f.stat path w)
  pub open_at : ℕ → W → Bool
  pub open_ok :
      (w : W)
      → Returns
          (λ r w'. (fh : ℕ) × (r ≡ some fh) × (open_at fh w' ≡ true) × (kept w' ≡ kept w))
          (f.open_file path w)
  pub read_ok :
      (w : W) (fh : ℕ)
      → open_at fh w ≡ true
      → Returns
          (Keeps kept w λ r.
            (bytes : List ℕ) × (r ≡ some bytes)
            × ((buffer : List ℕ) → f.scan_int (overlay bytes buffer) ≡ some n))
          (f.read (some fh) 32 w)
  pub close_ok : (w : W) (fh : ℕ) → Returns (λ _ w'. kept w' ≡ kept w) (f.close_file (some fh) w)

pub get_proc_reading_lem :
    {W K : Type 0} ⦃f : Files W⦄ (kept : W → K) (path : ProcFile) (n : ℤ)
    → SettingLaws f kept path n
    → (w : W) (l : ℤ) → Returns (Keeps kept w λ r. r ≡ n) (get_proc_reading path l w)
unfolding get_proc_reading
get_proc_reading_lem kept path n laws w l = Run.bind (laws.stale_ok w) λ buf w1 same1.
    Run.bind (laws.stat_ok w1) λ _ w2 ((size, e2), same2). rw e2 (
      Run.bind (laws.open_ok w2) λ _ w3 (fh, e3, ready, same3). rw e3 (
        Run.bind (laws.read_ok w3 fh ready) λ _ w4 ((bytes, e4, scanned), same4). rw e4 (
          Run.bind (laws.close_ok w4 fh)
            λ _ w5 same5. returns (rw (scanned buf) refl, same5 ∙ same4 ∙ same3 ∙ same2 ∙ same1))))

module _ {W K : Type 0} ⦃f : Files W⦄ (kept : W → K) (path : ProcFile) (text junk : List ℕ)
    (laws : ProcLaws f kept path text junk) (reads : ℕ) where
  refill_lem :
      (n : ℕ) (w : W) (fh : Option ℕ) (buffer : List ℕ)
      → (length text == bufsiz) ≡ false
      → Returns (λ r w'. (r ≡ buffer) × (w' ≡ w)) (refill n fh buffer (some text) w)
  unfolding refill
  refill_lem zero w fh buffer ended = rw ended (returns (refl, refl))
  refill_lem (suc n) w fh buffer ended = rw ended (returns (refl, refl))

  load_lem :
      (w : W)
      → length text < bufsiz
      → Returns (Keeps kept w λ r. r ≡ some (text ++ (0 ∷ junk))) (load reads path (some 0) w)
  unfolding load load_open load_proc
  load_lem w short = Run.bind (laws.open_ok w) λ _ w1 (fh, e1, ready, same1). rw e1 (
      Run.bind (laws.malloc_ok w1) λ _ w2 (front, e2, same, still, same2). rw e2 (
        Run.bind (laws.read_ok w2 fh (still fh ready)) λ _ w3 (e3, same3). rw e3 (
          Run.bind
            (refill_lem reads w3 (some fh) (overlay text (front ++ (0 ∷ junk)))
              (ground (arith, short)))
            λ b w4 (e4, same4). Run.bind (laws.close_ok w4 fh) λ _ w5 same5. returns (
              ap some (e4 ∙ overlay_lem text front (0 ∷ junk) same),
              same5 ∙ ap kept same4 ∙ same3 ∙ same2 ∙ same1,
            ))))

  module _ {S : Type 0} (step : S → List ℕ → S) where
    abbrev Collects : S → List ℕ → W → S × Reader → W → Type 0
    Collects s rest w = Keeps kept w λ r. r ≡ (fold_lines step s (lines rest), closed)

    -- The loop from where `strtok_r` starts.
    abbrev walk : ℕ → S → List ℕ → Cmd W (S × Reader)
    walk n s rest w =
        Run.and_then (next_line (skip rest) w)
          (λ r. for_next reads path step (for_lines reads path step n) s r.0 r.1)

    abbrev Walks : ℕ → Type 0
    Walks n =
        (w : W) (s : S) (rest : List ℕ)
        → NoNul rest
        → length rest ≤ n
        → Returns (Collects s rest w) (walk n s (rest ++ (0 ∷ junk)) w)

    abbrev WalksBefore : ℕ → Type 0
    WalksBefore zero = Unit {0}
    WalksBefore (suc m) = Walks m

    -- The loop behind the newlines in front of a line.
    walk_left :
        (n : ℕ)
        → WalksBefore n
        → (w : W) (s : S) (rest left : List ℕ) → Skipped junk rest left
        → length rest ≤ n
        → Returns (Collects s rest w) (
            Run.and_then
              (next_line (some (left ++ (0 ∷ junk))) w)
              (λ r. for_next reads path step (for_lines reads path step n) s r.0 r.1))
    unfolding next_line hand_out for_next for_lines read_file_lines
    walk_left n further w s rest [] none_left enough =
        Run.bind {P = Keeps kept w λ (r : Option (List ℕ) × Reader). r ≡ (none, closed)}
          (Run.bind (laws.free_ok w) λ _ w1 same. returns (refl, same))
          λ r w1 (e, same). rw e (returns {w = w1} (rw none_left refl, same))
    walk_left n further w s rest (zero ∷ cs) (same, other, shorter, (positive, proper)) enough =
        absurd (omega (arith, positive))
    walk_left zero further w s rest (suc c ∷ cs) (same, other, shorter, proper) enough =
        absurd (omega (arith, shorter, enough))
    walk_left (suc m) further w s rest (suc c ∷ cs) (same, other, shorter, proper) enough =
        let (left, found, token, less, kept) = split_token junk (suc c) cs proper other in
        rw found (
          Run.mono
            (further w (step s (suc c ∷ (cut cs).0)) left kept
              (omega (arith, shorter, less, enough)))
            λ r w1 (e, held). (rw (same, token) e, held))

    walk_lem : (n : ℕ) → Walks n
    walk_lem zero w s rest proper enough =
        let (left, found, skipped) = skip_lem junk rest proper in
        rw found (walk_left zero tt w s rest left skipped enough)
    walk_lem (suc m) w s rest proper enough =
        let (left, found, skipped) = skip_lem junk rest proper in
        rw found (walk_left (suc m) (walk_lem m) w s rest left skipped enough)

    -- For a file of /proc without NUL bytes, that fits a buffer of BUFSIZ bytes with one byte to
    -- spare, and a buffer that happens to hold a NUL behind the text: the loop `while((line =
    -- read_file_lines(path)) != NULL)` ends, after as many rounds as the text has bytes and one
    -- more. It has seen the lines of the text that are not empty, each once and in order, the
    -- static variables are as at the start, and what the calls keep of the world is kept.
    pub for_lines-lines :
        (rounds : ℕ) (w : W) (s : S)
        → NoNul text
        → length text + 1 + length junk ≡ bufsiz
        → length text < rounds
        → Returns
            (λ r w'. (r ≡ (fold_lines step s (lines text), closed)) × (kept w' ≡ kept w))
            (for_lines reads path step rounds s closed w)
    unfolding for_lines read_file_lines first_line
    for_lines-lines zero w s proper fits enough = absurd (omega (arith, enough))
    for_lines-lines (suc n) w s proper fits enough =
        Run.bind_in _ _ (laws.stat_ok w) λ size w1 (e1, same1). rw e1 (
          Run.bind_in _ _ (load_lem w1 (omega (arith, fits))) λ buffer w2 (e2, same2). rw e2 (
            Run.mono (walk_lem n w2 s text proper (omega (arith, enough)))
              λ r w3 (e3, same3). (e3, same3 ∙ same2 ∙ same1)))
