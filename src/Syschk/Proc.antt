-- ===== src/Syschk/Proc.antt =====
-- The reading of /proc in src/syschk.c: get_proc_reading, and read_file_lines, which hands out one line
-- of a file with each call.
pub mod Tokens
pub mod Lines
use atomicles.Base.{
  ℕ, zero, suc, ◌==◌, Bool, true, false, Option, none, some, List, [], ◌∷◌, ltb, length,
  if◌then◌else◌,
}
use atomicles.Base.Int.{ℤ}
use atomicles.Sys.Run.{Cmd, blocked, pure, ◌>>=◌, ◌>>◌, assert}
use atomicles.Semaphore.{crash}

-- The files that are read.
pub data ProcFile : Type 0 where
  overcommit_memory swappiness overcommit_ratio pid_max file_max meminfo : ProcFile

-- The calls on files. `stat` answers the size. `read` answers the bytes that were read, or `none` for
-- -1. `stale` is memory that was not written yet, so many bytes of it, and `malloc` allocates some.
-- `scan_int` and `scan_u64` are `sscanf` for one number, which it may leave unwritten.
pub record Files (W : Type 0) : Type 0 where
  pub stat : ProcFile → Cmd W (Option ℕ)
  pub open_file : ProcFile → Cmd W (Option ℕ)
  pub read : (fh : Option ℕ) (count : ℕ) → Cmd W (Option (List ℕ))
  pub close_file : Option ℕ → Cmd W (Unit {0})
  pub stale : ℕ → Cmd W (List ℕ)
  pub stale_int : Cmd W ℤ
  pub malloc_bytes : ℕ → Cmd W (Option (List ℕ))
  pub free_bytes : Cmd W (Unit {0})
  pub scan_int : List ℕ → Option ℤ
  pub scan_u64 : List ℕ → Option ℕ

-- BUFSIZ
abbrev pub bufsiz : ℕ
bufsiz = 8192

abbrev pub is_some : {A : Type 0} → Option A → Bool
is_some none = false
is_some (some a) = true

abbrev pub or_else : {A : Type 0} → Option A → A → A
or_else none a = a
or_else (some b) a = b

-- `readed == BUFSIZ`
abbrev pub is_full : Option (List ℕ) → Bool
is_full none = false
is_full (some bytes) = length bytes == bufsiz

-- What was read stands at the start of the buffer.
abbrev pub overlay : (bytes buffer : List ℕ) → List ℕ
overlay [] buffer = buffer
overlay (b ∷ bytes) [] = b ∷ bytes
overlay (b ∷ bytes) (_ ∷ buffer) = b ∷ overlay bytes buffer

abbrev pub overlay_read : Option (List ℕ) → List ℕ → List ℕ
overlay_read none buffer = buffer
overlay_read (some bytes) buffer = overlay bytes buffer

-- `strtok_r` for lines, on the bytes from a pointer to the end of its block; `none` when it reads past
-- that. First the newlines are passed over.
unfoldable pub skip : List ℕ → Option (List ℕ)
skip [] = none
skip (c ∷ cs) = if c == 10 then skip cs else some (c ∷ cs)

abbrev pub push_front : ℕ → Option (List ℕ × List ℕ) → Option (List ℕ × List ℕ)
push_front c none = none
push_front c (some (token, rest)) = some (c ∷ token, rest)

-- The token, and what is behind the newline that ends it, or at the NUL.
unfoldable pub split : List ℕ → Option (List ℕ × List ℕ)
split [] = none
split (c ∷ cs) =
    if c == 0 then some ([], c ∷ cs) else if c == 10 then some ([], cs) else push_front c (split cs)

-- The static variables of read_file_lines: `buffer` is NULL, or the bytes are those from `saveptr` on.
pub data Reader : Type 0 where
  closed : Reader
  reading : List ℕ → Reader

module _ {W : Type 0} ⦃f : Files W⦄ where
  -- get_proc_reading: `l` is the variable's value before.
  unfoldable pub get_proc_reading : ProcFile → ℤ → Cmd W ℤ
  get_proc_reading path l = do
    buf ← f.stale 32
    s ← f.stat path
    assert (is_some s)
    fh ← f.open_file path
    bytes ← f.read fh 32
    f.close_file fh
    pure (or_else (f.scan_int (overlay_read bytes buf)) l)

  -- The `while` behind a `read`, for so many rounds more; `realloc` to the same size leaves the block
  -- in its place.
  unfoldable pub refill : (reads : ℕ) → Option ℕ → List ℕ → Option (List ℕ) → Cmd W (List ℕ)
  refill zero fh buffer readed = if is_full readed then (λ w. blocked) else pure buffer
  refill (suc n) fh buffer readed =
      if is_full readed
      then (f.read fh bufsiz >>= λ r. refill n fh (overlay_read r buffer) r)
      else pure buffer

  -- A file that says its size, and one of /proc. `none` is a buffer that is NULL.
  unfoldable pub load_sized : ℕ → Option ℕ → Option (List ℕ) → Cmd W (Option (List ℕ))
  load_sized size fh none = f.close_file fh >> pure none
  load_sized size fh (some block) = do
    bytes ← f.read fh size
    f.close_file fh
    pure (some (overlay_read bytes block))

  -- A `read` into a buffer that is NULL fails.
  unfoldable pub load_proc : (reads : ℕ) → Option ℕ → Option (List ℕ) → Cmd W (Option (List ℕ))
  unfolding refill
  load_proc reads fh none = f.close_file fh >> pure none
  load_proc reads fh (some block) = do
    bytes ← f.read fh bufsiz
    buffer ← refill reads fh (overlay_read bytes block) bytes
    f.close_file fh
    pure (some buffer)

  unfoldable pub load_open : (reads size : ℕ) → Option ℕ → Cmd W (Option (List ℕ))
  unfolding load_sized load_proc
  load_open reads size none = pure none
  load_open reads size (some fh) =
      if ltb 0 size
      then (f.malloc_bytes size >>= λ block. load_sized size (some fh) block)
      else (f.malloc_bytes bufsiz >>= λ block. load_proc reads (some fh) block)

  -- The buffer that a first call fills.
  unfoldable pub load : (reads : ℕ) → ProcFile → Option ℕ → Cmd W (Option (List ℕ))
  unfolding load_open
  load reads path none = pure none
  load reads path (some size) = do fh ← f.open_file path; load_open reads size fh

  -- Behind `strtok_r`: at the end the buffer is freed.
  unfoldable pub hand_out : Option (List ℕ × List ℕ) → Cmd W (Option (List ℕ) × Reader)
  hand_out none = crash
  hand_out (some (token, rest)) = pure (some token, reading rest)

  unfoldable pub next_line : Option (List ℕ) → Cmd W (Option (List ℕ) × Reader)
  unfolding hand_out split
  next_line none = crash
  next_line (some []) = crash
  next_line (some (zero ∷ cs)) = f.free_bytes >> pure (none, closed)
  next_line (some (suc c ∷ cs)) = hand_out (split (suc c ∷ cs))

  -- `strtok_r` on a buffer that is NULL reads through NULL, in front of the `assert`.
  unfoldable pub first_line : Option (List ℕ) → Cmd W (Option (List ℕ) × Reader)
  unfolding next_line skip
  first_line none = crash
  first_line (some buffer) = next_line (skip buffer)

  unfoldable pub read_file_lines :
      (reads : ℕ) → ProcFile → Reader → Cmd W (Option (List ℕ) × Reader)
  unfolding load first_line next_line skip
  read_file_lines reads path closed = do
    size ← f.stat path
    buffer ← load reads path size
    first_line buffer
  read_file_lines reads path (reading rest) = next_line (skip rest)

  -- `while((line = read_file_lines(path)) != NULL)`, for so many lines, where a round makes `step` of
  -- the variables `s`.
  module _ {S : Type 0} (reads : ℕ) (path : ProcFile) (step : S → List ℕ → S) where
    unfoldable pub for_next :
        (S → Reader → Cmd W (S × Reader)) → S → Option (List ℕ) → Reader → Cmd W (S × Reader)
    for_next rest s none reader = pure (s, reader)
    for_next rest s (some line) reader = rest (step s line) reader

    unfoldable pub for_lines : (rounds : ℕ) → S → Reader → Cmd W (S × Reader)
    unfolding for_next read_file_lines
    for_lines zero s reader = λ w. blocked
    for_lines (suc n) s reader = do
      r ← read_file_lines reads path reader
      for_next (for_lines n) s r.0 r.1
