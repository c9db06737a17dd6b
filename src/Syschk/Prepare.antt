-- ===== src/Syschk/Prepare.antt =====
-- chk_open_prepare, chk_fork_prepare and chk_calloc_prepare of src/syschk.c: what each check sets
-- before it.
use atomicles.Base.{
  ℕ, zero, suc, ◌+◌, ◌-◌, ◌*◌, ◌/◌, ◌%◌, ◌^◌, ◌==◌, Bool, true, false, ◌&&◌, ◌||◌, Option, List, [],
  ◌∷◌, if◌then◌else◌,
}
use atomicles.Base.Int.{ℤ, pos, negsuc, minus_one}
use atomicles.Sys.Run.{Cmd, pure, ◌>>=◌, ◌>>◌, assert}
use atomicles.Syschk.Limits.{Rlimit, exceeds, lowered}
use atomicles.Syschk.Proc.{
  Files, Reader, overcommit_memory, swappiness, overcommit_ratio, pid_max, file_max, meminfo,
  or_else, get_proc_reading, for_lines,
}

-- The resources whose limits are read or set.
pub data Resource : Type 0 where
  nofile nproc sigpending address_space : Resource

-- The limits and the priority of the process. The answer of `setrlimit` is not looked at; that of
-- `setpriority` says whether it succeeded.
pub record Control (W : Type 0) : Type 0 where
  pub getrlimit : Resource → Cmd W Rlimit
  pub setrlimit : Resource → Rlimit → Cmd W (Unit {0})
  pub getpriority : Cmd W ℤ
  pub setpriority : ℕ → Cmd W Bool

-- PRIO
abbrev pub prio : ℕ
prio = 19

-- KILO
abbrev pub kilo : ℕ
kilo = 2 ^ 10

-- The conversion of an `int` to `unsigned long`.
abbrev pub to_u64 : ℤ → ℕ
to_u64 (pos n) = n % 2 ^ 64
to_u64 (negsuc n) = 2 ^ 64 - 1 - n % 2 ^ 64

-- `overcommit_memory == 2`
abbrev pub is_two : ℤ → Bool
is_two (pos n) = n == 2
is_two (negsuc n) = false

-- The totals, in bytes.
pub record Memory : Type 0 where
  pub mem_total : ℕ
  pub swap_total : ℕ

abbrev pub unread : Memory
unread = record { mem_total = 2 ^ 64 - 1; swap_total = 2 ^ 64 - 1 }

abbrev pub is_prefix : List ℕ → List ℕ → Bool
is_prefix [] cs = true
is_prefix (p ∷ ps) [] = false
is_prefix (p ∷ ps) (c ∷ cs) = (p == c) && is_prefix ps cs

-- `strstr(text, word) != NULL`
abbrev pub contains : (word text : List ℕ) → Bool
contains word [] = is_prefix word []
contains word (c ∷ cs) = is_prefix word (c ∷ cs) || contains word cs

abbrev pub drop : ℕ → List ℕ → List ℕ
drop zero cs = cs
drop (suc n) [] = []
drop (suc n) (c ∷ cs) = drop n cs

abbrev pub mem_word : List ℕ
mem_word = b'M' ∷ b'e' ∷ b'm' ∷ b'T' ∷ b'o' ∷ b't' ∷ b'a' ∷ b'l' ∷ b':' ∷ []

abbrev pub swap_word : List ℕ
swap_word = b'S' ∷ b'w' ∷ b'a' ∷ b'p' ∷ b'T' ∷ b'o' ∷ b't' ∷ b'a' ∷ b'l' ∷ b':' ∷ []

-- memsyslim: the swap and so many hundredths of the memory.
unfoldable pub commit_limit : Memory → (ratio : ℤ) → ℕ
commit_limit m ratio = (m.swap_total + m.mem_total * to_u64 ratio % 2 ^ 64 / 100) % 2 ^ 64

-- A round of the `while` on the lines of meminfo, with `sscanf` for the number.
unfoldable pub note_line : (List ℕ → Option ℕ) → Memory → List ℕ → Memory
note_line scan m line =
    if contains mem_word line
    then record m { mem_total = or_else (scan (drop 9 line)) m.mem_total * kilo % 2 ^ 64 }
    else if contains swap_word line
    then record m { swap_total = or_else (scan (drop 10 line)) m.swap_total * kilo % 2 ^ 64 }
    else m

module _ {W : Type 0} ⦃c : Control W⦄ where
  -- The macro `setrlim`, with its two system calls.
  unfoldable pub set_limit : Resource → (syslim : ℕ) → Cmd W (Unit {0})
  unfolding exceeds lowered
  set_limit r syslim = do
    l ← c.getrlimit r
    if exceeds syslim l
        then (c.setrlimit r (lowered syslim l) >>= λ _. c.getrlimit r >>= λ _. pure tt)
        else pure tt

module _ {W : Type 0} ⦃f : Files W⦄ ⦃c : Control W⦄ where
  unfoldable pub chk_open_prepare : Cmd W ℕ
  unfolding set_limit get_proc_reading
  chk_open_prepare = do
    _ ← c.getpriority
    ok ← c.setpriority prio
    assert ok
    _ ← c.getpriority
    fh_max ← get_proc_reading file_max minus_one
    set_limit nofile (to_u64 fh_max)
    pure 0

  unfoldable pub chk_fork_prepare : Cmd W ℕ
  unfolding set_limit get_proc_reading
  chk_fork_prepare = do
    n ← get_proc_reading pid_max minus_one
    set_limit nproc (to_u64 n)
    set_limit sigpending (to_u64 n)
    pure 0

  -- With overcommit protection: the loop on meminfo runs for so many lines, and each line's buffer is
  -- filled by so many reads.
  unfoldable pub measure_memory : (reads rounds : ℕ) → Reader → Cmd W (ℕ × Reader)
  unfolding set_limit get_proc_reading for_lines note_line commit_limit
  measure_memory reads rounds reader = do
    r ← for_lines reads meminfo (note_line f.scan_u64) rounds unread reader
    s ← f.stale_int
    _ ← get_proc_reading swappiness s
    ratio ← get_proc_reading overcommit_ratio (pos 0)
    set_limit address_space (commit_limit r.0 ratio)
    pure (0, r.1)

  unfoldable pub chk_calloc_prepare : (reads rounds : ℕ) → Reader → Cmd W (ℕ × Reader)
  unfolding measure_memory get_proc_reading
  chk_calloc_prepare reads rounds reader = do
    l ← f.stale_int
    mode ← get_proc_reading overcommit_memory l
    if is_two mode then measure_memory reads rounds reader else pure (1, reader)
