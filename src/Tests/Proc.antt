-- ===== src/Tests/Proc.antt =====
-- Files of /proc with a few settings, for the checks of src/syschk.c, and a process whose limits are
-- lowered. A number is one byte here.
use atomicles.Base.{
  ℕ, ◌+◌, ◌^◌, ◌≤◌, ◌≡◌, refl, sym, subst, Bool, Bool-cases, true, inl, inr, Option, none, some,
  List, [], ◌∷◌, ◌++◌, ◌==◌, ==_iff, arith, length, replicate, ltb, ◌&&◌, get_elem?, leb,
  if◌then◌else◌,
}
use atomicles.Base.Int.{ℤ, pos}
use atomicles.Sys.Run.{done, Returns, returns}
use atomicles.Syschk.Limits.{Rlimit}
use atomicles.Syschk.Proc.{
  ProcFile, Files, closed, overcommit_memory, swappiness, overcommit_ratio, pid_max, file_max,
  meminfo, bufsiz, overlay, for_lines,
}
use atomicles.Syschk.Proc.Tokens.{lines, fold_lines, NoNul}
use atomicles.Syschk.Proc.Lines.{ProcLaws, SettingLaws, for_lines-lines}
use atomicles.Syschk.Prepare.{
  Resource, nofile, nproc, sigpending, address_space, Control, mem_word, swap_word,
  chk_calloc_prepare,
}
use atomicles.Syschk.Prepared.{Limits, is_same, ControlLaws, both}
use atomicles.Syschk.Overcommit.{IsMeminfo, not-Has, Outcome, chk_calloc_prepare-IsMeminfo}

abbrev number_of : ProcFile → ℕ
number_of overcommit_memory = 0
number_of swappiness = 1
number_of overcommit_ratio = 2
number_of pid_max = 3
number_of file_max = 4
number_of meminfo = 5

abbrev pub text : List ℕ
text = mem_word ++ (200 ∷ 10 ∷ 10 ∷ (swap_word ++ (100 ∷ 10 ∷ [])))

abbrev contents : List (List ℕ)
contents = (2 ∷ []) ∷ (60 ∷ []) ∷ (50 ∷ []) ∷ (1 ∷ []) ∷ (1 ∷ []) ∷ text ∷ []

abbrev pub junk : List ℕ
junk = replicate 8167 0

abbrev at : Option ℕ → Option (List ℕ)
at none = none
at (some fh) = get_elem? contents fh

abbrev first_number : List ℕ → Option ℕ
first_number [] = none
first_number (b ∷ _) = some b

abbrev first_int : List ℕ → Option ℤ
first_int [] = none
first_int (b ∷ _) = some (pos b)

instance abbrev pub proc_files : {W : Type 0} → Files W
proc_files = record {
  stat = λ path w. done (some 0) w;
  open_file = λ path w. done (some (number_of path)) w;
  read = λ fh count w. done (at fh) w;
  close_file = λ fh w. done tt w;
  stale = λ size w. done [] w;
  stale_int = λ w. done (pos 9) w;
  malloc_bytes = λ size w. done (some (replicate 24 7 ++ (0 ∷ junk))) w;
  free_bytes = λ w. done tt w;
  scan_int = first_int;
  scan_u64 = first_number;
}

first_int-overlay : (n : ℕ) (buffer : List ℕ) → first_int (overlay (n ∷ []) buffer) ≡ some (pos n)
first_int-overlay n [] = refl
first_int-overlay n (b ∷ buffer) = refl

pub setting_laws :
    {W K : Type 0} (kept : W → K) (path : ProcFile) (n : ℕ)
    → get_elem? contents (number_of path) ≡ some (n ∷ [])
    → SettingLaws proc_files kept path (pos n)
setting_laws kept path n holds = record {
  stale_ok = λ w. returns refl;
  stat_ok = λ w. returns ((0, refl), refl);
  open_at = λ fh w. fh == number_of path;
  open_ok =
      λ w. returns (number_of path, refl, (==_iff (number_of path) (number_of path)).1 refl, refl);
  read_ok = λ w fh here. returns (
    (
      n ∷ [],
      subst (λ m. get_elem? contents m ≡ some (n ∷ [])) (sym ((==_iff fh (number_of path)).0 here))
          holds,
      (λ buffer. first_int-overlay n buffer),
    ),
    refl,
  );
  close_ok = λ w fh. returns refl;
}

pub text_laws : {W K : Type 0} (kept : W → K) → ProcLaws proc_files kept meminfo text junk
text_laws kept = record {
  stat_ok = λ w. returns (refl, refl);
  open_at = λ fh w. fh == 5;
  open_ok = λ w. returns (5, refl, refl, refl);
  read_ok = λ w fh here.
      returns
        (subst (λ m. get_elem? contents m ≡ some text) (sym ((==_iff fh 5).0 here)) refl, refl);
  close_ok = λ w fh. returns refl;
  malloc_ok = λ w. returns (replicate 24 7, refl, refl, (λ fh here. here), refl);
  free_ok = λ w. returns refl;
}

abbrev all_positive : List ℕ → Bool
all_positive [] = true
all_positive (c ∷ cs) = ltb 0 c && all_positive cs

positive-NoNul : (cs : List ℕ) → all_positive cs ≡ true → NoNul cs
positive-NoNul [] all = tt
positive-NoNul (c ∷ cs) all = (ground (arith, all), positive-NoNul cs (ground (arith, all)))

pub text-NoNul : NoNul text
text-NoNul = positive-NoNul text refl

pub text_fits : length text + 1 + length junk ≡ bufsiz
text_fits = refl

-- A process, each limit of which is up to its maximum.
record Owner : Type 0 where
  limits_of : Limits
  fine : (r : Resource) → (limits_of r).rlim_cur ≤ (limits_of r).rlim_max

abbrev clamped : Rlimit → Rlimit
clamped l = record l { rlim_cur = if leb l.rlim_cur l.rlim_max then l.rlim_cur else l.rlim_max }

abbrev with_limit : Limits → Resource → Rlimit → Limits
with_limit ls r l q = if is_same r q then clamped l else ls q

with_limit-fine :
    (w : Owner) (r : Resource) (l : Rlimit) (q : Resource)
    → (with_limit w.limits_of r l q).rlim_cur ≤ (with_limit w.limits_of r l q).rlim_max
with_limit-fine w r l q = elim (Bool-cases (is_same r q)) [
  | inl same ↦ rw same (ground arith)
  | inr other ↦ rw other (w.fine q)
]

is_same_refl : (r : Resource) → is_same r r ≡ true
is_same_refl nofile = refl
is_same_refl nproc = refl
is_same_refl sigpending = refl
is_same_refl address_space = refl

instance abbrev owner_control : Control Owner
owner_control = record {
  getrlimit = λ r w. done (w.limits_of r) w;
  setrlimit = λ r l w.
      done tt (record { limits_of = with_limit w.limits_of r l; fine = with_limit-fine w r l });
  getpriority = λ w. done (pos 0) w;
  setpriority = λ n w. done true w;
}

abbrev nothing : Owner → Unit {0}
nothing w = tt

clamped_lem : (l : Rlimit) → l.rlim_cur ≤ l.rlim_max → clamped l ≡ l
clamped_lem l ordered = ground (arith, ordered)

owner-ControlLaws : ControlLaws owner_control (λ w. w.limits_of) nothing
owner-ControlLaws = record {
  ordered = λ w r. w.fine r;
  getrlimit_ok = λ w r. returns (refl, refl, refl);
  setrlimit_ok = λ w r l positive ordered less.
      returns ((rw (is_same_refl r) (clamped_lem l ordered), (λ q other. rw other refl)), refl);
  getpriority_ok = λ w. returns (refl, refl);
  setpriority_ok = λ w. returns (refl, refl, refl);
}

abbrev owner : Owner
owner = record {
  limits_of = λ r. record { rlim_cur = 2 ^ 30; rlim_max = 2 ^ 40 };
  fine = λ r. omega arith;
}

abbrev count_lines : ℕ → List ℕ → ℕ
count_lines n line = n + 1

for_lines-lines_example :
    Returns
      (λ r w'. (r ≡ (fold_lines count_lines 0 (lines text), closed)) × (tt ≡ tt))
      (for_lines 0 meminfo count_lines 30 0 closed owner)
for_lines-lines_example =
    for_lines-lines nothing meminfo text junk (text_laws nothing) 0 count_lines 30 owner 0
      text-NoNul text_fits (omega arith)

abbrev all_kept : Owner → Limits × Unit {0}
all_kept = both (λ w. w.limits_of) nothing

text-IsMeminfo : IsMeminfo first_number text 200 100
text-IsMeminfo = record {
  first = [];
  second = [];
  third = [];
  mem_text = 200 ∷ [];
  swap_text = 100 ∷ [];
  in_order = refl;
  first_other = tt;
  second_other = tt;
  third_other = tt;
  swap_only = not-Has mem_word (swap_word ++ (100 ∷ [])) refl;
  mem_read = refl;
  swap_read = refl;
}

chk_calloc_prepare-IsMeminfo_example :
    Returns
      (Outcome
        (λ w. w.limits_of)
        nothing
        owner-ControlLaws
        0
        30
        text
        junk
        200
        100
        50
        (pos 2)
        (pos 60)
        (setting_laws all_kept overcommit_memory 2 refl)
        (setting_laws all_kept swappiness 60 refl)
        (setting_laws all_kept overcommit_ratio 50 refl)
        (text_laws all_kept)
        (λ w. returns refl)
        true
        owner)
      (chk_calloc_prepare 0 30 closed owner)
chk_calloc_prepare-IsMeminfo_example =
    chk_calloc_prepare-IsMeminfo (λ w. w.limits_of) nothing owner-ControlLaws 0 30 text junk 200 100
      50 (pos 2) (pos 60) (setting_laws all_kept overcommit_memory 2 refl)
      (setting_laws all_kept swappiness 60 refl) (setting_laws all_kept overcommit_ratio 50 refl)
      (text_laws all_kept) (λ w. returns refl) owner text-NoNul text_fits (omega arith)
      text-IsMeminfo (omega arith) (omega arith) (omega arith) (omega arith) (omega arith)
