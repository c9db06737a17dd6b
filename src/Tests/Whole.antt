-- ===== src/Tests/Whole.antt =====
-- `main` of src/syschk.c in the small kernel, where one more process can be forked, and no file opened
-- and no memory allocated.
use atomicles.Base.{ℕ, true, ltb, ◌*◌, ◌/◌}
use atomicles.Base.Int.{pos}
use atomicles.Sys.Run.{done}
use atomicles.Sys.Sim.{World}
use atomicles.Syschk.{Host, got, refused, emfile, enomem}
use atomicles.Syschk.Limits.{Rlimit}
use atomicles.Syschk.Prepare.{Control}
use atomicles.Syschk.Prepared.{Limits}
use atomicles.Syschk.Dump.{Floats}
use atomicles.Syschk.Checks.{Start, Rounds}
use atomicles.Syschk.Segment.{Checks}
use atomicles.Syschk.System.{Readings, Stock}
use atomicles.Tests.Proc.{text, junk}

abbrev full_host : Host World
full_host = record {
  time = λ w. done w.v.clock w;
  open_tmp = λ w. done (refused emfile) w;
  unlink_tmp = λ w. done tt w;
  close = λ fh w. done tt w;
  allocate = λ zeroed size w. done (refused enomem) w;
  free = λ block w. done tt w;
  allocate_table = λ count size w. done (got 0) w;
  free_table = λ table w. done tt w;
  on_stack = λ bytes w. done true w;
}

abbrev one : Rlimit
one = record { rlim_cur = 1; rlim_max = 1 }

abbrev ones : World → Limits
ones w r = one

abbrev fixed : Control World
fixed = record {
  getrlimit = λ r w. done one w;
  setrlimit = λ r l w. done tt w;
  getpriority = λ w. done (pos 0) w;
  setpriority = λ n w. done true w;
}

abbrev started : Start World
started = record {
  new_message = λ w. done true w;
  ftime = λ w. done (record { time = w.v.clock; millitm = 5 }) w;
  sigaction = λ w. done true w;
}

-- Numbers in place of floating-point numbers.
abbrev numbers : Floats ℕ
numbers = record {
  of_ulong = λ n. n;
  times = λ m n. m * n;
  over = λ m n. m / n;
  above = λ m n. ltb n m;
}

abbrev nothing_left : Stock World
nothing_left = record { files = λ w. 0; files_cap = 1; blocks = λ w. 0; blocks_cap = 1 }

abbrev settings : Readings
settings = record {
  mode = pos 2;
  swap = pos 60;
  ratio = pos 50;
  files_max = pos 1;
  pids_max = pos 1;
  text = text;
  junk = junk;
}

abbrev rounds : Rounds
rounds = record { opens = 5; passes = 1; forks = 3; reads = 0; lines = 30; blocks = 5 }
