-- ===== src/Tests/Checks.antt =====
-- The checks of src/syschk.c on a host with few resources, whose clock moves on by a second with
-- every look at it.
use atomicles.Base.{
  ℕ, suc, ◌-◌, ◌≤◌, ◌≡◌, true, ◌++◌, List, length, [], ◌∷◌, arith, ltb, if◌then◌else◌,
}
use atomicles.Sys.Run.{Cmd, done}
use atomicles.Syschk.{Host, Clock, Answer, got, refused, emfile, threshold}
use atomicles.Syschk.Messages.{Timeb, messages, null, add_message, messages-add_message}
use atomicles.Syschk.Limits.{Rlimit, setrlim, setrlim-bounds}

-- Open files or blocks, of which there can be ten, and the time.
record Machine : Type 0 where
  used : ℕ
  now : ℕ

abbrev take : Cmd Machine Answer
take w =
    if ltb w.used 10
    then done (got w.used) (record w { used = suc w.used })
    else done (refused emfile) w

abbrev give : Cmd Machine (Unit {0})
give w = done tt (record w { used = w.used - 1 })

abbrev small : Host Machine
small = record {
  time = λ w. done w.now (record w { now = suc w.now });
  open_tmp = take;
  unlink_tmp = λ w. done tt w;
  close = λ fh. give;
  allocate = λ zeroed size. take;
  free = λ block. give;
  allocate_table = λ count size w. done (got 0) w;
  free_table = λ table w. done tt w;
  on_stack = λ bytes w. done true w;
}

abbrev at_start : Machine
at_start = record { used = 3; now = 50 }

abbrev clock : Clock
clock = record { t_last = 0; counter_last = 0 }

abbrev start_time : Timeb
start_time = record { time = 50; millitm = 7 }

abbrev end_time : Timeb
end_time = record { time = 52; millitm = 1 }

messages-add_message_example :
    (short : List ℕ) × (tail : List ℕ) × (79 ∷ 80 ∷ [] ≡ short ++ tail)
    × (length short ≡ 2)
    × (messages (add_message null (79 ∷ 80 ∷ []) start_time end_time 10 8 threshold)
        ≡ messages null
          ++ (record {
            name = short;
            limit = 10;
            reach = 8;
            reason = threshold;
            stime = record { time = 50; millitm = 0 };
            etime = end_time;
          }
              ∷ []))
messages-add_message_example =
    messages-add_message null (79 ∷ 80 ∷ []) start_time end_time 10 8 threshold

abbrev user : Rlimit
user = record { rlim_cur = 4096; rlim_max = 8192 }

setrlim-bounds_example :
    ((setrlim 1000 user).rlim_cur ≡ 1000)
    × ((setrlim 1000 user).rlim_cur ≤ (setrlim 1000 user).rlim_max)
    × ((setrlim 1000 user).rlim_max ≤ 8192)
    × (setrlim 1000 (setrlim 1000 user) ≡ setrlim 1000 user)
setrlim-bounds_example = setrlim-bounds 1000 user (omega arith) (omega arith)
