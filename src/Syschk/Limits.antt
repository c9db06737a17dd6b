-- ===== src/Syschk/Limits.antt =====
-- The macro `setrlim` of src/syschk.c, which lowers the limits of the process to those of the system.
use atomicles.Base.{ℕ, ◌≤◌, ◌<◌, ◌≡◌, Bool, ◌&&◌, ltb, if◌then◌else◌, arith}

-- `struct rlimit`; RLIM_INFINITY is the largest `unsigned long`.
pub record Rlimit : Type 0 where
  pub rlim_cur : ℕ
  pub rlim_max : ℕ

-- Whether the limit is set anew.
unfoldable pub exceeds : (syslim : ℕ) → Rlimit → Bool
exceeds syslim l = ltb 0 syslim && ltb syslim l.rlim_cur

-- The limit that is given to `setrlimit`. The two conditions compare the address of the function
-- `system` with 0, which is always above.
unfoldable pub lowered : (syslim : ℕ) → Rlimit → Rlimit
lowered syslim l = record {
  rlim_cur = if ltb syslim l.rlim_cur then syslim else l.rlim_cur;
  rlim_max = if ltb syslim l.rlim_max then syslim else l.rlim_max;
}

-- The limit of the process behind the macro, when `setrlimit` accepts what it is given.
unfoldable pub setrlim : (syslim : ℕ) → Rlimit → Rlimit
unfolding exceeds lowered
setrlim syslim l = if exceeds syslim l then lowered syslim l else l

-- With a positive limit of the system, and a current limit up to the maximum: afterwards the current
-- limit is the smaller of it and the system's, still up to the maximum, neither was raised, and to
-- set the limit again changes nothing.
pub setrlim-bounds :
    (syslim : ℕ) (l : Rlimit)
    → 0 < syslim
    → l.rlim_cur ≤ l.rlim_max
    → ((setrlim syslim l).rlim_cur ≡ (if ltb syslim l.rlim_cur then syslim else l.rlim_cur))
      × ((setrlim syslim l).rlim_cur ≤ (setrlim syslim l).rlim_max)
      × ((setrlim syslim l).rlim_max ≤ l.rlim_max)
      × (setrlim syslim (setrlim syslim l) ≡ setrlim syslim l)
unfolding setrlim exceeds lowered
setrlim-bounds syslim l positive ordered = (ground arith, ground arith, ground arith, ground arith)
