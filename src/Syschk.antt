-- ===== src/Syschk.antt =====
-- src/syschk.c: the messages of the checks, the measure of performance, and the limits that are set
-- before a check. The state that C keeps in `static` variables is passed on.
pub mod Open
pub mod Calloc
pub mod Messages
pub mod Limits
pub mod Opening
pub mod Callocing
pub mod Fork
pub mod Noted
pub mod Scanning
pub mod Forking
pub mod Proc
pub mod Prepare
pub mod Prepared
pub mod Dump
pub mod Checks
pub mod Segment
pub mod ForkCheck
pub mod System
pub mod Adding
pub mod Overcommit
pub mod Whole
pub mod Sock
pub mod Main
use atomicles.Base.{ℕ, ◌+◌, ◌-◌, ◌/◌, ◌%◌, ◌^◌, ◌==◌, Bool, true, false, if◌then◌else◌, ltb, leb}
use atomicles.Base.Int.{ℤ, pos, minus_one, sub_ℕ, ltb_ℤ, to_int}
use atomicles.Sys.Run.{Cmd, pure, ◌>>=◌}

-- The reasons that a check can end for.
pub data Reason : Type 0 where
  no_memory no_processes process_files system_files threshold unknown : Reason

-- `errno` of a failed call, as far as the checks tell it apart.
pub data Refusal : Type 0 where
  enomem eagain emfile enfile other : Refusal

pub data Answer : Type 0 where
  got : ℕ → Answer
  refused : Refusal → Answer

-- The system calls of the checks. `open_tmp` opens the temporary file, `allocate` is `malloc`
-- (false) or `calloc` (true) of a block, which `free` gives back. `allocate_table` is the `calloc`
-- of `heaps`, so many entries of so many bytes, which `free_table` gives back. `on_stack` tells
-- whether the stack has room for a local array of so many bytes.
pub record Host (W : Type 0) : Type 0 where
  pub time : Cmd W ℕ
  pub open_tmp : Cmd W Answer
  pub unlink_tmp : Cmd W (Unit {0})
  pub close : ℕ → Cmd W (Unit {0})
  pub allocate : Bool → (size : ℕ) → Cmd W Answer
  pub free : ℕ → Cmd W (Unit {0})
  pub allocate_table : (count size : ℕ) → Cmd W Answer
  pub free_table : ℕ → Cmd W (Unit {0})
  pub on_stack : (bytes : ℕ) → Cmd W Bool

-- The static variables of `performance`.
pub record Clock : Type 0 where
  pub t_last : ℕ
  pub counter_last : ℕ

-- A difference of two `unsigned long`.
abbrev pub sub_u64 : ℕ → ℕ → ℕ
sub_u64 a b = (a + 2 ^ 64 - b) % 2 ^ 64

-- The quotient as an `int`.
unfoldable pub rate : (counter last seconds divider : ℕ) → ℤ
rate counter last seconds divider = to_int (pos (sub_u64 counter last / seconds / divider))

-- `if(counter == 0) t_last = 0;`
unfoldable pub restart : Clock → (counter : ℕ) → Clock
restart c counter = if counter == 0 then record c { t_last = 0 } else c

module _ {W : Type 0} ⦃h : Host W⦄ where
  -- -1 until more than five seconds went by.
  unfoldable pub performance : Clock → (counter divider : ℕ) → Cmd W (ℤ × Clock)
  unfolding restart rate
  performance c counter divider = do
    t_now ← h.time
    let c' = restart c counter in
        if ltb 0 c'.t_last
        then pure (
            if ltb_ℤ (pos 5) (sub_ℕ t_now c'.t_last)
            then (
              rate counter c'.counter_last (t_now - c'.t_last) divider,
              record { t_last = t_now; counter_last = counter },
            )
            else (minus_one, c'))
        else (h.time >>= λ t. pure (minus_one, record c' { t_last = t }))
