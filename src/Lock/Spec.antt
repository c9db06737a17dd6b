-- ===== src/Lock/Spec.antt =====
-- What the command promises, on the abstract counting semaphore.
use atomicles.Base.{ℕ, suc, ◌+◌, ◌-◌, Bool, not, ◌&&◌, ltb, ◌==◌, if◌then◌else◌}
use atomicles.Base.Int.{ℤ, pos, minus_one, sub_ℕ, to_int}
use atomicles.Lock.{Status, delta_of}
use atomicles.Lock.Counter.{Counter}

-- The lifetime, if there is one, is over at the time `now`.
abbrev pub expired : Counter → (now : ℕ) → Bool
expired c now = not (c.lifetime == 0) && not (ltb now (c.since + c.lifetime))

-- `on`, without waiting: a unit, or 1 when there is none.
abbrev pub acquire : Counter → Counter × ℤ
acquire c = if c.free == 0 then (c, pos 1) else (record c { free = c.free - 1 }, pos 0)

-- `off`: a unit back, or -1 when none is out.
abbrev pub release : Counter → Counter × ℤ
release c = if ltb c.free c.size then (record c { free = suc c.free }, pos 0) else (c, minus_one)

abbrev pub dead : Status
dead = record { u = minus_one; s = minus_one; d = minus_one }

-- `status`: the units that are out, the size, and the time left.
abbrev pub report_of : Counter → (now : ℕ) → ℤ × Status
report_of c now = if expired c now then (minus_one, dead) else (
  pos 0,
  record {
    u = sub_ℕ c.size c.free;
    s = pos c.size;
    d = if c.lifetime == 0 then minus_one else to_int (delta_of c.since c.lifetime now);
  },
)
