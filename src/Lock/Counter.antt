-- ===== src/Lock/Counter.antt =====
-- The abstract counting semaphore that src/lock.c keeps under a key, and what the kernel's tables
-- hold for it.
use atomicles.Base.{ℕ, ◌≤◌, ◌≡◌, ◌≢◌, true, some, [], ◌∷◌, arith, ◌==◌, if◌then◌else◌}
use atomicles.Sys.{Kernel}
use atomicles.Sys.View.{View, SemSet, Segment, put_set, set_value, attach_at}
use atomicles.Sys.Tables.{update_self}
use atomicles.Sys.Laws.{max_value}
use atomicles.Semaphore.{sem_key}
use atomicles.SharedMemory.{guard_key, shm_key}
use atomicles.Lock.{Globals, globals, delta_of}

-- `size` units, `free` of them free; made (or last set up) at `since`; with `lifetime` 0 it never
-- expires, and otherwise `lifetime` seconds after `since`.
pub record Counter : Type 0 where
  pub size : ℕ
  pub free : ℕ
  pub since : ℕ
  pub lifetime : ℕ

abbrev pub flag_of : ℕ → ℕ
flag_of lifetime = if lifetime == 0 then 0 else 1

abbrev pub user_set : Counter → SemSet
user_set c = record { values = c.free ∷ []; ctime = c.since }

-- The identifiers of a counter's parts in the kernel, and when its guard was made.
pub record Ids : Type 0 where
  pub set : ℕ
  pub segment : ℕ
  pub guard : ℕ
  pub guard_since : ℕ

abbrev pub settings : Counter → Segment
settings c = record { words = c.size ∷ flag_of c.lifetime ∷ c.lifetime ∷ 0 ∷ [] }

abbrev pub mutex : ℕ → SemSet
mutex since = record { values = 1 ∷ []; ctime = since }

-- A set and a segment under the key, and the segment's guard, a free mutex, under the key + 128.
pub record IsCounter {W : Type 0} (k : Kernel W) (key : ℕ) (c : Counter) (i : Ids) (v : View)
    : Type 0 where
  pub within : c.free ≤ c.size
  pub sized : c.size ≤ max_value
  pub apart : i.guard ≢ i.set
  pub set_bound : v.sem_ids (sem_key k key) ≡ some i.set
  pub set_there : v.sems i.set ≡ some (user_set c)
  pub segment_bound : v.shm_ids (shm_key k key) ≡ some i.segment
  pub segment_there : v.shms i.segment ≡ some (settings c)
  pub guard_bound : v.sem_ids (sem_key k (guard_key key)) ≡ some i.guard
  pub guard_there : v.sems i.guard ≡ some (mutex i.guard_since)

-- The values of `expiry` and `delta` that belong to the counter at the time `now`.
abbrev pub globals_of : Counter → (now : ℕ) → Globals
globals_of c now =
    if c.lifetime == 0
    then globals
    else record { expiry = true; delta = delta_of c.since c.lifetime now }

module _ {W : Type 0} {k : Kernel W} {key : ℕ} {c : Counter} {i : Ids} {v : View}
    (r : IsCounter k key c i v) where
  -- One more mapping in the process is no matter.
  pub IsCounter-attach_at : (addr id : ℕ) → IsCounter k key c i (attach_at v addr id)
  IsCounter-attach_at addr id = record {
    within = r.within;
    sized = r.sized;
    apart = r.apart;
    set_bound = r.set_bound;
    set_there = r.set_there;
    segment_bound = r.segment_bound;
    segment_there = r.segment_there;
    guard_bound = r.guard_bound;
    guard_there = r.guard_there;
  }

  -- Another number of free units.
  pub IsCounter-put_set :
      (n : ℕ)
      → n ≤ c.size
      → IsCounter k key (record c { free = n }) i (put_set v i.set (set_value (user_set c) 0 n))
  IsCounter-put_set n fits = record {
    within = fits;
    sized = r.sized;
    apart = r.apart;
    set_bound = r.set_bound;
    set_there = update_self v.sems i.set (some (user_set (record c { free = n })));
    segment_bound = r.segment_bound;
    segment_there = r.segment_there;
    guard_bound = r.guard_bound;
    guard_there = ground (arith, r.apart, r.guard_there);
  }
