-- ===== src/Sys/View.antt =====
-- What the program relies on of the kernel's IPC tables: an abstract state, read off the world.
use atomicles.Base.{ℕ, Bool, Option, none, some, List, ◌==◌, if◌then◌else◌, set}

pub record SemSet : Type 0 where
  pub values : List ℕ
  pub ctime : ℕ

-- A segment as its 32-bit words.
pub record Segment : Type 0 where
  pub words : List ℕ

-- Sets and segments by id, ids by key, the mapped segment by address, the clock, and whether a
-- signal to a process id would be delivered.
pub record View : Type 0 where
  pub sems : ℕ → Option SemSet
  pub sem_ids : ℕ → Option ℕ
  pub shms : ℕ → Option Segment
  pub shm_ids : ℕ → Option ℕ
  pub maps : ℕ → Option ℕ
  pub clock : ℕ
  pub procs : ℕ → Bool

abbrev pub update : {A : Type 0} → (ℕ → Option A) → ℕ → Option A → ℕ → Option A
update f i a j = if i == j then a else f j

-- Every key bound to `id` loses it.
abbrev pub unbind : (ℕ → Option ℕ) → ℕ → ℕ → Option ℕ
unbind f id key = elim (f key) [ none ↦ none | some i ↦ if i == id then none else some i ]

abbrev pub put_set : View → ℕ → SemSet → View
put_set v id s = record v { sems = update v.sems id (some s) }

-- `semget` with IPC_CREAT: a new set under a key.
abbrev pub add_set : View → ℕ → ℕ → SemSet → View
add_set v key id s = record v {
  sems = update v.sems id (some s);
  sem_ids = update v.sem_ids key (some id);
}

abbrev pub remove_set : View → ℕ → View
remove_set v id = record v { sems = update v.sems id none; sem_ids = unbind v.sem_ids id }

abbrev pub set_value : SemSet → ℕ → ℕ → SemSet
set_value s i n = record s { values = set s.values i n }

abbrev pub put_words : View → ℕ → List ℕ → View
put_words v id ws = record v { shms = update v.shms id (some (record { words = ws })) }

abbrev pub add_segment : View → ℕ → ℕ → List ℕ → View
add_segment v key id ws = record v {
  shms = update v.shms id (some (record { words = ws }));
  shm_ids = update v.shm_ids key (some id);
}

abbrev pub remove_segment : View → ℕ → View
remove_segment v id = record v { shms = update v.shms id none; shm_ids = unbind v.shm_ids id }

abbrev pub attach_at : View → ℕ → ℕ → View
attach_at v addr id = record v { maps = update v.maps addr (some id) }

abbrev pub detach_at : View → ℕ → View
detach_at v addr = record v { maps = update v.maps addr none }
