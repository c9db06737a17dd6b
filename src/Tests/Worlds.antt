-- ===== src/Tests/Worlds.antt =====
-- Worlds of the small kernel.
use atomicles.Base.{leb, Option, some, ◌≢◌, ◌≡◌, ℕ, ◌+◌, refl, none, arith, [], ◌∷◌}
use atomicles.Sys.{no_key}
use atomicles.Sys.View.{SemSet}
use atomicles.Sys.Sim.{
  World, sim, key_of, with_set, with_new_set, with_new_segment, with_map, with_words,
}
use atomicles.Semaphore.{Semaphore}
use atomicles.Semaphore.Life.{object}
use atomicles.Lock.Counter.{Counter, Ids, IsCounter, user_set, settings, mutex}

pub nothing_bound : {id : ℕ} → ◌≡◌ {A = Option ℕ} none (some id) → id ≢ no_key
nothing_bound bound = ground (arith, bound)

-- No set and no segment, at the time 100, with processes up to the number 20.
abbrev pub empty : World
empty = record {
  v = record {
    sems = λ _. none;
    sem_ids = λ _. none;
    shms = λ _. none;
    shm_ids = λ _. none;
    maps = λ _. none;
    clock = 100;
    procs = λ pid. leb pid 20;
  };
  next = no_key + 1;
  high = omega arith;
  real = λ key id bound. nothing_bound bound;
  no_set = λ j h. refl;
  no_segment = λ j h. refl;
  no_map = λ j h. refl;
}

-- Two units, one of them free, for 60 seconds.
abbrev pub pair : Counter
pair = record { size = 2; free = 1; since = 90; lifetime = 60 }

abbrev pub segment_id : ℕ
segment_id = no_key + 1

abbrev pub set_id : ℕ
set_id = segment_id + (1 + segment_id)

abbrev pub guard_id : ℕ
guard_id = set_id + (1 + set_id)

abbrev pub address : ℕ
address = guard_id + (1 + guard_id)

-- The counter `pair` under the key 5, with its segment mapped once.
abbrev pub in_use : World
in_use =
    with_map
      (with_new_set
        (with_new_set (with_new_segment empty 5 (settings pair).words) 261 (user_set pair)) 389
        (mutex 90))
      segment_id

abbrev pub ids : Ids
ids = record { set = set_id; segment = segment_id; guard = guard_id; guard_since = 90 }

pub pair-IsCounter : IsCounter sim 5 pair ids in_use.v
unfolding key_of
pair-IsCounter = record {
  within = omega arith;
  sized = omega arith;
  apart = omega arith;
  set_bound = refl;
  set_there = refl;
  segment_bound = refl;
  segment_there = refl;
  guard_bound = refl;
  guard_there = refl;
}

-- The same set with nothing free.
abbrev pub busy_set : SemSet
busy_set = record { values = 0 ∷ []; ctime = 90 }

abbrev pub busy : World
busy = with_set in_use set_id busy_set

abbrev pub pair_object : Semaphore
pair_object = object 5 set_id 1 2

-- The same for ever.
abbrev pub lasting : Counter
lasting = record pair { lifetime = 0 }

abbrev pub in_use_for_ever : World
in_use_for_ever = with_words in_use segment_id (settings lasting).words

pub lasting-IsCounter : IsCounter sim 5 lasting ids in_use_for_ever.v
unfolding key_of
lasting-IsCounter = record {
  within = omega arith;
  sized = omega arith;
  apart = omega arith;
  set_bound = refl;
  set_there = refl;
  segment_bound = refl;
  segment_there = refl;
  guard_bound = refl;
  guard_there = refl;
}

-- The same with a segment of five words.
abbrev pub five_words : World
five_words = with_words in_use segment_id (0 ∷ 0 ∷ 0 ∷ 0 ∷ 0 ∷ [])
