-- ===== src/Sys/Sim.antt =====
-- A small kernel that keeps the documented behaviour (Sys/Sim/Lawful.antt): the tables themselves,
-- a number above every identifier in use, and a `malloc` whose blocks hold the number 8.

pub mod Lawful
use atomicles.Base.{
  ℕ, zero, suc, ◌+◌, ◌-◌, ◌*◌, ◌%◌, ◌≤◌, ◌<◌, ◌≡◌, ◌≢◌, refl, sym, ◌∙◌, Bool, Bool-cases, inl, inr,
  ◌&&◌, ◌/◌, true, false, Option, none, some, List, [], ◌∷◌, arith, ltb, leb, ◌==◌, if◌then◌else◌,
  get_elem?, set, length, replicate,
}
use atomicles.Base.Int.{pos, negsuc}
use atomicles.Sys.{
  Kernel, Reply, got, failed, eagain, eexist, einval, enoent, erange, other, dev_zero, dev_null,
  KeyFile, Sembuf, SemidDs, no_key,
}
use atomicles.Sys.Run.{Run, Cmd, done, fault, blocked}
use atomicles.Sys.View.{
  View, SemSet, Segment, update, unbind, put_set, add_set, remove_set, set_value, put_words,
  add_segment, remove_segment, attach_at, detach_at,
}
use atomicles.Sys.Laws.{max_value}

-- From `next` on, no identifier and no address is in use.
pub record World : Type 0 where
  pub v : View
  pub next : ℕ
  pub high : no_key < next
  pub real : (key id : ℕ) → v.sem_ids key ≡ some id → id ≢ no_key
  pub no_set : (j : ℕ) → next ≤ j → v.sems j ≡ none
  pub no_segment : (j : ℕ) → next ≤ j → v.shms j ≡ none
  pub no_map : (j : ℕ) → next ≤ j → v.maps j ≡ none

module _ {A : Type 0} (f : ℕ → Option A) where
  pub update-above :
      (n id : ℕ) (a : Option A)
      → ((j : ℕ) → n ≤ j → f j ≡ none)
      → (j : ℕ) → n + suc id ≤ j
      → update f id a j ≡ none
  update-above n id a empty j above =
      let other_id : (id == j) ≡ false = ground arith in rw other_id (empty j (omega arith))

  pub clear-above :
      (n id : ℕ) → ((j : ℕ) → n ≤ j → f j ≡ none) → (j : ℕ) → n ≤ j → update f id none j ≡ none
  clear-above n id empty j above = ground (arith, empty j above)

pub still_above :
    {A : Type 0} (f : ℕ → Option A) (n id : ℕ)
    → ((j : ℕ) → n ≤ j → f j ≡ none)
    → (j : ℕ) → n + suc id ≤ j
    → f j ≡ none
still_above f n id empty j above = empty j (omega arith)

pub higher : (n id : ℕ) → no_key < n → no_key < n + suc id
higher n id h = omega arith

pub bind_real :
    (f : ℕ → Option ℕ) (key n : ℕ)
    → no_key < n
    → ((key id : ℕ) → f key ≡ some id → id ≢ no_key)
    → (key' id : ℕ) → update f key (some n) key' ≡ some id
    → id ≢ no_key
bind_real f key n high real key' id bound = elim (Bool-cases (key == key')) [
  | inl same ↦
      let here : update f key (some n) key' ≡ some n = rw same refl in
      let both : some n ≡ some id = sym here ∙ bound in
      let e : n ≡ id = ground (arith, both) in omega (arith, e, high)
  | inr differs ↦
      let there : update f key (some n) key' ≡ f key' = rw differs refl in
      real key' id (sym there ∙ bound)
]

pub unbind_real :
    (f : ℕ → Option ℕ) (gone : ℕ)
    → ((key id : ℕ) → f key ≡ some id → id ≢ no_key)
    → (key id : ℕ) → unbind f gone key ≡ some id
    → id ≢ no_key
unbind_real f gone real key id bound = ground (arith, bound, real key id)

-- The world with other tables, when `id` is used in them.
module _ (w : World) where
  abbrev pub with_set : ℕ → SemSet → World
  with_set id s = record {
    v = put_set w.v id s;
    next = w.next + suc id;
    high = higher w.next id w.high;
    real = w.real;
    no_set = update-above w.v.sems w.next id (some s) w.no_set;
    no_segment = still_above w.v.shms w.next id w.no_segment;
    no_map = still_above w.v.maps w.next id w.no_map;
  }

  abbrev pub with_new_set : ℕ → SemSet → World
  with_new_set key s = record {
    v = add_set w.v key w.next s;
    next = w.next + suc w.next;
    high = higher w.next w.next w.high;
    real = bind_real w.v.sem_ids key w.next w.high w.real;
    no_set = update-above w.v.sems w.next w.next (some s) w.no_set;
    no_segment = still_above w.v.shms w.next w.next w.no_segment;
    no_map = still_above w.v.maps w.next w.next w.no_map;
  }

  abbrev pub without_set : ℕ → World
  without_set id = record {
    v = remove_set w.v id;
    next = w.next;
    high = w.high;
    real = unbind_real w.v.sem_ids id w.real;
    no_set = clear-above w.v.sems w.next id w.no_set;
    no_segment = w.no_segment;
    no_map = w.no_map;
  }

  abbrev pub with_words : ℕ → List ℕ → World
  with_words id ws = record {
    v = put_words w.v id ws;
    next = w.next + suc id;
    high = higher w.next id w.high;
    real = w.real;
    no_set = still_above w.v.sems w.next id w.no_set;
    no_segment = update-above w.v.shms w.next id (some (record { words = ws })) w.no_segment;
    no_map = still_above w.v.maps w.next id w.no_map;
  }

  abbrev pub with_new_segment : ℕ → List ℕ → World
  with_new_segment key ws = record {
    v = add_segment w.v key w.next ws;
    next = w.next + suc w.next;
    high = higher w.next w.next w.high;
    real = w.real;
    no_set = still_above w.v.sems w.next w.next w.no_set;
    no_segment = update-above w.v.shms w.next w.next (some (record { words = ws })) w.no_segment;
    no_map = still_above w.v.maps w.next w.next w.no_map;
  }

  abbrev pub without_segment : ℕ → World
  without_segment id = record {
    v = remove_segment w.v id;
    next = w.next;
    high = w.high;
    real = w.real;
    no_set = w.no_set;
    no_segment = clear-above w.v.shms w.next id w.no_segment;
    no_map = w.no_map;
  }

  abbrev pub with_map : ℕ → World
  with_map id = record {
    v = attach_at w.v w.next id;
    next = w.next + suc w.next;
    high = higher w.next w.next w.high;
    real = w.real;
    no_set = still_above w.v.sems w.next w.next w.no_set;
    no_segment = still_above w.v.shms w.next w.next w.no_segment;
    no_map = update-above w.v.maps w.next w.next (some id) w.no_map;
  }

  abbrev pub without_map : ℕ → World
  without_map addr = record {
    v = detach_at w.v addr;
    next = w.next;
    high = w.high;
    real = w.real;
    no_set = w.no_set;
    no_segment = w.no_segment;
    no_map = clear-above w.v.maps w.next addr w.no_map;
  }

  abbrev pub later : ℕ → World
  later n = record {
    v = record w.v { clock = w.v.clock + n };
    next = w.next;
    high = w.high;
    real = w.real;
    no_set = w.no_set;
    no_segment = w.no_segment;
    no_map = w.no_map;
  }

unfoldable pub key_of : KeyFile → ℕ → ℕ
key_of dev_zero n = n % 256
key_of dev_null n = 256 + n % 256

unfoldable pub all_within : List ℕ → Bool
all_within [] = true
all_within (n ∷ ns) = leb n max_value && all_within ns

-- The continuation on what is found, or the first value when nothing is.
abbrev pub look : {A B : Type 0} → Option A → B → (A → B) → B
look none b f = b
look (some a) b f = f a

abbrev pub create_set : (key n : ℕ) → Bool → Cmd World (Reply ℕ)
create_set key n creat w =
    look (w.v.sem_ids key)
      (if creat
        then done (got w.next)
            (with_new_set w key (record { values = replicate n 0; ctime = w.v.clock }))
        else done (failed enoent) w)
      λ id. done (if creat then failed eexist else got id) w

abbrev pub set_all : ℕ → List ℕ → Cmd World (Reply (Unit {0}))
set_all id ns w = look (w.v.sems id) (done (failed einval) w) λ _.
    if all_within ns
    then done (got tt) (with_set w id (record { values = ns; ctime = w.v.clock }))
    else done (failed erange) w

abbrev pub value_at : ℕ → ℕ → Cmd World (Reply ℕ)
value_at id i w =
    look (w.v.sems id) (done (failed einval) w)
      λ s. look (get_elem? s.values i) (done (failed einval) w) λ n. done (got n) w

-- An operation on the semaphore `op.sem_num` of the set `s`, whose value is `n`.
abbrev pub operate : (id : ℕ) → SemSet → (n : ℕ) → Sembuf → Cmd World (Reply (Unit {0}))
operate id s n op w = elim op.sem_op [
  | pos m ↦
      if leb (m + n) max_value
      then done (got tt) (with_set w id (set_value s op.sem_num (m + n)))
      else done (failed erange) w
  | negsuc m ↦
      if ltb m n
      then done (got tt) (with_set w id (set_value s op.sem_num (n - suc m)))
      else if op.nowait
      then done (failed eagain) w
      else blocked
]

abbrev pub semop_at : ℕ → Sembuf → Cmd World (Reply (Unit {0}))
semop_at id op w =
    look (w.v.sems id) (done (failed einval) w) λ s.
      look (get_elem? s.values op.sem_num) (done (failed (other 27)) w) λ n. operate id s n op w

abbrev pub create_segment : (key n : ℕ) → Bool → Cmd World (Reply ℕ)
create_segment key n creat w =
    look (w.v.shm_ids key)
      (if creat
        then done (got w.next) (with_new_segment w key (replicate (n / 4) 0))
        else done (failed enoent) w)
      λ id. done (if creat then failed eexist else got id) w

-- What is done with the segment that is mapped at an address.
abbrev pub at_address : {A : Type 0} → ℕ → World → (ℕ → Segment → Run World A) → Run World A
at_address addr w f = look (w.v.maps addr) fault λ id. look (w.v.shms id) fault λ s. f id s

abbrev pub peek_at : ℕ → ℕ → Cmd World ℕ
peek_at addr i w = at_address addr w λ id s. look (get_elem? s.words i) fault λ n. done n w

abbrev pub poke_at : ℕ → ℕ → ℕ → Cmd World (Unit {0})
poke_at addr i n w =
    at_address addr w
      λ id s. if ltb i (length s.words) then done tt (with_words w id (set s.words i n)) else fault

abbrev pub clear : ℕ → ℕ → Cmd World (Unit {0})
clear addr n w = at_address addr w λ id s.
    if leb n (4 * length s.words)
    then done tt (with_words w id (replicate (length s.words) 0))
    else fault

abbrev pub status_of : ℕ → Cmd World (Reply SemidDs)
status_of id w =
    look (w.v.sems id) (done (failed einval) w)
      λ s. done (got (record { sem_nsems = length s.values; sem_ctime = s.ctime })) w

abbrev pub sim : Kernel World
sim = record {
  malloc = done (some 8);
  ftok = key_of;
  semget = create_set;
  semctl_rmid =
      λ id w. look (w.v.sems id) (done (failed einval) w) λ _. done (got tt) (without_set w id);
  semctl_setall = set_all;
  semctl_getval = value_at;
  semctl_stat = status_of;
  semop = semop_at;
  shmget = create_segment;
  shmat =
      λ id w. look (w.v.shms id) (done (failed einval) w) λ _. done (got w.next) (with_map w id);
  shmdt = λ addr w.
      look (w.v.maps addr) (done (failed einval) w) λ _. done (got tt) (without_map w addr);
  shmctl_rmid =
      λ id w. look (w.v.shms id) (done (failed einval) w) λ _. done (got tt) (without_segment w id);
  peek = peek_at;
  poke = poke_at;
  memset = clear;
  mlockall = done (got tt);
  mlock = λ _ _. done (got tt);
  munlockall = done (got tt);
  sleep = λ n w. done tt (later w n);
  time = λ w. done w.v.clock w;
}
