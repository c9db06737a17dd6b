-- ===== src/Sys/Sim/Lawful.antt =====
-- The small kernel keeps the documented behaviour.
use atomicles.Base.{
  ℕ, zero, suc, ◌+◌, ◌-◌, ◌*◌, ◌/◌, ◌%◌, ◌≤◌, ◌<◌, ◌≡◌, ◌≢◌, refl, true, false, arith, ltb, leb,
  length, replicate, length-replicate,
}
use atomicles.Sys.{dev_zero, dev_null, KeyFile, no_key}
use atomicles.Sys.Run.{returns}
use atomicles.Sys.Laws.{max_value, Laws}
use atomicles.Sys.Sim.{sim, key_of, all_within}

pub key_of_low : (f : KeyFile) (n : ℕ) → key_of f n ≡ key_of f (n % 256)
unfolding key_of
key_of_low dev_zero n = omega arith
key_of_low dev_null n = omega arith

pub key_of_injective : (f : KeyFile) (m n : ℕ) → m < 256 → n < 256 → key_of f m ≡ key_of f n → m ≡ n
unfolding key_of
key_of_injective dev_zero m n hm hn e = omega arith
key_of_injective dev_null m n hm hn e = omega arith

pub key_of_ok : (f : KeyFile) (n : ℕ) → key_of f n ≢ no_key
unfolding key_of
key_of_ok dev_zero n e = omega arith
key_of_ok dev_null n e = omega arith

pub all_within-replicate : (n v : ℕ) → v ≤ max_value → all_within (replicate n v) ≡ true
unfolding all_within
all_within-replicate zero v h = refl
all_within-replicate (suc n) v h =
    let first : leb v max_value ≡ true = ground arith in rw (first, all_within-replicate n v h) refl

pub not-all_within : (n v : ℕ) → 0 < n → max_value < v → all_within (replicate n v) ≡ false
unfolding all_within
not-all_within zero v positive h = ground (arith, positive)
not-all_within (suc n) v positive h =
    let first : leb v max_value ≡ false = ground arith in rw first refl

pub pred : (v : ℕ) → suc v - 1 ≡ v
pred v = omega arith

pub one : (v : ℕ) → 1 + v ≡ suc v
one v = omega arith

pub quarter : (n : ℕ) → (4 * n) / 4 ≡ n
quarter n = omega arith

pub ltb_of : (m n : ℕ) → m < n → ltb m n ≡ true
ltb_of m n h = ground arith

pub leb_of : (m n : ℕ) → m ≤ n → leb m n ≡ true
leb_of m n h = ground arith

unfoldable pub sim-Laws : Laws sim
sim-Laws = record {
  view = λ w. w.v;
  malloc_ok = λ w. returns (8, refl, refl);
  semmsl = 32000;
  shmmax = 33554432;
  semmsl_enough = omega arith;
  shmmax_enough = omega arith;
  ftok_low = key_of_low;
  ftok_injective = key_of_injective;
  ftok_ok = key_of_ok;
  semid_ok = λ w {key} {id} bound. w.real key id bound;
  semget_found = λ w bound. rw bound (returns (refl, refl));
  semget_missing = λ w free. rw free (returns (refl, refl));
  semget_exists = λ w n bound. rw bound (returns (refl, refl));
  semget_creates = λ w n free positive few. rw free (
      returns (
        w.next,
        record { values = replicate n 0; ctime = w.v.clock },
        refl,
        length-replicate n 0,
        w.no_set w.next (omega arith),
        refl,
      ));
  setall_ok =
      λ w n v there len small. rw (there, all_within-replicate n v small) (returns (refl, refl));
  setall_range = λ w n v there len positive large.
      rw (there, not-all_within n v positive large) (returns (refl, refl));
  getval_ok = λ w i there value. rw (there, value) (returns (refl, refl));
  stat_ok = λ w there. rw there (returns (refl, refl));
  rmid_ok = λ w there. rw there (returns (refl, refl));
  semop_take = λ w i {v} undo nowait there value.
      let enough : ltb 0 (suc v) ≡ true = ltb_of 0 (suc v) (omega arith) in
      rw (there, value, enough, pred v) (returns (refl, refl));
  semop_again = λ w i undo there value. rw (there, value) (returns (refl, refl));
  semop_give = λ w i {v} undo there value small.
      let fits : leb (1 + v) max_value ≡ true = leb_of (1 + v) max_value (omega (arith, small)) in
      rw (there, value, fits, one v) (returns (refl, refl));
  shmget_found = λ w bound. rw bound (returns (refl, refl));
  shmget_missing = λ w free. rw free (returns (refl, refl));
  shmget_exists = λ w n bound. rw bound (returns (refl, refl));
  shmget_creates = λ w n free positive few.
      rw (free, quarter n) (returns (w.next, refl, w.no_segment w.next (omega arith), refl));
  shmat_ok = λ w there. rw there (returns (w.next, refl, w.no_map w.next (omega arith), refl));
  shmdt_ok = λ w at. rw at (returns (refl, refl));
  shm_rmid_ok = λ w there. rw there (returns (refl, refl));
  peek_ok = λ w i at there value. rw (at, there, value) (returns (refl, refl));
  poke_ok = λ w {s} i v at there inside.
      let within : ltb i (length s.words) ≡ true = ltb_of i (length s.words) inside in
      rw (at, there, within) (returns (refl, refl));
  memset_ok = λ w {s} n at there fits.
      let within : leb n (4 * length s.words) ≡ true = leb_of n (4 * length s.words) fits in
      rw (at, there, within) (returns (replicate (length s.words) 0, refl));
  mlockall_ok = λ w. returns (refl, refl);
  munlockall_ok = λ w. returns (refl, refl);
  sleep_ok = λ w n. returns (omega arith);
  time_ok = λ w. returns (refl, refl);
}
