-- ===== src/Sys/Laws.antt =====
-- The manual pages: what each call answers and does to the tables, for a process that has the
-- permissions it asks for. `malloc_ok`, `semget_creates`, `shmget_creates` and `mlockall_ok` say
-- moreover that memory, ids and lockable memory are not exhausted. Between two calls of the process
-- nothing else acts; other processes act while it sleeps.
use atomicles.Base.{
  ℕ, suc, ◌+◌, ◌*◌, ◌%◌, ◌≤◌, ◌<◌, ◌≡◌, ◌≢◌, Bool, true, false, none, some, List, get_elem?, set,
  length, replicate,
}
use atomicles.Base.Int.{ℤ, pos, minus_one}
use atomicles.Sys.{Kernel, got, failed, eagain, eexist, enoent, erange, KeyFile, no_key, Sembuf}
use atomicles.Sys.Run.{Returns}
use atomicles.Sys.View.{
  View, SemSet, Segment, put_set, add_set, remove_set, set_value, put_words, add_segment,
  remove_segment, attach_at, detach_at,
}

-- SEMVMX
abbrev pub max_value : ℕ
max_value = 32767

abbrev pub sembuf : ℕ → ℤ → Bool → Bool → Sembuf
sembuf i op undo nowait = record { sem_num = i; sem_op = op; undo = undo; nowait = nowait }

-- A call that changes no table and answers `r`.
abbrev pub Answers : {W A : Type 0} → (W → View) → W → A → A → W → Type 0
Answers view w r a w' = (a ≡ r) × (view w' ≡ view w)

-- A call that answers `r` and leaves the tables `v`.
abbrev pub Leaves : {W A : Type 0} → (W → View) → View → A → A → W → Type 0
Leaves view v r a w' = (a ≡ r) × (view w' ≡ v)

pub record Laws {W : Type 0} (k : Kernel W) : Type 0 where
  pub view : W → View
  -- SEMMSL, the most semaphores of a set, and SHMMAX, the most bytes of a segment: the calls that
  -- make more are refused. A set may have 250, and a segment a page of 4096 bytes, on every system.
  pub semmsl : ℕ
  pub shmmax : ℕ
  pub semmsl_enough : 250 ≤ semmsl
  pub shmmax_enough : 4096 ≤ shmmax
  pub malloc_ok :
      (w : W) → Returns (λ r w'. (j : ℕ) × (r ≡ some j) × (view w' ≡ view w)) (k.malloc w)
  -- ftok: the low 8 bits of the number count, and tell keys of one file apart.
  pub ftok_low : (f : KeyFile) (n : ℕ) → k.ftok f n ≡ k.ftok f (n % 256)
  pub ftok_injective : (f : KeyFile) (m n : ℕ) → m < 256 → n < 256 → k.ftok f m ≡ k.ftok f n → m ≡ n
  pub ftok_ok : (f : KeyFile) (n : ℕ) → k.ftok f n ≢ no_key
  -- Identifiers are not negative.
  pub semid_ok : (w : W) {key id : ℕ} → (view w).sem_ids key ≡ some id → id ≢ no_key
  pub semget_found :
      (w : W) {key id : ℕ}
      → (view w).sem_ids key ≡ some id
      → Returns (Answers view w (got id)) (k.semget key 0 false w)
  pub semget_missing :
      (w : W) {key : ℕ}
      → (view w).sem_ids key ≡ none
      → Returns (Answers view w (failed enoent)) (k.semget key 0 false w)
  pub semget_exists :
      (w : W) {key id : ℕ} (n : ℕ)
      → (view w).sem_ids key ≡ some id
      → Returns (Answers view w (failed eexist)) (k.semget key n true w)
  pub semget_creates :
      (w : W) {key : ℕ} (n : ℕ)
      → (view w).sem_ids key ≡ none
      → 0 < n
      → n ≤ semmsl
      → Returns
          (λ r w'.
            (id : ℕ) × (s : SemSet) × (r ≡ got id)
            × (length s.values ≡ n)
            × ((view w).sems id ≡ none)
            × (view w' ≡ add_set (view w) key id s))
          (k.semget key n true w)
  pub setall_ok :
      (w : W) {id : ℕ} {s : SemSet} (n v : ℕ)
      → (view w).sems id ≡ some s
      → length s.values ≡ n
      → v ≤ max_value
      → Returns
          (Leaves view
            (put_set (view w) id (record { values = replicate n v; ctime = (view w).clock }))
            (got tt))
          (k.semctl_setall id (replicate n v) w)
  pub setall_range :
      (w : W) {id : ℕ} {s : SemSet} (n v : ℕ)
      → (view w).sems id ≡ some s
      → length s.values ≡ n
      → 0 < n
      → max_value < v
      → Returns (Answers view w (failed erange)) (k.semctl_setall id (replicate n v) w)
  pub getval_ok :
      (w : W) {id : ℕ} {s : SemSet} (i : ℕ) {v : ℕ}
      → (view w).sems id ≡ some s
      → get_elem? s.values i ≡ some v
      → Returns (Answers view w (got v)) (k.semctl_getval id i w)
  pub stat_ok :
      (w : W) {id : ℕ} {s : SemSet}
      → (view w).sems id ≡ some s
      → Returns
          (Answers view w (got (record { sem_nsems = length s.values; sem_ctime = s.ctime })))
          (k.semctl_stat id w)
  pub rmid_ok :
      (w : W) {id : ℕ} {s : SemSet}
      → (view w).sems id ≡ some s
      → Returns (Leaves view (remove_set (view w) id) (got tt)) (k.semctl_rmid id w)
  -- semop of -1 and of +1 on one semaphore.
  pub semop_take :
      (w : W) {id : ℕ} {s : SemSet} (i : ℕ) {v : ℕ} (undo nowait : Bool)
      → (view w).sems id ≡ some s
      → get_elem? s.values i ≡ some (suc v)
      → Returns
          (Leaves view (put_set (view w) id (set_value s i v)) (got tt))
          (k.semop id (sembuf i minus_one undo nowait) w)
  pub semop_again :
      (w : W) {id : ℕ} {s : SemSet} (i : ℕ) (undo : Bool)
      → (view w).sems id ≡ some s
      → get_elem? s.values i ≡ some 0
      → Returns (Answers view w (failed eagain)) (k.semop id (sembuf i minus_one undo true) w)
  pub semop_give :
      (w : W) {id : ℕ} {s : SemSet} (i : ℕ) {v : ℕ} (undo : Bool)
      → (view w).sems id ≡ some s
      → get_elem? s.values i ≡ some v
      → v < max_value
      → Returns
          (Leaves view (put_set (view w) id (set_value s i (suc v))) (got tt))
          (k.semop id (sembuf i (pos 1) undo false) w)
  -- Sizes of segments are given in bytes, four to a word; a new segment is zeroed.
  pub shmget_found :
      (w : W) {key id : ℕ}
      → (view w).shm_ids key ≡ some id
      → Returns (Answers view w (got id)) (k.shmget key 0 false w)
  pub shmget_missing :
      (w : W) {key : ℕ}
      → (view w).shm_ids key ≡ none
      → Returns (Answers view w (failed enoent)) (k.shmget key 0 false w)
  pub shmget_exists :
      (w : W) {key id : ℕ} (n : ℕ)
      → (view w).shm_ids key ≡ some id
      → Returns (Answers view w (failed eexist)) (k.shmget key n true w)
  pub shmget_creates :
      (w : W) {key : ℕ} (n : ℕ)
      → (view w).shm_ids key ≡ none
      → 0 < n
      → 4 * n ≤ shmmax
      → Returns
          (λ r w'.
            (id : ℕ) × (r ≡ got id)
            × ((view w).shms id ≡ none)
            × (view w' ≡ add_segment (view w) key id (replicate n 0)))
          (k.shmget key (4 * n) true w)
  pub shmat_ok :
      (w : W) {id : ℕ} {s : Segment}
      → (view w).shms id ≡ some s
      → Returns
          (λ r w'.
            (addr : ℕ) × (r ≡ got addr)
            × ((view w).maps addr ≡ none)
            × (view w' ≡ attach_at (view w) addr id))
          (k.shmat id w)
  pub shmdt_ok :
      (w : W) {addr id : ℕ}
      → (view w).maps addr ≡ some id
      → Returns (Leaves view (detach_at (view w) addr) (got tt)) (k.shmdt addr w)
  pub shm_rmid_ok :
      (w : W) {id : ℕ} {s : Segment}
      → (view w).shms id ≡ some s
      → Returns (Leaves view (remove_segment (view w) id) (got tt)) (k.shmctl_rmid id w)
  -- Reads and writes through the pointer of a mapped segment.
  pub peek_ok :
      (w : W) {addr id : ℕ} {s : Segment} (i : ℕ) {v : ℕ}
      → (view w).maps addr ≡ some id
      → (view w).shms id ≡ some s
      → get_elem? s.words i ≡ some v
      → Returns (Answers view w v) (k.peek addr i w)
  pub poke_ok :
      (w : W) {addr id : ℕ} {s : Segment} (i v : ℕ)
      → (view w).maps addr ≡ some id
      → (view w).shms id ≡ some s
      → i < length s.words
      → Returns (Leaves view (put_words (view w) id (set s.words i v)) tt) (k.poke addr i v w)
  pub memset_ok :
      (w : W) {addr id : ℕ} {s : Segment} (n : ℕ)
      → (view w).maps addr ≡ some id
      → (view w).shms id ≡ some s
      → n ≤ 4 * length s.words
      → Returns (λ _ w'. (ws : List ℕ) × (view w' ≡ put_words (view w) id ws)) (k.memset addr n w)
  pub mlockall_ok : (w : W) → Returns (Answers view w (got tt)) (k.mlockall w)
  pub munlockall_ok : (w : W) → Returns (Answers view w (got tt)) (k.munlockall w)
  pub sleep_ok :
      (w : W) (n : ℕ) → Returns (λ _ w'. (view w).clock + n ≤ (view w').clock) (k.sleep n w)
  pub time_ok : (w : W) → Returns (Answers view w (view w).clock) (k.time w)
