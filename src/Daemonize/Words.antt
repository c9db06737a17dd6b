-- ===== src/Daemonize/Words.antt =====
-- The words that the daemon and the command share, read, written and given up.
use atomicles.Base.{
  ℕ, List, [], ◌∷◌, ◌+◌, ◌%◌, ◌^◌, ◌≤◌, ◌<◌, ◌≡◌, refl, ◌∙◌, ap, true, some, arith, get_elem?,
}
use atomicles.Sys.{Kernel}
use atomicles.Sys.Run
use atomicles.Sys.Run.{Returns, returns}
use atomicles.Sys.View.{View, SemSet, put_words, detach_at, remove_set}
use atomicles.Sys.Tables.{remove_segment-put_words}
use atomicles.Sys.Laws.{Laws, Answers, Leaves}
use atomicles.Semaphore.{Semaphore}
use atomicles.Semaphore.Life.{object}
use atomicles.SharedMemory as Shm
use atomicles.SharedMemory.{SharedMemory, guard_key, read_uint}
use atomicles.SharedMemory.Access.{IsReady, write_uint-IsReady, read_uint_lem}
use atomicles.SharedMemory.Life.{mapped, without_segment, delete-without_segment}
use atomicles.Daemonize.{
  activate, deactivate, active, set_pid, set_cpid, get_pid, get_cpid, get_count, inc_count, cleanup,
  die, left,
}

-- The four words.
pub record Shared : Type 0 where
  pub active : ℕ
  pub pid : ℕ
  pub cpid : ℕ
  pub count : ℕ

abbrev pub words_of : Shared → List ℕ
words_of x = x.active ∷ x.pid ∷ x.cpid ∷ x.count ∷ []

module _ (key id size addr guard_id : ℕ) where
  abbrev pub guard_object : Semaphore
  guard_object = object (guard_key key) guard_id 1 1

  -- The object of the segment is mapped with its guard free, and the segment holds the words.
  abbrev pub IsShared : SemSet → Shared → View → Type 0
  IsShared s x v =
      IsReady (mapped key id size addr guard_id) guard_object addr s (record { words = words_of x })
        v

module _ {W : Type 0} ⦃k : Kernel W⦄ (laws : Laws k) (key id size addr guard_id : ℕ) where
  open laws use {view}

  abbrev shmem : SharedMemory
  shmem = mapped key id size addr guard_id

  abbrev Holds : SemSet → Shared → View → Type 0
  Holds = IsShared key id size addr guard_id

  module _ {s : SemSet} {x : Shared} {w : W} (ready : Holds s x (view w)) where
    read_word :
        (i : ℕ) {n : ℕ}
        → i < 2 ^ 16
        → get_elem? (words_of x) i ≡ some n
        → Returns (Answers view w n) (read_uint shmem i w)
    read_word i short there =
        read_uint_lem laws {this = shmem} {g = guard_object key id size addr guard_id} {addr = addr}
          {s = s} {seg = record { words = words_of x }} {w = w} ready i short there

    pub active_lem : Returns (Answers view w x.active) (active shmem w)
    unfolding active
    active_lem = read_word 0 (omega arith) refl

    pub get_pid_lem : Returns (Answers view w x.pid) (get_pid (some shmem) w)
    unfolding get_pid
    get_pid_lem = read_word 1 (omega arith) refl

    pub get_cpid_lem : Returns (Answers view w x.cpid) (get_cpid (some shmem) w)
    unfolding get_cpid
    get_cpid_lem = read_word 2 (omega arith) refl

    pub get_count_lem : Returns (Answers view w x.count) (get_count (some shmem) w)
    unfolding get_count
    get_count_lem = read_word 3 (omega arith) refl

    -- What a write leaves.
    abbrev Wrote : Shared → Unit {0} → W → Type 0
    Wrote y _ w' = Holds s y (view w') × (view w' ≡ put_words (view w) id (words_of y))

    pub set_active_lem : Returns (Wrote (record x { active = 1 })) (activate shmem w)
    unfolding activate
    set_active_lem = write_uint-IsReady laws (words_of x) 0 1 ready (omega arith) (omega arith)

    pub deactivate_lem : Returns (Wrote (record x { active = 0 })) (deactivate shmem w)
    unfolding deactivate
    deactivate_lem = write_uint-IsReady laws (words_of x) 0 0 ready (omega arith) (omega arith)

    pub set_pid_lem : (n : ℕ) → Returns (Wrote (record x { pid = n % 2 ^ 32 })) (set_pid shmem n w)
    unfolding set_pid
    set_pid_lem n = write_uint-IsReady laws (words_of x) 1 n ready (omega arith) (omega arith)

    pub set_cpid_lem :
        (n : ℕ) → Returns (Wrote (record x { cpid = n % 2 ^ 32 })) (set_cpid shmem n w)
    unfolding set_cpid
    set_cpid_lem n = write_uint-IsReady laws (words_of x) 2 n ready (omega arith) (omega arith)

  pub inc_count_lem :
      {s : SemSet} {x : Shared} {w : W}
      → Holds s x (view w)
      → Returns
          (λ _ w'. Holds s (record x { count = (x.count + 1) % 2 ^ 32 }) (view w'))
          (inc_count shmem w)
  unfolding inc_count
  inc_count_lem {s} {x} {w} ready = Run.bind (get_count_lem ready) λ n w1 (e, same). rw e (
      Run.mono
        (write_uint-IsReady laws (words_of x) 3 (x.count + 1) (rw same ready) (omega arith)
          (omega arith))
        λ _ w2 (after, _). after)

  without-put_words :
      (v : View) (ws : List ℕ)
      → without_segment laws (put_words v id ws) id addr guard_id
        ≡ without_segment laws v id addr guard_id
  without-put_words v ws = remove_segment-put_words (detach_at (remove_set v guard_id) addr) id ws

  -- `set_pid(shmem, 0)` and `set_cpid(shmem, 0)`.
  abbrev cleared : Shared → Shared
  cleared x = record x { pid = 0; cpid = 0 }

  delete_lem :
      {s : SemSet} {x : Shared} {w : W}
      → size ≤ 16
      → Holds s x (view w)
      → Returns
          (Leaves view (without_segment laws (view w) id addr guard_id) tt)
          (Shm.delete shmem true w)
  delete_lem {s} {x} {w} fits ready =
      delete-without_segment laws key id size addr guard_id {seg = record { words = words_of x }}
        {s = s} ready.exists ready.holds ready.points (omega (arith, fits))

  pub cleanup_lem :
      {s : SemSet} {x : Shared} {w : W}
      → size ≤ 16
      → Holds s x (view w)
      → Returns (Leaves view (without_segment laws (view w) id addr guard_id) tt) (cleanup shmem w)
  unfolding cleanup
  cleanup_lem {s} {x} {w} fits ready = Run.bind (set_pid_lem ready 0) λ _ w1 (r1, at1).
      Run.bind (set_cpid_lem r1 0) λ _ w2 (r2, at2). Run.mono (delete_lem fits r2) λ _ w3 (e, at3).
        (
          e,
          at3
              ∙ ap (λ v. without_segment laws v id addr guard_id) at2
              ∙ without-put_words (view w1) (words_of (cleared x))
              ∙ ap (λ v. without_segment laws v id addr guard_id) at1
              ∙ without-put_words (view w) (words_of (record x { pid = 0 })),
        )

  pub die_lem :
      {s : SemSet} {x : Shared} {w : W}
      → size ≤ 16
      → Holds s x (view w)
      → Returns
          (Leaves view (without_segment laws (view w) id addr guard_id) left)
          (die (some shmem) w)
  unfolding die
  die_lem {s} {x} {w} fits ready =
      let out : View → View = λ v. without_segment laws v id addr guard_id in
      Run.bind (set_pid_lem ready 0) λ _ w1 (r1, at1).
        Run.bind (set_cpid_lem r1 0) λ _ w2 (r2, at2).
          Run.bind (deactivate_lem r2) λ _ w3 (r3, at3).
            Run.bind (delete_lem fits r3) λ _ w4 (_, at4). returns (
              refl,
              at4
                  ∙ ap out at3
                  ∙ without-put_words (view w2) (words_of (record (cleared x) { active = 0 }))
                  ∙ ap out at2
                  ∙ without-put_words (view w1) (words_of (cleared x))
                  ∙ ap out at1
                  ∙ without-put_words (view w) (words_of (record x { pid = 0 })),
            )
