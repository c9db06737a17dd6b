-- ===== src/SharedMemory/Text.antt =====
-- SharedMemory$write and SharedMemory$read of src/SharedMemory.c: text at a byte offset. They have no
-- caller in the repository.
use atomicles.Base.{ℕ, ◌+◌, ◌-◌, ◌%◌, ◌^◌, List}
use atomicles.Sys.{Kernel}
use atomicles.Sys.Run.{Cmd, pure, ◌>>=◌, ◌>>◌}
use atomicles.SharedMemory.{SharedMemory, through, enter, leave}

-- Offsets are `unsigned short`.
-- `vsnprintf` of a text into a segment, and `strncpy` out of one, at a byte offset and for at most so
-- many bytes.
pub record Texts (W : Type 0) : Type 0 where
  pub vsnprintf : (addr offset size : ℕ) → List ℕ → Cmd W (Unit {0})
  pub strncpy : (addr offset size : ℕ) → Cmd W (List ℕ)

-- `this->size - offset`, as a `size_t`.
abbrev pub room : SharedMemory → ℕ → ℕ
room this offset = (this.size + 2 ^ 64 - offset) % 2 ^ 64

module _ {W : Type 0} ⦃k : Kernel W⦄ ⦃t : Texts W⦄ where
  -- The text is the format with its arguments filled in.
  unfoldable pub write : SharedMemory → (offset : ℕ) → List ℕ → Cmd W (Unit {0})
  unfolding enter leave
  write this offset text = do
    enter this
    through this.addr λ addr. t.vsnprintf addr (offset % 2 ^ 16) (room this (offset % 2 ^ 16)) text
    leave this

  -- Unlike a word, the text is read before the guard is given back.
  unfoldable pub read : SharedMemory → (offset : ℕ) → Cmd W (List ℕ)
  unfolding enter leave
  read this offset = do
    enter this
    text ← through this.addr λ addr. t.strncpy addr (offset % 2 ^ 16) (room this (offset % 2 ^ 16))
    leave this
    pure text
