-- ===== src/Syschk/Sock.antt =====
-- chk_sock of src/syschk.c, which has no caller: it answers one connection. What is printed is
-- left out.
use atomicles.Base.{ℕ, Bool, true, false, Option, none, some, List, [], ◌∷◌}
use atomicles.Base.Int.{ℤ, pos, minus_one}
use atomicles.Sys.Run.{Cmd, pure, ◌>>=◌, ◌>>◌}

-- The calls on sockets; `none` and `false` are their failures.
pub record Sockets (W : Type 0) : Type 0 where
  pub socket : Cmd W (Option ℕ)
  pub bind : (fd port : ℕ) → Cmd W Bool
  pub listen : (fd : ℕ) (backlog : ℤ) → Cmd W Bool
  pub accept : (fd : ℕ) → Cmd W (Option ℕ)
  pub receive : (fd count : ℕ) → Cmd W (Option (List ℕ))
  pub send : (fd : ℕ) (text : List ℕ) → Cmd W Bool

abbrev pub reply : List ℕ
reply =
    b'I' ∷ b' ' ∷ b'g' ∷ b'o' ∷ b't' ∷ b' ' ∷ b'y' ∷ b'o' ∷ b'u' ∷ b'r' ∷ b' ' ∷ b'm' ∷ b'e' ∷ b's'
    ∷ b's' ∷ b'a' ∷ b'g' ∷ b'e' ∷ []

module _ {W : Type 0} ⦃s : Sockets W⦄ where
  -- The connection, where 255 bytes at most are read.
  unfoldable pub serve_one : Option ℕ → Cmd W (Unit {0})
  serve_one none = pure tt
  serve_one (some fd) = do
    message ← s.receive fd 255
    elim message [ none ↦ pure tt | some _ ↦ do _ ← s.send fd reply; pure tt ]

  -- Behind `bind`, whose answer is returned.
  unfoldable pub serve_bound : (threshold : ℤ) (fd : ℕ) → Bool → Cmd W ℤ
  unfolding serve_one
  serve_bound threshold fd false = pure minus_one
  serve_bound threshold fd true = do
    _ ← s.listen fd threshold
    connection ← s.accept fd
    serve_one connection
    pure (pos 0)

  unfoldable pub serve_socket : (threshold : ℤ) → Option ℕ → Cmd W ℤ
  unfolding serve_bound
  serve_socket threshold none = pure (pos 0)
  serve_socket threshold (some fd) = do bound ← s.bind fd 1234; serve_bound threshold fd bound

  unfoldable pub chk_sock : (threshold : ℤ) → Cmd W ℤ
  unfolding serve_socket
  chk_sock threshold = do fd ← s.socket; serve_socket threshold fd
