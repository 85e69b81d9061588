-- ===== src/Serving/Socket.antt =====
-- backend/src/Listener.cpp, the constructor, and the lines of `WebEngine::run` in front of it: the
-- calls that make the socket. The calls of the operating system are the parameter `SocketCalls`, over a
-- state `W` of the machine; a Boolean is whether a call succeeds.
use nginx_front_back_end_dem.Prelude.{
  ℕ, ◌≡◌, ◌⊎◌, ◌∙◌, inl, inr, Bool, true, false, Option, some, Text, arith, Bool-cases,
  if◌then◌else◌,
}

pub record SocketCalls (W : Type 0) : Type 0 where
  pub unlink : Text → W → W
  pub open_socket : W → Bool × W
  pub bind : Text → W → Bool × W
  pub chmod : Text → ℕ → W → Bool × W
  pub listen : W → Bool × W
  pub mode_of : Text → W → Option ℕ

-- What POSIX documents of the mode of a file.
pub record IsSocketCalls {W : Type 0} (calls : SocketCalls W) : Type 0 where
  pub chmod_done :
      (path : Text) (mode : ℕ) (w : W)
      → (calls.chmod path mode w).0 ≡ true
      → calls.mode_of path (calls.chmod path mode w).1 ≡ some mode
  pub listen_frame :
      (path : Text) (w : W) → calls.mode_of path (calls.listen w).1 ≡ calls.mode_of path w

-- 0600
abbrev pub owner_only : ℕ
owner_only = 384

module _ {W : Type 0} (calls : SocketCalls W) where
  -- Behind `bind`: the result of `chmod` is not looked at.
  unfoldable pub tighten_and_listen : Text → W → Bool × W
  tighten_and_listen path w = calls.listen (calls.chmod path owner_only w).1

  -- Whether the constructor returns; the calls that are not `chmod` throw where they fail.
  unfoldable pub new_listener : Text → W → Bool × W
  unfolding tighten_and_listen
  new_listener path w =
      let (opened, w1) = calls.open_socket w in
      let (bound, w2) = calls.bind path w1 in
      if opened then (if bound then tighten_and_listen path w2 else (false, w2)) else (false, w1)

  -- The stale socket is removed, then the listener is made.
  unfoldable pub bind_socket : Text → W → Bool × W
  unfolding new_listener
  bind_socket path w = new_listener path (calls.unlink path w)

  -- A socket that listens has mode 0600, or the change of its mode has failed.
  new_listener-owner_only :
      (law : IsSocketCalls calls) (path : Text) (w : W)
      → (new_listener path w).0 ≡ true
      → (calls.mode_of path (new_listener path w).1 ≡ some owner_only)
        ⊎ ((v : W) × ((calls.chmod path owner_only v).0 ≡ false))
  unfolding new_listener tighten_and_listen
  new_listener-owner_only law path w made =
      let w1 = (calls.open_socket w).1 in
      let w2 = (calls.bind path w1).1 in
      elim (Bool-cases (calls.chmod path owner_only w2).0) [
        | inl tight ↦
            let mode =
              law.listen_frame path (calls.chmod path owner_only w2).1
              ∙ law.chmod_done path owner_only w2 tight in
            inl (ground (arith, mode))
        | inr loose ↦ inr (w2, loose)
      ]
