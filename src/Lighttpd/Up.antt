-- ===== src/Lighttpd/Up.antt =====
-- What a success of the lighttpd controller says of the server.
use nginx_front_back_end_dem.Prelude.{
  ◌≡◌, ◌⊎◌, refl, inl, inr, Bool, true, false, Bool-cases, codes, [], ◌∷◌,
}
use nginx_front_back_end_dem.Process.{Sys}
use nginx_front_back_end_dem.Server.{Server, ◌and_then◌, is_zero, wait_while}
use nginx_front_back_end_dem.Lighttpd.{
  run, running, down, ensure_dirs, write_listen_snippet, test_config, await_start, start, on, off,
  await_exit, reset, reload,
}

module _ {W : Type 0} (sys : Sys W) where
  -- The call fails, or leaves a machine in which the server is seen running.
  abbrev pub Up : Bool × Server W → Type 0
  Up r = (r.0 ≡ false) ⊎ (running sys r.1 ≡ true)

  and_then-Up :
      (m : Bool × Server W) (k : Server W → Bool × Server W)
      → ((s : Server W) → Up (k s))
      → Up (m and_then k)
  and_then-Up (true, s) k h = h s
  and_then-Up (false, s) k h = inl refl

  await_start-Up : (s : Server W) → Up (await_start sys s)
  unfolding await_start
  await_start-Up s =
      let waited = wait_while sys 30 (down sys) s in
      elim (Bool-cases (running sys waited)) [
        | inl up ↦ rw (up, await_start) (inr up)
        | inr gone ↦ rw (gone, await_start) (inl refl)
      ]

  start-Up : (s : Server W) → Up (start sys s)
  unfolding start
  start-Up s =
      let launched = run sys (codes "-f" ∷ s.opts.config ∷ []) false s in
      elim (Bool-cases (is_zero launched.0)) [
        | inl ok ↦ rw (ok, start) (await_start-Up launched.1)
        | inr failed ↦ rw (failed, start) (inl refl)
      ]

  on-Up : (s : Server W) → Up (on sys s)
  unfolding on
  on-Up s = elim (Bool-cases (running sys s)) [
    | inl up ↦ rw (up, on) (inr up)
    | inr idle ↦
        rw (idle, on)
          (and_then-Up
            (ensure_dirs sys s and_then write_listen_snippet sys and_then test_config sys)
            (start sys) start-Up)
  ]

  reset-Up : (s : Server W) → Up (reset sys s)
  unfolding reset
  reset-Up s = elim (Bool-cases (running sys s)) [
    | inl up ↦ rw (up, reset) (and_then-Up (off sys s and_then await_exit sys) (on sys) on-Up)
    | inr idle ↦ rw (idle, reset) (on-Up s)
  ]

  reload-Up : (s : Server W) → Up (reload sys s)
  unfolding reload
  reload-Up s = elim (Bool-cases (running sys s)) [
    | inl up ↦ rw (up, reload) (and_then-Up (test_config sys s) (reset sys) reset-Up)
    | inr idle ↦ rw (idle, reload) (inl refl)
  ]

  -- Whatever the machine does: each of `on`, `reset` and `reload` of the lighttpd controller returns
  -- false, or the server is seen running in the machine that the call leaves.
  pub lifecycle-Up : (s : Server W) → Up (on sys s) × Up (reset sys s) × Up (reload sys s)
  lifecycle-Up s = (on-Up s, reset-Up s, reload-Up s)
