-- ===== src/Serving/Steps.antt =====
-- What a step of the loop has found, for each kind of event.
use nginx_front_back_end_dem.Prelude.{
  ℕ, ◌≡◌, subst, inl, inr, false, some, List, [], ◌∷◌, arith, Option-cases, Bool-cases, lookup,
  nat_eq,
}
use nginx_front_back_end_dem.World.{World}
use nginx_front_back_end_dem.Http.{Request, Response}
use nginx_front_back_end_dem.Session.{Completion, Session, complete}
use nginx_front_back_end_dem.Serving.{
  Conn, Event, Serving, put_back, complete_at, happen, step, run_loop,
}

abbrev pub session_of : {S : Type 0} → Conn → Serving S → Session S
session_of c s = record { pending = c.pending; engine = s.engine; sent = c.sent }

module _ {S : Type 0} (serve : World → Request → S → Response × S) where
  pub record Completed (i : ℕ) (event : Completion) (s s' : Serving S) : Type 0 where
    pub conn : Conn
    pub after : Session S
    pub found : lookup i s.conns ≡ some conn
    pub went : complete serve event conn.pending (session_of conn s) ≡ some after
    pub is_put : put_back i s after ≡ s'

  pub complete_at-Completed :
      (i : ℕ) (event : Completion) (s s' : Serving S)
      → complete_at serve i event s ≡ some s'
      → Completed i event s s'
  unfolding complete_at
  complete_at-Completed i event s s' e = elim (Option-cases (lookup i s.conns)) [
    | inl missing ↦ absurd (ground arith)
    | inr (c, found) ↦ elim (Option-cases (complete serve event c.pending (session_of c s))) [
      | inl stuck ↦ absurd (ground arith)
      | inr (after, went) ↦ record {
        conn = c;
        after = after;
        found = found;
        went = went;
        is_put = ground arith;
      }
    ]
  ]

  pub step-happen :
      (event : Event) (s s' : Serving S)
      → step serve event s ≡ some s'
      → (s.stopped ≡ false) × (happen serve event s ≡ some s')
  unfolding step
  step-happen event s s' e = elim (Bool-cases s.stopped) [
    | inl halted ↦ absurd (ground arith)
    | inr on ↦ (on, ground arith)
  ]

  pub run_loop-first :
      (event : Event) (rest : List Event) (s s' : Serving S)
      → run_loop serve (event ∷ rest) s ≡ some s'
      → (t : Serving S) × (s.stopped ≡ false)
        × (happen serve event s ≡ some t)
        × (run_loop serve rest t ≡ some s')
  unfolding run_loop
  run_loop-first event rest s s' e = elim (Option-cases (step serve event s)) [
    | inl stuck ↦ absurd (ground arith)
    | inr (t, went) ↦
        let (on, happened) = step-happen event s t went in (t, on, happened, ground arith)
  ]

  -- What every event keeps, a run of the loop keeps.
  pub run_loop_inv {ℓ} :
      (Inv : Serving S → Type ℓ)
      → ((event : Event) (s t : Serving S) → happen serve event s ≡ some t → Inv s → Inv t)
      → (events : List Event) (s s' : Serving S) → run_loop serve events s ≡ some s'
      → Inv s
      → Inv s'
  unfolding run_loop
  run_loop_inv Inv keep [] s s' e h = let same : s ≡ s' = cc in subst Inv same h
  run_loop_inv Inv keep (event ∷ rest) s s' e h =
      let (t, on, happened, later) = run_loop-first event rest s s' e in
      run_loop_inv Inv keep rest t s' later (keep event s t happened h)
