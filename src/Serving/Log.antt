-- ===== src/Serving/Log.antt =====
-- What all connections together do to the engine.
use nginx_front_back_end_dem.Prelude.{
  ℕ, zero, suc, ◌≡◌, refl, sym, ap, ◌∙◌, Bool, true, false, some, List, [], ◌∷◌, ◌++◌, append-nil,
  arith, nat_eq,
}
use nginx_front_back_end_dem.World.{World}
use nginx_front_back_end_dem.Http.{Request, Response}
use nginx_front_back_end_dem.Session.{Completion}
use nginx_front_back_end_dem.Session.KeepAlive.{requests, serve_all, complete-serve_all}
use nginx_front_back_end_dem.Serving.{
  Event, accepted, accept_failed, signalled, stop_called, completed, Serving, do_accept,
  open_session, on_accept, on_signal, stop, complete_at, happen, run_loop,
}
use nginx_front_back_end_dem.Serving.Steps.{session_of, complete_at-Completed, run_loop-first}

-- The requests that the loop hands to the engine, in order, whatever connection they came by.
abbrev pub log : List Event → List (World × Request)
log [] = []
log (completed i event ∷ rest) = requests (event ∷ []) ++ log rest
log (_ ∷ rest) = log rest

module _ {S : Type 0} (serve : World → Request → S → Response × S) where
  serve_all-append :
      (xs ys : List (World × Request)) (e : S)
      → serve_all serve (xs ++ ys) e ≡ serve_all serve ys (serve_all serve xs e)
  serve_all-append [] ys e = refl
  serve_all-append ((w, req) ∷ xs) ys e = serve_all-append xs ys (serve w req e).1

  on_accept-engine :
      (ok : Bool) (n : ℕ) (s t : Serving S) → on_accept ok n s ≡ some t → t.engine ≡ s.engine
  unfolding on_accept do_accept open_session
  on_accept-engine ok zero s t e = cc
  on_accept-engine true (suc n) s t e = ground arith
  on_accept-engine false (suc n) s t e = ground arith

  complete_at-serve_all :
      (i : ℕ) (event : Completion) (s t : Serving S)
      → complete_at serve i event s ≡ some t
      → t.engine ≡ serve_all serve (requests (event ∷ [])) s.engine
  complete_at-serve_all i event s t e =
      let done = complete_at-Completed serve i event s t e in
      sym (ap (λ (x : Serving S). x.engine) done.is_put)
      ∙ complete-serve_all serve event done.conn.pending [] (session_of done.conn s) done.after
          done.went

  pub happen-serve_all :
      (event : Event) (s t : Serving S)
      → happen serve event s ≡ some t
      → t.engine ≡ serve_all serve (log (event ∷ [])) s.engine
  unfolding happen on_signal stop
  happen-serve_all accepted s t e = on_accept-engine true s.accepting s t e
  happen-serve_all accept_failed s t e = on_accept-engine false s.accepting s t e
  happen-serve_all signalled s t e = ground arith
  happen-serve_all stop_called s t e = ground arith
  happen-serve_all (completed i event) s t e =
      complete_at-serve_all i event s t e
      ∙ ap (λ rs. serve_all serve rs s.engine) (sym (append-nil (requests (event ∷ []))))

  log-first :
      (event : Event) (rest : List Event) → log (event ∷ rest) ≡ log (event ∷ []) ++ log rest
  log-first accepted rest = refl
  log-first accept_failed rest = refl
  log-first signalled rest = refl
  log-first stop_called rest = refl
  log-first (completed i event) rest =
      ap (λ rs. rs ++ log rest) (sym (append-nil (requests (event ∷ []))))

  -- However the connections' completions, the accepts, a signal and a stop interleave, the engine after
  -- a run of the loop is the engine that has served, one after the other, the requests that were read,
  -- each once and in the order in which they were read.
  pub run_loop-serve_all :
      (events : List Event) (s s' : Serving S)
      → run_loop serve events s ≡ some s'
      → s'.engine ≡ serve_all serve (log events) s.engine
  unfolding run_loop
  run_loop-serve_all [] s s' e = ground arith
  run_loop-serve_all (event ∷ rest) s s' e =
      let (t, on, happened, later) = run_loop-first serve event rest s s' e in
      run_loop-serve_all rest t s' later
      ∙ ap (serve_all serve (log rest)) (happen-serve_all event s t happened)
      ∙ sym (serve_all-append (log (event ∷ [])) (log rest) s.engine)
      ∙ ap (λ rs. serve_all serve rs s.engine) (sym (log-first event rest))
