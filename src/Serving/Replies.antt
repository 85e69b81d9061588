-- ===== src/Serving/Replies.antt =====
-- What each connection gets: the answers to its own requests.
use nginx_front_back_end_dem.Prelude.{
  After, ℕ, zero, suc, ◌≤◌, ◌≡◌, ◌⊎◌, refl, sym, ap, ◌∙◌, subst, inl, inr, Bool, true, false,
  Option, none, some, List, [], ◌∷◌, ◌++◌, append-nil, append_assoc, arith, Bool-cases, lookup,
  lookup-insert, nat_eq, nat_beq, nat_beq_iff, if◌then◌else◌,
}
use nginx_front_back_end_dem.World.{World}
use nginx_front_back_end_dem.Http.{Request, Response, prepare_payload}
use nginx_front_back_end_dem.Session.{
  Pending, reading, closed, writing, Completion, request_read, end_of_stream, read_failed, written,
  write_failed, Session, answer_request, after_write, complete,
}
use nginx_front_back_end_dem.Session.KeepAlive.{serve_all}
use nginx_front_back_end_dem.Serving.{
  Conn, Event, accepted, accept_failed, signalled, stop_called, completed, Serving, do_accept,
  open_session, on_accept, on_signal, stop, put_back, complete_at, happen, run_loop,
}
use nginx_front_back_end_dem.Serving.Steps.{session_of, complete_at-Completed, run_loop-first}
use nginx_front_back_end_dem.Serving.Log.{log, happen-serve_all}

-- How the answers that are due to a connection stand to those that it was sent.
abbrev pub Owed : Pending → List Response → List Response → Type 0
Owed reading sent due = due ≡ sent
Owed (writing res keep_alive) sent due = due ≡ sent ++ (res ∷ [])
Owed closed sent due = (due ≡ sent) ⊎ ((res : Response) × (due ≡ sent ++ (res ∷ [])))

-- A connection that does not exist is due nothing.
abbrev AtConn : Option Conn → List Response → Type 0
AtConn none due = due ≡ []
AtConn (some c) due = Owed c.pending c.sent due

module _ {S : Type 0} (serve : World → Request → S → Response × S) where
  -- The answer to a request, as it is sent.
  abbrev pub reply : Completion → S → List Response
  reply (request_read w req) e =
      prepare_payload (record (serve w req e).0 { keep_alive = req.keep_alive }) ∷ []
  reply _ e = []

  abbrev pub own : ℕ → Event → S → List Response
  own i (completed j event) e = if nat_beq j i then reply event e else []
  own i _ e = []

  -- The answers to the requests of connection `i`, each by the engine that has served all requests
  -- that were read before it, on any connection.
  abbrev pub answers : ℕ → List Event → S → List Response
  answers i [] e = []
  answers i (event ∷ rest) e =
      own i event e ++ answers i rest (serve_all serve (log (event ∷ [])) e)

  complete-After :
      (event : Completion) (p : Pending) (c : Session S) (due : List Response)
      → Owed p c.sent due
      → After
          (λ (t : Session S). Owed t.pending t.sent (due ++ reply event c.engine))
          (complete serve event p c)
  unfolding complete answer_request after_write
  complete-After (request_read w req) reading c due h = rw h refl
  complete-After end_of_stream reading c due h = inl (append-nil due ∙ h)
  complete-After read_failed reading c due h = inl (append-nil due ∙ h)
  complete-After written (writing res true) c due h = append-nil due ∙ h
  complete-After written (writing res false) c due h = inl (append-nil due ∙ h)
  complete-After write_failed (writing res keep_alive) c due h = inr (res, append-nil due ∙ h)
  complete-After event p c due h = tt

  complete-Owed :
      (event : Completion) (c c' : Session S) (due : List Response)
      → complete serve event c.pending c ≡ some c'
      → Owed c.pending c.sent due
      → Owed c'.pending c'.sent (due ++ reply event c.engine)
  complete-Owed event c c' due e h =
      subst (After (λ (t : Session S). Owed t.pending t.sent (due ++ reply event c.engine))) e
        (complete-After event c.pending c due h)

  -- The numbers that are not given out have no connection.
  abbrev Fresh : Serving S → Type 0
  Fresh s = (i : ℕ) → s.next ≤ i → lookup i s.conns ≡ none

  abbrev Due : ℕ → List Response → Serving S → Type 0
  Due i due s = AtConn (lookup i s.conns) due

  open_session-Fresh : (s : Serving S) → Fresh s → Fresh (open_session s)
  unfolding open_session
  open_session-Fresh s fresh i le = ground (
    arith,
    lookup-insert s.next i (record { pending = reading; sent = [] }) s.conns,
    fresh i (ground arith),
  )

  open_session-Due :
      (i : ℕ) (due : List Response) (s : Serving S)
      → Fresh s
      → Due i due s
      → Due i due (open_session s)
  unfolding open_session
  open_session-Due i due s fresh h = elim (Bool-cases (nat_beq s.next i)) [
    | inl same ↦
        let is : s.next ≡ i = (nat_beq_iff s.next i).0 same in
        rw (lookup-insert s.next i (record { pending = reading; sent = [] }) s.conns, same)
          (subst (λ o. AtConn o due) (fresh i (ground arith)) h)
    | inr other ↦
        rw (lookup-insert s.next i (record { pending = reading; sent = [] }) s.conns, other) h
  ]

  abbrev Tracked : ℕ → List Response → Serving S → Type 0
  Tracked i due s = Fresh s × Due i due s

  on_accept-Tracked :
      (i : ℕ) (due : List Response) (ok : Bool) (n : ℕ) (s : Serving S)
      → Tracked i due s
      → After (Tracked i (due ++ [])) (on_accept ok n s)
  unfolding on_accept do_accept
  on_accept-Tracked i due ok zero s h = tt
  on_accept-Tracked i due false (suc n) s (fresh, h) = (fresh, rw (append-nil due) h)
  on_accept-Tracked i due true (suc n) s (fresh, h) = (
    open_session-Fresh (record s { accepting = n }) fresh,
    rw (append-nil due) (open_session-Due i due (record s { accepting = n }) fresh h),
  )

  put_back-Fresh :
      (i : ℕ) (s : Serving S) (c : Session S) (found : Conn)
      → lookup i s.conns ≡ some found
      → Fresh s
      → Fresh (put_back i s c)
  put_back-Fresh i s c found is fresh j le =
      ground (
        arith,
        lookup-insert i j (record { pending = c.pending; sent = c.sent }) s.conns,
        fresh j le,
      )

  put_back-Due :
      (i j : ℕ) (due : List Response) (event : Completion) (s : Serving S) (c : Conn)
      (after : Session S)
      → lookup j s.conns ≡ some c
      → complete serve event c.pending (session_of c s) ≡ some after
      → Due i due s
      → Due i (due ++ own i (completed j event) s.engine) (put_back j s after)
  put_back-Due i j due event s c after found went h = elim (Bool-cases (nat_beq j i)) [
    | inl same ↦
        let is : j ≡ i = (nat_beq_iff j i).0 same in
        rw (lookup-insert j i (record { pending = after.pending; sent = after.sent }) s.conns, same)
          (complete-Owed event (session_of c s) after due went
            (subst (λ o. AtConn o due) (ap (λ k. lookup k s.conns) (sym is) ∙ found) h))
    | inr other ↦
        rw
          (
            lookup-insert j i (record { pending = after.pending; sent = after.sent }) s.conns,
            other,
            append-nil due,
          )
          h
  ]

  complete_at-Tracked :
      (i j : ℕ) (due : List Response) (event : Completion) (s t : Serving S)
      → complete_at serve j event s ≡ some t
      → Tracked i due s
      → Tracked i (due ++ own i (completed j event) s.engine) t
  complete_at-Tracked i j due event s t e (fresh, h) =
      let done = complete_at-Completed serve j event s t e in
      subst (Tracked i (due ++ own i (completed j event) s.engine)) done.is_put (
        put_back-Fresh j s done.after done.conn done.found fresh,
        put_back-Due i j due event s done.conn done.after done.found done.went h,
      )

  happen-Tracked :
      (i : ℕ) (due : List Response) (event : Event) (s t : Serving S)
      → happen serve event s ≡ some t
      → Tracked i due s
      → Tracked i (due ++ own i event s.engine) t
  unfolding happen on_signal stop
  happen-Tracked i due accepted s t e h =
      subst (After (Tracked i (due ++ []))) e (on_accept-Tracked i due true s.accepting s h)
  happen-Tracked i due accept_failed s t e h =
      subst (After (Tracked i (due ++ []))) e (on_accept-Tracked i due false s.accepting s h)
  happen-Tracked i due signalled s t e h =
      subst (After (Tracked i (due ++ []))) e (signal_tracked s.waiting)
    where
      signal_tracked :
          (waiting : Bool)
          → After
              (Tracked i (due ++ []))
              (if waiting then some (record s { waiting = false; stopped = true }) else none)
      signal_tracked true = rw (append-nil due) h
      signal_tracked false = tt
  happen-Tracked i due stop_called s t e h =
      subst (After (Tracked i (due ++ []))) e (rw (append-nil due) h)
  happen-Tracked i due (completed j event) s t e h = complete_at-Tracked i j due event s t e h

  run_loop-Tracked :
      (i : ℕ) (due : List Response) (events : List Event) (s s' : Serving S)
      → run_loop serve events s ≡ some s'
      → Tracked i due s
      → Due i (due ++ answers i events s.engine) s'
  unfolding run_loop
  run_loop-Tracked i due [] s s' e (fresh, h) =
      let same : s ≡ s' = cc in rw (append-nil due) (subst (Due i due) same h)
  run_loop-Tracked i due (event ∷ rest) s s' e h =
      let (t, on, happened, later) = run_loop-first serve event rest s s' e in
      let next =
        run_loop-Tracked i (due ++ own i event s.engine) rest t s' later
          (happen-Tracked i due event s t happened h) in
      subst (λ rs. Due i rs s')
        (append_assoc due (own i event s.engine) (answers i rest t.engine)
          ∙ ap (λ e. due ++ (own i event s.engine ++ answers i rest e))
              (happen-serve_all serve event s t happened))
        next

  -- In a run of the loop that starts without connections, every connection is sent the answers to its
  -- own requests and nothing else, each by the engine as it is when the request is read, in the
  -- order of the requests: all of them while it waits for a request, all but the one that is being
  -- written while it writes, and all or all but the last when it is closed.
  pub run_loop-Owed :
      (i : ℕ) (events : List Event) (s s' : Serving S) (c : Conn)
      → s.conns ≡ []
      → run_loop serve events s ≡ some s'
      → lookup i s'.conns ≡ some c
      → Owed c.pending c.sent (answers i events s.engine)
  unfolding lookup
  run_loop-Owed i events s s' c empty ran found =
      subst (λ o. AtConn o (answers i events s.engine)) found
        (run_loop-Tracked i [] events s s' ran
          (rw (empty, Tracked) (λ j le. refl), rw (empty, Tracked) refl))
