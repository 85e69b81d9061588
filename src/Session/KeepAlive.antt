-- ===== src/Session/KeepAlive.antt =====
-- What a connection does to the engine over its whole life.
use nginx_front_back_end_dem.Prelude.{
  ◌≡◌, refl, Bool, true, false, some, List, [], ◌∷◌, arith, Option-cases, inl, inr, subst, ◌∙◌,
}
use nginx_front_back_end_dem.World.{World}
use nginx_front_back_end_dem.Http.{Request, Response}
use nginx_front_back_end_dem.Session.{
  Pending, reading, closed, writing, Completion, request_read, end_of_stream, read_failed, written,
  write_failed, Session, answer_request, after_write, complete, run,
}

-- The requests that were read, in order.
abbrev pub requests : List Completion → List (World × Request)
requests [] = []
requests (request_read w req ∷ rest) = (w, req) ∷ requests rest
requests (end_of_stream ∷ rest) = requests rest
requests (read_failed ∷ rest) = requests rest
requests (written ∷ rest) = requests rest
requests (write_failed ∷ rest) = requests rest

-- Every request but the last asks to keep the connection.
abbrev pub AllKept : List (World × Request) → Type 0
AllKept [] = Unit
AllKept ((w, req) ∷ []) = Unit
AllKept ((w, req) ∷ (v, next) ∷ rest) = (req.keep_alive ≡ true) × AllKept ((v, next) ∷ rest)

-- The requests that can still come, by what is pending.
abbrev MayRead : Pending → List (World × Request) → Type 0
MayRead reading rs = AllKept rs
MayRead closed rs = rs ≡ []
MayRead (writing res true) rs = AllKept rs
MayRead (writing res false) rs = rs ≡ []

module _ {S : Type 0} (serve : World → Request → S → Response × S) where
  abbrev pub serve_all : List (World × Request) → S → S
  serve_all [] e = e
  serve_all ((w, req) ∷ rest) e = serve_all rest (serve w req e).1

  -- The requests of one more completion come first.
  pub complete-serve_all :
      (event : Completion) (p : Pending) (rest : List Completion) (c c' : Session S)
      → complete serve event p c ≡ some c'
      → serve_all (requests rest) c'.engine ≡ serve_all (requests (event ∷ rest)) c.engine
  unfolding complete answer_request after_write
  complete-serve_all (request_read w req) reading rest c c' e = ground arith
  complete-serve_all end_of_stream reading rest c c' e = ground arith
  complete-serve_all read_failed reading rest c c' e = ground arith
  complete-serve_all written (writing res keep_alive) rest c c' e = ground arith
  complete-serve_all write_failed (writing res keep_alive) rest c c' e = ground arith
  complete-serve_all event p rest c c' e = absurd (ground arith)

  -- The engine after a connection is the engine that has served the connection's requests, each once
  -- and in the order in which they were read, whatever failed in between.
  run-serve_all :
      (events : List Completion) (c c' : Session S)
      → run serve events c ≡ some c'
      → c'.engine ≡ serve_all (requests events) c.engine
  unfolding run
  run-serve_all [] c c' e = ground arith
  run-serve_all (event ∷ rest) c c' e = elim (Option-cases (complete serve event c.pending c)) [
    | inl stuck ↦ absurd (ground arith)
    | inr (d, went) ↦
        run-serve_all rest d c' (ground arith) ∙ complete-serve_all event c.pending rest c d went
  ]

  AllKept-next :
      (w : World) (req : Request) (res : Response) (keep_alive : Bool) (rs : List (World × Request))
      → req.keep_alive ≡ keep_alive
      → MayRead (writing res keep_alive) rs
      → AllKept ((w, req) ∷ rs)
  AllKept-next w req res keep_alive [] same h = tt
  AllKept-next w req res true ((v, next) ∷ rs) same h = (same, h)
  AllKept-next w req res false ((v, next) ∷ rs) same h = cc

  -- What may be read behind a connection `d` that a completion has made.
  moved :
      (d c' : Session S) (rs : List (World × Request))
      → some d ≡ some c'
      → MayRead c'.pending rs
      → MayRead d.pending rs
  moved d c' rs e h =
      let same : c' ≡ d = cc in subst (λ (x : Session S). MayRead x.pending rs) same h

  closed-AllKept : (rs : List (World × Request)) → rs ≡ [] → AllKept rs
  closed-AllKept [] h = tt
  closed-AllKept (r ∷ rs) h = cc

  complete-MayRead :
      (event : Completion) (p : Pending) (rest : List Completion) (c c' : Session S)
      → complete serve event p c ≡ some c'
      → MayRead c'.pending (requests rest)
      → MayRead p (requests (event ∷ rest))
  unfolding complete answer_request after_write
  complete-MayRead (request_read w req) reading rest c c' e h =
      AllKept-next w req (serve w req c.engine).0 req.keep_alive (requests rest) refl
        (moved (answer_request serve w req c) c' (requests rest) e h)
  complete-MayRead end_of_stream reading rest c c' e h =
      closed-AllKept (requests rest) (moved (record c { pending = closed }) c' (requests rest) e h)
  complete-MayRead read_failed reading rest c c' e h =
      closed-AllKept (requests rest) (moved (record c { pending = closed }) c' (requests rest) e h)
  complete-MayRead written (writing res true) rest c c' e h =
      moved (after_write serve res true c) c' (requests rest) e h
  complete-MayRead written (writing res false) rest c c' e h =
      moved (after_write serve res false c) c' (requests rest) e h
  complete-MayRead write_failed (writing res true) rest c c' e h =
      closed-AllKept (requests rest) (moved (record c { pending = closed }) c' (requests rest) e h)
  complete-MayRead write_failed (writing res false) rest c c' e h =
      moved (record c { pending = closed }) c' (requests rest) e h
  complete-MayRead event p rest c c' e h = absurd (ground arith)

  run-MayRead :
      (events : List Completion) (c c' : Session S)
      → run serve events c ≡ some c'
      → MayRead c.pending (requests events)
  unfolding run
  run-MayRead [] c c' e = nothing c.pending
    where
      nothing : (p : Pending) → MayRead p []
      nothing reading = tt
      nothing closed = refl
      nothing (writing res true) = tt
      nothing (writing res false) = refl
  run-MayRead (event ∷ rest) c c' e = elim (Option-cases (complete serve event c.pending c)) [
    | inl stuck ↦ absurd (ground arith)
    | inr (d, went) ↦
        complete-MayRead event c.pending rest c d went (run-MayRead rest d c' (ground arith))
  ]

  -- Of the requests that a connection reads, every one but the last asks to keep the connection: behind
  -- one that does not, or behind an error, nothing more is read.
  run-AllKept :
      (events : List Completion) (e : S) (c' : Session S)
      → run serve events (record { pending = reading; engine = e; sent = [] }) ≡ some c'
      → AllKept (requests events)
  run-AllKept events e c' ran =
      run-MayRead events (record { pending = reading; engine = e; sent = [] }) c' ran
