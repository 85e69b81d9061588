-- ===== src/Control/Endpoints.antt =====
-- What the control endpoints do to the server, whichever kind it is.
use nginx_front_back_end_dem.Prelude.{
  ℕ, ◌≤◌, ◌<◌, ◌%◌, ◌^◌, ltb, ◌≡◌, ◌≢◌, ◌⊎◌, refl, sym, ap, append-nil, ◌∙◌, inl, inr, Bool, true,
  false, ◌||◌, none, some, [], arith, Bool-cases, Option-cases,
}
use nginx_front_back_end_dem.Http.{Status, Request, Response, json}
use nginx_front_back_end_dem.Json.{Glaze, error_json, ok_json}
use nginx_front_back_end_dem.Decimal.{ℤ, pos, negsuc, to_string, stoi}
use nginx_front_back_end_dem.Decimal.Laws.{stoi-to_string}
use nginx_front_back_end_dem.Process.{Sys}
use nginx_front_back_end_dem.Server.{
  WebServer, nginx, lighttpd, Server, WebServerController, with_ports,
}
use nginx_front_back_end_dem.Server.Diagnosed.{Reported, Committed}
use nginx_front_back_end_dem.Nginx
use nginx_front_back_end_dem.Nginx.Contract.{nginx_ports-Committed, nginx_lifecycle-Reported}
use nginx_front_back_end_dem.Lighttpd
use nginx_front_back_end_dem.Lighttpd.Contract.{
  lighttpd_ports-Committed, lighttpd_lifecycle-Reported,
}
use nginx_front_back_end_dem.Factory.{methods_of}
use nginx_front_back_end_dem.Control.{
  ControlReaders, server_result, answer, conflict_error, port_missing, port_out_of_range, confirmed,
  port_arg, server_on, server_off, server_reset, server_port, env_int, initial_ports,
}

-- What a client of the controllers may rely on.
pub record IsController {W : Type 0} (srv : WebServerController W) : Type 0 where
  pub on_reported : (s : Server W) → Reported s.opts (srv.on s)
  pub off_reported : (s : Server W) → Reported s.opts (srv.off s)
  pub reset_reported : (s : Server W) → Reported s.opts (srv.reset s)
  pub reload_reported : (s : Server W) → Reported s.opts (srv.reload s)
  pub port_committed :
      (http : ℕ) (s : Server W) → Committed http s.opts.https_port s (srv.set_listen_port http s)
  pub ports_committed :
      (http https : ℕ) (s : Server W) → Committed http https s (srv.set_listen_ports http https s)

-- Whatever the machine does, the controller of each kind keeps what its clients rely on. `on`, `off`,
-- `reset` and `reload` keep the options, and where they return false there is a diagnostic. The two
-- methods that set ports leave the options with the new ports where they return true, and the
-- options before and a diagnostic where they return false.
pub methods_of-IsController :
    {W : Type 0} (sys : Sys W) (kind : WebServer) → IsController (methods_of sys kind)
unfolding Nginx.set_listen_port Lighttpd.set_listen_port
methods_of-IsController sys nginx = record {
  on_reported = λ s. (nginx_lifecycle-Reported sys s).0;
  off_reported = λ s. (nginx_lifecycle-Reported sys s).1;
  reload_reported = λ s. (nginx_lifecycle-Reported sys s).2;
  reset_reported = λ s. (nginx_lifecycle-Reported sys s).3;
  port_committed = λ http s. nginx_ports-Committed sys http s.opts.https_port s;
  ports_committed = nginx_ports-Committed sys;
}
methods_of-IsController sys lighttpd = record {
  on_reported = λ s. (lighttpd_lifecycle-Reported sys s).0;
  off_reported = λ s. (lighttpd_lifecycle-Reported sys s).1;
  reload_reported = λ s. (lighttpd_lifecycle-Reported sys s).2;
  reset_reported = λ s. (lighttpd_lifecycle-Reported sys s).3;
  port_committed = λ http s. lighttpd_ports-Committed sys http s.opts.https_port s;
  ports_committed = lighttpd_ports-Committed sys;
}

module _ (glz : Glaze) (readers : ControlReaders) {W : Type 0} (srv : WebServerController W)
    (law : IsController srv) where
  -- What is answered and done for a new HTTP port.
  abbrev pub PortAnswer : ℕ → Server W → Response × Server W → Type 0
  PortAnswer n s (res, s') =
      ((res.status ≡ Status.ok) × (s'.opts ≡ (with_ports n s.opts.https_port s).opts))
      ⊎ ((res.status ≡ Status.internal_server_error) × (s'.opts ≡ s.opts) × (s'.last_error ≢ []))

  answer-PortAnswer :
      (n : ℕ) (s : Server W) (r : Bool × Server W)
      → Committed n s.opts.https_port s r
      → PortAnswer n s (answer glz r)
  unfolding answer server_result ok_json json
  answer-PortAnswer n s (true, s') same = inl (refl, same)
  answer-PortAnswer n s (false, s') (same, said) = inr (refl, same, said)

  module _ (low high : ℕ) (one : 1 ≤ low) (fits : high < 2 ^ 16) (req : Request)
      (s : Server W) where
    -- What is answered and done, by what the request asks for.
    abbrev pub RangeAnswer : Response × Server W → Type 0
    RangeAnswer (res, s') =
        ((res.status ≡ Status.bad_request) × (s' ≡ s))
        ⊎ ((n : ℕ) × (port_arg (readers.read_port req.body) ≡ some (pos n))
            × (low ≤ n)
            × (n ≤ high)
            × PortAnswer n s (res, s'))

    asked-RangeAnswer :
        (p : ℤ)
        → port_arg (readers.read_port req.body) ≡ some p
        → RangeAnswer (server_port glz readers srv (pos low) (pos high) req s)
    unfolding server_port port_out_of_range error_json json
    asked-RangeAnswer (negsuc n) asked = rw (asked, server_port) (inl (refl, refl))
    asked-RangeAnswer (pos n) asked = elim (Bool-cases (ltb n low || ltb high n)) [
      | inl out ↦ rw (asked, out, server_port) (inl (refl, refl))
      | inr within ↦
          let small : n % 2 ^ 16 ≡ n = ground arith in
          rw (asked, within, small, server_port)
            (inr (
              n,
              refl,
              ground arith,
              ground arith,
              answer-PortAnswer n s (srv.set_listen_port n s) (law.port_committed n s),
            ))
    ]

    -- Let the range of routable ports lie within 1 to 65535. Either the request is answered 400 and
    -- the server is left alone, or it asks for a port in the range; then the answer is 200 and the HTTP
    -- port is exactly that, or it is 500, the options are as before and there is a diagnostic.
    pub server_port-RangeAnswer :
        let (res, s') = server_port glz readers srv (pos low) (pos high) req s in
        ((res.status ≡ Status.bad_request) × (s' ≡ s))
        ⊎ ((n : ℕ) × (port_arg (readers.read_port req.body) ≡ some (pos n))
            × (low ≤ n)
            × (n ≤ high)
            × PortAnswer n s (res, s'))
    unfolding server_port port_missing error_json json
    server_port-RangeAnswer = elim (Option-cases (port_arg (readers.read_port req.body))) [
      | inl missing ↦ rw (missing, server_port) (inl (refl, refl))
      | inr (p, asked) ↦ asked-RangeAnswer p asked
    ]

  -- What is answered for a method of the life cycle.
  abbrev pub Outcome : Server W → Response × Server W → Type 0
  Outcome s (res, s') =
      ((res.status ≡ Status.ok) × (s'.opts ≡ s.opts))
      ⊎ ((res.status ≡ Status.internal_server_error) × (s'.opts ≡ s.opts) × (s'.last_error ≢ []))

  answer-Outcome :
      (s : Server W) (r : Bool × Server W) → Reported s.opts r → Outcome s (answer glz r)
  unfolding answer server_result ok_json json
  answer-Outcome s (true, s') same = inl (refl, same)
  answer-Outcome s (false, s') (same, said) = inr (refl, same, said)

  -- The requests to start and to restart are answered 200, or 500 with a diagnostic, and keep the
  -- options. So is a request to stop, if its body was read and says `force`; if not, it is answered 409
  -- and the server is left alone.
  server_off-Outcome :
      (req : Request) (s : Server W)
      → Outcome s (server_on glz readers srv s)
        × Outcome s (server_reset glz readers srv s)
        × (let (res, s') = server_off glz readers srv req s in
            ((confirmed (readers.read_force req.body) ≡ true) × Outcome s (res, s'))
            ⊎ ((confirmed (readers.read_force req.body) ≡ false)
                × (res.status ≡ Status.conflict)
                × (s' ≡ s)))
  unfolding server_on server_reset server_off conflict_error error_json json
  server_off-Outcome req s = (
    answer-Outcome s (srv.on s) (law.on_reported s),
    answer-Outcome s (srv.reset s) (law.reset_reported s),
    elim (Bool-cases (confirmed (readers.read_force req.body))) [
      | inl sure ↦
          rw (sure, server_off) (inl (refl, answer-Outcome s (srv.off s) (law.off_reported s)))
      | inr unsure ↦ rw (unsure, server_off) (inr (refl, refl, refl))
    ],
  )

module _ {W : Type 0} (srv : WebServerController W) (law : IsController srv) where
  Committed-cases :
      (http https : ℕ) (s : Server W) (r : Bool × Server W)
      → Committed http https s r
      → (r.1.opts ≡ (with_ports http https s).opts) ⊎ ((r.1.opts ≡ s.opts) × (r.1.last_error ≢ []))
  Committed-cases http https s (true, s') same = inl same
  Committed-cases http https s (false, s') kept = inr kept

  -- The port that the environment names for the start is cut to 16 bits: where the ports are set, the
  -- HTTP port is the number modulo 2 ^ 16, and not the number if that is larger.
  pub initial_ports-uint16 :
      (n : ℕ) (s : Server W)
      → n < 2 ^ 31
      → let s' = initial_ports srv (some (to_string n)) none s in
        (s'.opts ≡ (with_ports (n % 2 ^ 16) 8443 s).opts)
        ⊎ ((s'.opts ≡ s.opts) × (s'.last_error ≢ []))
  unfolding initial_ports env_int
  initial_ports-uint16 n s fits =
      let read : stoi (to_string n) ≡ some (pos n) =
        ap stoi (sym (append-nil (to_string n))) ∙ stoi-to_string n [] fits refl in
      rw (read, initial_ports)
        (Committed-cases (n % 2 ^ 16) 8443 s (srv.set_listen_ports (n % 2 ^ 16) 8443 s)
          (law.ports_committed (n % 2 ^ 16) 8443 s))
