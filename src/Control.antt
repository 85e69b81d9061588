-- ===== src/Control.antt =====
-- backend/example/main.cpp: the endpoints that control the server, the environment variables and the
-- ports at the start. The readers of the two bodies are parameters, as those of Json are.
pub mod Endpoints
pub mod Stored
use nginx_front_back_end_dem.Prelude.{
  ℕ, suc, ◌-◌, ◌%◌, ◌^◌, Bool, true, false, not, ◌||◌, Option, none, some, get_or, [], ◌∷◌, ◌++◌,
  Text, codes, ltb, if◌then◌else◌,
}
use nginx_front_back_end_dem.Http.{Status, Request, Response, json}
use nginx_front_back_end_dem.Json.{Scalar, str, num, bool, Parsed, Glaze, error_json, ok_json}
use nginx_front_back_end_dem.Decimal.{ℤ, pos, negsuc, to_string, stoi}
use nginx_front_back_end_dem.Server.{Server, WebServerController}

pub record ForceReq : Type 0 where
  pub force : Option Bool

pub record PortReq : Type 0 where
  pub http : Option ℤ

pub record ControlReaders : Type 0 where
  pub read_force : Text → Parsed ForceReq
  pub read_port : Text → Parsed PortReq

unfoldable pub confirmed : Parsed ForceReq → Bool
confirmed body = if body.failed then false else get_or body.value.force false

unfoldable pub port_arg : Parsed PortReq → Option ℤ
port_arg body = if body.failed then none else body.value.http

-- `a < b` on `int`.
abbrev pub less : ℤ → ℤ → Bool
less (pos a) (pos b) = ltb a b
less (pos a) (negsuc b) = false
less (negsuc a) (pos b) = true
less (negsuc a) (negsuc b) = ltb b a

-- `static_cast<std::uint16_t>`
abbrev pub uint16 : ℤ → ℕ
uint16 (pos n) = n % 2 ^ 16
uint16 (negsuc n) = 2 ^ 16 - 1 - n % 2 ^ 16

-- `std::to_string` of an `int`.
unfoldable pub int_to_string : ℤ → Text
int_to_string (pos n) = to_string n
int_to_string (negsuc n) = b'-' ∷ to_string (suc n)

-- The variable's value, `none` if it is not set.
unfoldable pub env_int : Option Text → ℤ → ℤ
env_int none fallback = fallback
env_int (some v) fallback = get_or (stoi v) fallback

module _ (glz : Glaze) where
  unfoldable pub conflict_error : Response
  conflict_error = error_json glz Status.conflict (
      codes
        "stopping the web server makes this API unreachable since it is the only ingress; resend with force=true to confirm, or use reset")

  unfoldable pub port_missing : Response
  port_missing = error_json glz Status.bad_request (codes "required: http (an integer port number)")

  unfoldable pub port_out_of_range : ℤ → ℤ → Response
  port_out_of_range port_min port_max = error_json glz Status.bad_request (
      codes "http port must be in the routable range "
      ++ (int_to_string port_min ++ (codes "-" ++ int_to_string port_max)))

module _ (glz : Glaze) {W : Type 0} where
  unfoldable pub server_result : Bool → Server W → Response
  server_result ok s =
      if ok
      then ok_json
      else json Status.internal_server_error (
          get_or
            (glz.write_obj (
              (codes "error", str (codes "web server command failed"))
              ∷ (codes "detail", str s.last_error)
              ∷ []))
            (codes "{\"error\":\"web server command failed\"}"))

  -- `server_result(s->method(), *s)`
  unfoldable pub answer : Bool × Server W → Response × Server W
  answer (ok, s) = (server_result ok s, s)

module _ (glz : Glaze) (readers : ControlReaders) {W : Type 0} (srv : WebServerController W) where
  unfoldable pub server_on : Server W → Response × Server W
  server_on s = answer glz (srv.on s)

  unfoldable pub server_off : Request → Server W → Response × Server W
  server_off req s =
      if confirmed (readers.read_force req.body)
      then answer glz (srv.off s)
      else (conflict_error glz, s)

  unfoldable pub server_reset : Server W → Response × Server W
  server_reset s = answer glz (srv.reset s)

  unfoldable pub server_port : ℤ → ℤ → Request → Server W → Response × Server W
  server_port port_min port_max req s = elim (port_arg (readers.read_port req.body)) [
    | none ↦ (port_missing glz, s)
    | some p ↦
        if less p port_min || less port_max p
        then (port_out_of_range glz port_min port_max, s)
        else answer glz (srv.set_listen_port (uint16 p) s)
  ]

  unfoldable pub server_status : Text → Server W → Response
  server_status server s = json Status.ok (
      get_or
        (glz.write_obj (
          (codes "server", str server)
          ∷ (codes "running", bool (srv.is_running s))
          ∷ (codes "http_port", num s.opts.http_port)
          ∷ (codes "https_port", num s.opts.https_port)
          ∷ []))
        [])

module _ {W : Type 0} (srv : WebServerController W) where
  -- The ports at the start, by the two environment variables.
  unfoldable pub initial_ports : Option Text → Option Text → Server W → Server W
  unfolding env_int
  initial_ports http https s =
      (srv.set_listen_ports (uint16 (env_int http (pos 8080))) (uint16 (env_int https (pos 8443)))
        s).1
