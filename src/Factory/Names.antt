-- ===== src/Factory/Names.antt =====
-- The names of the kinds of server.
use nginx_front_back_end_dem.Prelude.{◌≡◌, ◌↔◌, some, map, Text, codes, text_beq_iff, arith}
use nginx_front_back_end_dem.Server.{WebServer, nginx, lighttpd}
use nginx_front_back_end_dem.Factory.{to_string, tolower, web_server_from_string}

-- `web_server_from_string` gives kind `k` exactly for the spellings, in any mix of upper and lower
-- case, of the name that `to_string` gives `k`.
web_server_from_string-to_string :
    (s : Text) (k : WebServer) → (web_server_from_string s ≡ some k) ↔ (map tolower s ≡ to_string k)
unfolding web_server_from_string to_string
web_server_from_string-to_string s nginx = ground (
  arith,
  text_beq_iff (map tolower s) (codes "nginx"),
  text_beq_iff (map tolower s) (codes "lighttpd"),
)
web_server_from_string-to_string s lighttpd = ground (
  arith,
  text_beq_iff (map tolower s) (codes "nginx"),
  text_beq_iff (map tolower s) (codes "lighttpd"),
)
