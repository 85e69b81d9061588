-- ===== src/Control/Stored.antt =====
-- A request for a new port, down to the listen file on disk.
use nginx_front_back_end_dem.Prelude.{
  ℕ, ◌≤◌, ◌<◌, ◌%◌, ◌^◌, ◌≡◌, refl, sym, ap, ◌∙◌, inl, inr, Bool, true, false, ◌||◌, some, Text,
  ltb, arith, Bool-cases, Option-cases,
}
use nginx_front_back_end_dem.Http.{Status, Request, json}
use nginx_front_back_end_dem.Json.{Glaze, error_json, ok_json}
use nginx_front_back_end_dem.Decimal.{ℤ, pos, negsuc}
use nginx_front_back_end_dem.Process.{Sys}
use nginx_front_back_end_dem.Process.Atomic.{IsFileSystem}
use nginx_front_back_end_dem.Server.{WebServer, Server, with_ports}
use nginx_front_back_end_dem.Server.Snippet.{LeavesFile, Stored}
use nginx_front_back_end_dem.Factory.{methods_of}
use nginx_front_back_end_dem.Factory.Snippets.{snippet_of, methods_of-KeepsSnippet}
use nginx_front_back_end_dem.Control.{
  ControlReaders, port_arg, port_missing, port_out_of_range, server_result, answer, server_port,
}

module _ (glz : Glaze) (readers : ControlReaders) {W : Type 0} (sys : Sys W) (path : Text)
    (kind : WebServer) (law : IsFileSystem sys) (quiet : LeavesFile sys path) (low high : ℕ)
    (one : 1 ≤ low) (fits : high < 2 ^ 16) (req : Request) (s : Server W)
    (at : s.opts.listen_file ≡ path) where
  -- Port `n`, which the request asks for, is set and on disk.
  abbrev pub OnDisk : Server W → Type 0
  OnDisk s' =
      (n : ℕ) × (port_arg (readers.read_port req.body) ≡ some (pos n))
      × (low ≤ n)
      × (n ≤ high)
      × (s'.opts ≡ (with_ports n s.opts.https_port s).opts)
      × (sys.read_file path s'.machine
          ≡ some (snippet_of kind (with_ports n s.opts.https_port s).opts))

  -- An answer of 200, for a method that has done what is asked.
  answer-OnDisk :
      (n : ℕ) (r : Bool × Server W)
      → port_arg (readers.read_port req.body) ≡ some (pos n)
      → low ≤ n
      → n ≤ high
      → Stored sys path (snippet_of kind) n s.opts.https_port s r
      → (answer glz r).0.status ≡ Status.ok
      → OnDisk (answer glz r).1
  unfolding answer server_result ok_json json
  answer-OnDisk n (true, s') asked above below (same, (there, content)) ok =
      (n, asked, above, below, same, content ∙ ap (λ o. some (snippet_of kind o)) same)
  answer-OnDisk n (false, s') asked above below stored ok = cc

  asked-OnDisk :
      (p : ℤ)
      → port_arg (readers.read_port req.body) ≡ some p
      → (let r = server_port glz readers (methods_of sys kind) (pos low) (pos high) req s in
          r.0.status ≡ Status.ok → OnDisk r.1)
  unfolding server_port port_out_of_range error_json json
  asked-OnDisk (negsuc n) asked = rw (asked, server_port) (λ ok. cc)
  asked-OnDisk (pos n) asked = elim (Bool-cases (ltb n low || ltb high n)) [
    | inl out ↦ rw (asked, out, server_port) (λ ok. cc)
    | inr within ↦
        let small : n % 2 ^ 16 ≡ n = ground arith in
        let is : server_port glz readers (methods_of sys kind) (pos low) (pos high) req s
            ≡ answer glz ((methods_of sys kind).set_listen_port n s) =
          rw (asked, within, small, server_port) refl in
        rw is (
          answer-OnDisk n ((methods_of sys kind).set_listen_port n s) asked (ground arith)
            (ground arith) ((methods_of-KeepsSnippet sys path kind law quiet).port_stored n s at))
  ]

  -- Let the range of routable ports lie within 1 to 65535, and let the file system behave as
  -- documented, with only the controller writing its listen file. A request for a port that is answered
  -- 200 has asked for a port in the range, and behind it the options have that port and the old HTTPS
  -- port, and the listen file is the complete snippet of these.
  pub server_port-OnDisk :
      (server_port glz readers (methods_of sys kind) (pos low) (pos high) req s).0.status
        ≡ Status.ok
      → OnDisk (server_port glz readers (methods_of sys kind) (pos low) (pos high) req s).1
  unfolding server_port port_missing error_json json
  server_port-OnDisk ok = elim (Option-cases (port_arg (readers.read_port req.body))) [
    | inl missing ↦
        let refused : (server_port glz readers (methods_of sys kind) (pos low) (pos high) req
              s).0.status
            ≡ Status.bad_request =
          rw (missing, server_port) refl in
        let differ = sym refused ∙ ok in cc
    | inr (p, asked) ↦ asked-OnDisk p asked ok
  ]
