-- ===== src/Tests/Controllers.antt =====
-- Runs of the controllers on a machine that is a table of files.
use nginx_front_back_end_dem.Prelude.{
  ◌≤◌, ℕ, false, ◌⊎◌, find, find_char, ◌≡◌, ◌≢◌, refl, true, Option, none, some, [], Text, codes,
  arith, text_beq, text_beq_iff, if◌then◌else◌,
}
use nginx_front_back_end_dem.Decimal.{to_string, pos}
use nginx_front_back_end_dem.Process.{
  is_running, read_pid, extract_pid, pid_is, first_line, spawn, spawned, Sys, ended, tmp_of,
  write_file_atomic,
}
use nginx_front_back_end_dem.Process.Atomic.{IsFileSystem, write_file_atomic_lem}
use nginx_front_back_end_dem.Server.{
  write_snippet, note_exit, run_command, Server, with_ports, WebServerController, nginx,
}
use nginx_front_back_end_dem.Http.{json, make_response, Verb, Status, Request}
use nginx_front_back_end_dem.Factory.{methods_of}
use nginx_front_back_end_dem.Json.{ok_json}
use nginx_front_back_end_dem.Control.Stored.{server_port-OnDisk}
use nginx_front_back_end_dem.Factory.Snippets.{snippet_of, KeepsSnippet, methods_of-KeepsSnippet}
use nginx_front_back_end_dem.Server.Snippet.{LeavesFile}
use nginx_front_back_end_dem.Control.{
  ControlReaders, answer, server_result, port_arg, server_port, initial_ports,
}
use nginx_front_back_end_dem.Control.Endpoints.{
  IsController, methods_of-IsController, PortAnswer, server_port-RangeAnswer, initial_ports-uint16,
}
use nginx_front_back_end_dem.Tests.{glaze, request}
use nginx_front_back_end_dem.Nginx
use nginx_front_back_end_dem.Lighttpd

abbrev pub Files : Type 0
Files = Text → Option Text

abbrev pub put : Text → Option Text → Files → Files
put path content files = λ other. if text_beq path other then content else files other

-- Every program exits with 0 and every signal is delivered.
abbrev pub table : Sys Files
table = record {
  launch = λ argv capture w. (ended [] (some 0), w);
  read_file = λ path w. w path;
  kill = λ pid sig w. (none, w);
  open_trunc = λ path w. (true, put path (some []) w);
  write_flush = λ path content w. (true, put path (some content) w);
  rename = λ p q w. (none, put q (w p) (put p none w));
  remove = λ path w. put path none w;
  mkdir = λ path w. (true, w);
  usleep = λ us w. w;
}

pub table-IsFileSystem : IsFileSystem table
table-IsFileSystem = record {
  open_frame = λ p q w ne. ground (arith, text_beq_iff p q);
  write_frame = λ p q c w ne. ground (arith, text_beq_iff p q);
  write_done = λ p c w a b. ground (arith, text_beq_iff p p);
  rename_done = λ p q w e. ground (arith, text_beq_iff q q);
  rename_frame = λ p q r w np nq. ground (arith, text_beq_iff p r, text_beq_iff q r);
  rename_failed = λ p q r error w e. absurd (ground arith);
  remove_frame = λ p q w ne. ground (arith, text_beq_iff p q);
}

-- Both servers run, as process 42.
abbrev pub machine : Files
machine = put (codes "/tmp/nginx.pid") (some (codes "42\n")) (
    put (codes "/tmp/lighttpd.pid") (some (codes "42\n"))
      (put (codes "/proc/42/comm") (some (codes "nginx lighttpd\n")) (λ path. none)))

abbrev pub nginx_server : Server Files
nginx_server = record { opts = Nginx.default_options; last_error = []; machine = machine }

abbrev pub lighttpd_server : Server Files
lighttpd_server = record { opts = Lighttpd.default_options; last_error = []; machine = machine }

-- A port is set on a running server.
nginx_moves : (Nginx.set_listen_ports table 80 443 nginx_server).0 ≡ true
unfolding Nginx.set_listen_ports Nginx.write_listen_snippet write_snippet write_file_atomic
    Nginx.running is_running read_pid text_beq tmp_of extract_pid pid_is to_string find first_line
    find_char Nginx.reload Nginx.test_config Nginx.run spawn note_exit run_command spawned
nginx_moves = refl

write_file_atomic_example :
    let path : Text = codes "/etc/nginx/conf.d/listen.conf" in
    let other : Text = codes "/tmp/nginx.pid" in
    let (failed, w) = write_file_atomic table path (codes "listen 80;") machine in
    ((failed ≡ none → w path ≡ some (codes "listen 80;"))
      × ((error : Text) → failed ≡ some error → w path ≡ machine path))
    × (other ≢ path → other ≢ tmp_of path → w other ≡ machine other)
write_file_atomic_example =
    write_file_atomic_lem table table-IsFileSystem (codes "/etc/nginx/conf.d/listen.conf")
      (codes "listen 80;") (codes "/tmp/nginx.pid") machine

-- A reader that finds port 8090 and no confirmation in every body.
abbrev pub readers : ControlReaders
readers = record {
  read_force = λ body. record { failed = false; value = record { force = none } };
  read_port = λ body. record { failed = false; value = record { http = some (pos 8090) } };
}

abbrev nginx_methods : WebServerController Files
nginx_methods = methods_of table nginx

abbrev post_request : Request
post_request = request Verb.post [] none

server_port-RangeAnswer_example :
    let law = methods_of-IsController table nginx in
    let (res, s') =
      server_port glaze readers nginx_methods (pos 8080) (pos 8099) post_request nginx_server in
    ((res.status ≡ Status.bad_request) × (s' ≡ nginx_server))
    ⊎ ((n : ℕ) × (port_arg (readers.read_port post_request.body) ≡ some (pos n))
        × (8080 ≤ n)
        × (n ≤ 8099)
        × PortAnswer glaze readers nginx_methods law n nginx_server (res, s'))
server_port-RangeAnswer_example =
    server_port-RangeAnswer glaze readers nginx_methods (methods_of-IsController table nginx) 8080
      8099 (omega arith) (omega arith) post_request nginx_server

initial_ports-uint16_example :
    let s' = initial_ports nginx_methods (some (to_string 70000)) none nginx_server in
    (s'.opts ≡ (with_ports 4464 8443 nginx_server).opts)
    ⊎ ((s'.opts ≡ nginx_server.opts) × (s'.last_error ≢ []))
initial_ports-uint16_example =
    initial_ports-uint16 nginx_methods (methods_of-IsController table nginx) 70000 nginx_server
      (omega arith)

methods_of-IsController_example : IsController (methods_of table nginx)
methods_of-IsController_example = methods_of-IsController table nginx

abbrev pub nginx_file : Text
nginx_file = codes "/etc/nginx/conf.d/listen.conf"

pub table-LeavesFile : LeavesFile table nginx_file
table-LeavesFile = record {
  launch_frame = λ argv capture w. refl;
  kill_frame = λ pid sig w. refl;
  mkdir_frame = λ dir w. refl;
  usleep_frame = λ us w. refl;
}

methods_of-KeepsSnippet_example :
    KeepsSnippet table nginx_file (snippet_of nginx) (methods_of table nginx)
methods_of-KeepsSnippet_example =
    methods_of-KeepsSnippet table nginx_file nginx table-IsFileSystem table-LeavesFile

port_answered :
    (server_port glaze readers nginx_methods
      (pos 8080)
      (pos 8099)
      post_request
      nginx_server).0.status
    ≡ Status.ok
unfolding server_port port_arg answer server_result ok_json json make_response Nginx.set_listen_port
    Nginx.set_listen_ports Nginx.write_listen_snippet write_snippet write_file_atomic Nginx.running
    is_running read_pid text_beq tmp_of extract_pid pid_is to_string find first_line find_char
    Nginx.reload Nginx.test_config Nginx.run spawn note_exit run_command spawned
port_answered = refl

server_port-OnDisk_example :
    let s' =
      (server_port glaze readers nginx_methods (pos 8080) (pos 8099) post_request nginx_server).1 in
    (n : ℕ) × (port_arg (readers.read_port post_request.body) ≡ some (pos n))
    × (8080 ≤ n)
    × (n ≤ 8099)
    × (s'.opts ≡ (with_ports n 8443 nginx_server).opts)
    × (table.read_file nginx_file s'.machine
        ≡ some (snippet_of nginx (with_ports n 8443 nginx_server).opts))
server_port-OnDisk_example =
    server_port-OnDisk glaze readers table nginx_file nginx table-IsFileSystem table-LeavesFile 8080
      8099 (omega arith) (omega arith) post_request nginx_server refl port_answered
