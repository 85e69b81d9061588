-- ===== src/Tests/Restarts.antt =====
-- Restarts of the controllers on a machine where a signal ends the server, and on one where it does not.
use nginx_front_back_end_dem.Prelude.{
  ℕ, ◌+◌, ◌≡◌, refl, true, codes, none, some, [], find, find_char,
}
use nginx_front_back_end_dem.Decimal.{to_string}
use nginx_front_back_end_dem.Process.{
  Sys, ended, is_running, read_pid, extract_pid, pid_is, signal_pid, first_line,
}
use nginx_front_back_end_dem.Server.{nginx, lighttpd, Server, wait_while, pause}
use nginx_front_back_end_dem.Server.Pauses.{Sleeps, Within}
use nginx_front_back_end_dem.Factory.Pauses.{methods_of-Within}
use nginx_front_back_end_dem.Factory.{methods_of}
use nginx_front_back_end_dem.Factory.Restarts.{Restarted, methods_of-Restarted}
use nginx_front_back_end_dem.Lighttpd.Up.{Up, lifecycle-Up}
use nginx_front_back_end_dem.Tests.Controllers.{Files, put, table, nginx_server, lighttpd_server}
use nginx_front_back_end_dem.Lighttpd

abbrev mortal : Sys Files
mortal = record table {
  kill = λ pid sig w.
      (none, put (codes "/tmp/nginx.pid") none (put (codes "/tmp/lighttpd.pid") none w));
}

methods_of-Restarted_example :
    Restarted (methods_of mortal nginx) nginx_server ((methods_of mortal nginx).reset nginx_server)
methods_of-Restarted_example = methods_of-Restarted mortal nginx nginx_server

lifecycle-Up_example :
    Up mortal (Lighttpd.on mortal lighttpd_server)
    × Up mortal (Lighttpd.reset mortal lighttpd_server)
    × Up mortal (Lighttpd.reload mortal lighttpd_server)
lifecycle-Up_example = lifecycle-Up mortal lighttpd_server

-- The server does not react to any signal; the machine counts the microseconds of the pauses.
abbrev pub stuck : Sys ℕ
stuck = record {
  launch = λ argv capture w. (ended [] (some 0), w);
  read_file = λ path w. some (codes "42 nginx lighttpd\n");
  kill = λ pid sig w. (none, w);
  open_trunc = λ path w. (true, w);
  write_flush = λ path content w. (true, w);
  rename = λ p q w. (none, w);
  remove = λ path w. w;
  mkdir = λ path w. (true, w);
  usleep = λ us w. us + w;
}

abbrev pub stuck-Sleeps : Sleeps stuck
stuck-Sleeps = record {
  slept = λ w. w;
  slept-usleep = λ us w. refl;
  slept-launch = λ argv capture w. refl;
  slept-kill = λ pid sig w. refl;
  slept-open = λ path w. refl;
  slept-write = λ path content w. refl;
  slept-rename = λ p q w. refl;
  slept-remove = λ path w. refl;
  slept-mkdir = λ path w. refl;
}

abbrev pub stuck_server : Server ℕ
stuck_server = record { opts = Lighttpd.default_options; last_error = []; machine = 7 }

methods_of-Within_example :
    let srv = methods_of stuck lighttpd in
    Within stuck stuck-Sleeps 3000000 stuck_server (srv.on stuck_server).1
    × Within stuck stuck-Sleeps 0 stuck_server (srv.off stuck_server).1
    × Within stuck stuck-Sleeps 0 stuck_server (srv.test_config stuck_server).1
    × Within stuck stuck-Sleeps 8000000 stuck_server (srv.reset stuck_server).1
    × Within stuck stuck-Sleeps 8000000 stuck_server (srv.reload stuck_server).1
    × Within stuck stuck-Sleeps 8000000 stuck_server (srv.set_listen_ports 80 443 stuck_server).1
    × Within stuck stuck-Sleeps 8000000 stuck_server (srv.set_listen_port 80 stuck_server).1
methods_of-Within_example = methods_of-Within stuck stuck-Sleeps lighttpd 80 443 stuck_server

-- A restart of a server that does not end takes the whole of the wait.
stuck_waits : (Lighttpd.reset stuck stuck_server).1.machine ≡ 5000007
unfolding Lighttpd.reset Lighttpd.off Lighttpd.interrupt Lighttpd.running Lighttpd.await_exit
    wait_while pause is_running read_pid extract_pid pid_is signal_pid first_line find find_char
    to_string
stuck_waits = refl
