-- ===== src/Page/Tests.antt =====
-- tcp_server01 where all is well, and where getaddrinfo does not know the service.
use c_study.Base.{◌≡◌, refl, [], ◌∷◌, true, some, take}
use c_study.Base.Int.{ℤ, pos, negsuc}
use c_study.Page.{Calls, fault, exited, response, respond, talk_to, listen_on, serve_page, main}

program : Unit {0}
unfolding respond talk_to listen_on serve_page main
program = tt

abbrev calls : ℤ → Calls
calls status = record {
  getaddrinfo = status;
  socket = some 3;
  bind = true;
  listen = true;
  accept = some 4;
  recv = some [];
  send = some 5;
}

page_runs : main (calls (pos 0)) ≡ exited 0 (take 5 response) (4 ∷ 3 ∷ [])
unfolding program
page_runs = refl

-- EAI_SERVICE is -8.
service_runs : main (calls (negsuc 7)) ≡ fault
unfolding program
service_runs = refl
