-- ===== src/Tests/Client.antt =====
-- The echo client, on a line with its line end and on a response behind a foreign datagram.
use eltex_systems.Base.{ℕ, ◌≡◌, refl, List, [], ◌∷◌, ◌++◌, arith, length-replicate, replicate}
use eltex_systems.Base.Text.{codes}
use eltex_systems.EchoRaw.Host.{little}
use eltex_systems.EchoRaw.Client.{Client, strip, message}
use eltex_systems.EchoRaw.Client.Laws.{IsConfigured}

abbrev pub client : Client
client = record {
  host = little;
  pid = 77;
  server_ip = 16777343;
  server_port = 8080;
  local_port = 40000;
  out = replicate 65536 0;
}

pub client-IsConfigured : IsConfigured client
client-IsConfigured = record {
  ip = omega arith;
  remote = omega arith;
  near = omega arith;
  room = length-replicate {A = ℕ} 65536 0;
}

abbrev pub typed : List ℕ
typed = codes "hi" ++ (13 ∷ 10 ∷ [])

pub message_runs : message typed ≡ codes "hi"
unfolding message strip
message_runs = refl
