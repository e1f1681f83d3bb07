-- ===== src/Tests/Starts.antt =====
-- The start of the echo programs with small arguments.
use eltex_systems.Base.{
  ℕ, ◌<◌, ◌≡◌, refl, true, List, [], ◌∷◌, Option, none, some, arith, length-replicate, replicate,
  if◌then◌else◌, ◌%◌, ◌^◌, ◌==◌,
}
use eltex_systems.Base.Text.{codes}
use eltex_systems.Base.Decimal.{decimal}
use eltex_systems.EchoRaw.Host.{little}
use eltex_systems.EchoRaw.ClientTable.History.{empty_table}
use eltex_systems.EchoRaw.Client.{Client}
use eltex_systems.EchoRaw.Client.Laws.{IsConfigured}
use eltex_systems.EchoRaw.Start.{
  Calls, bad_port, serving, server_start, started, Machine, client_start,
}
use eltex_systems.EchoRaw.Start.Ports.{
  server_start-decimal, client_start-IsConfigured, picked-starts,
}

abbrev fine : Calls
fine = record {
  recv_socket = true;
  socket = true;
  header_option = true;
  table = true;
  buckets = true;
}

abbrev loopback_only : List ℕ → Option ℕ
loopback_only [] = none
loopback_only (b ∷ bs) = some 16777343

loopback_only-lt : (text : List ℕ) (ip : ℕ) → loopback_only text ≡ some ip → ip < 2 ^ 32
loopback_only-lt [] ip e = absurd cc
loopback_only-lt (b ∷ bs) ip e = ground arith

abbrev machine : Machine
machine = record {
  host = little;
  pid = 77;
  out = replicate 65536 0;
  inet_aton = loopback_only;
  rand = 123456;
}

server_start-decimal_example :
    server_start fine (decimal 70000 ∷ [])
    ≡ (if 70000 % 2 ^ 16 == 0 then bad_port else serving (70000 % 2 ^ 16) empty_table)
server_start-decimal_example = server_start-decimal fine 70000 (omega arith) refl refl refl

-- The client with an address and the port 8080.
abbrev picked : Client
picked =
    (picked-starts fine machine (codes "127.0.0.1") 16777343 8080 refl (omega arith) (omega arith)
      refl).0

picked-runs : client_start fine machine (codes "127.0.0.1" ∷ decimal 8080 ∷ []) ≡ started picked
picked-runs =
    (picked-starts fine machine (codes "127.0.0.1") 16777343 8080 refl (omega arith) (omega arith)
      refl).1

client_start-IsConfigured_example :
    IsConfigured picked × (0 < picked.server_port) × (0 < picked.local_port)
client_start-IsConfigured_example =
    client_start-IsConfigured fine machine (length-replicate {A = ℕ} 65536 0) loopback_only-lt
      (codes "127.0.0.1" ∷ decimal 8080 ∷ []) picked picked-runs
