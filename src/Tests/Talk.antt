-- ===== src/Tests/Talk.antt =====
-- The line of `Tests/Client` through the server of `Tests/Echo` and back.
use eltex_systems.Base.{
  ℕ, ◌≡◌, refl, sym, ◌∙◌, true, false, List, [], ◌∷◌, ◌++◌, none, some, arith, length,
  length-replicate,
}
use eltex_systems.Base.Text.{codes, same_bytes}
use eltex_systems.EchoRaw.Host.{little, load16, load32, ntohs, swap16}
use eltex_systems.EchoRaw.Packet.{
  done, parse_ipv4_udp, parse_udp, parse_fields, read8, read16, read32, Parsed,
}
use eltex_systems.EchoRaw.Packet.RoundTrip.{sent}
use eltex_systems.EchoRaw.ClientTable.{Table}
use eltex_systems.EchoRaw.ClientTable.History.{empty_table}
use eltex_systems.EchoRaw.Server.{Send, response, round}
use eltex_systems.EchoRaw.Server.Runs.{rounds}
use eltex_systems.EchoRaw.Client.{message, waiting, turn, await}
use eltex_systems.EchoRaw.Client.Laws.{turn-sends}
use eltex_systems.EchoRaw.Session.{CanTalk, IsDelivered, number, line-echoed}
use eltex_systems.Tests.Echo.{loopback, headers, parsed_of, server}
use eltex_systems.Tests.Client.{client, client-IsConfigured, typed, message_runs}

talk : CanTalk client server loopback
talk = record {
  configured = client-IsConfigured;
  one_order = refl;
  port = refl;
  memory = refl;
  room = length-replicate {A = ℕ} 65536 0;
  ip = omega arith;
}

abbrev hi : List ℕ
hi = headers 2 ++ codes "hi"

parse_hi : parse_ipv4_udp little hi (length hi) ≡ done (parsed_of 2)
unfolding parse_ipv4_udp parse_udp parse_fields read8 read16 read32 load16 load32 ntohs swap16
parse_hi = refl

-- The packet of the client, and its fields.
abbrev packet : Send
packet = (turn-sends client typed client-IsConfigured (omega arith)).0

abbrev fields : Parsed
fields = sent little 77 0 16777343 40000 8080 64 (message typed)

plain_line : same_bytes (message typed) (codes "shutdown") ≡ false
plain_line = rw message_runs (unfold same_bytes in refl)

typed_packet : turn client true typed ≡ waiting packet
typed_packet =
    let (_, run, _, _, _) = turn-sends client typed client-IsConfigured (omega arith) in
    rw plain_line at run

delivered : IsDelivered loopback packet fields hi (parsed_of 2)
delivered =
    let (_, _, _, _, payload) = turn-sends client typed client-IsConfigured (omega arith) in
    record {
      src = refl;
      dst = refl;
      src_port = refl;
      dst_port = refl;
      payload_len = rw message_runs refl;
      payload = sym (payload ∙ message_runs);
    }

line-echoed_example :
    (reply : Send) × (t' : Table) × (round server
        (rounds server (none ∷ []) (some empty_table))
        (some hi)
      ≡ (some t', some reply))
    × (reply.dst ≡ loopback)
    × (await client (none ∷ some (reply.buf, reply.len) ∷ [])
        ≡ some (response (message typed) (number client server loopback (none ∷ []))))
line-echoed_example =
    line-echoed client server loopback talk typed (omega arith) packet fields typed_packet
      (let (_, _, _, back, _) = turn-sends client typed client-IsConfigured (omega arith) in back)
      plain_line (none ∷ []) hi (parsed_of 2) (none ∷ []) [] (omega arith) parse_hi delivered
      (tt, tt)
