-- ===== src/EchoRaw/Session.antt =====
-- A line from the client of `echo_raw` through its server and back.
use eltex_systems.Base.{
  ℕ, suc, ◌+◌, ◌%◌, ◌^◌, ◌≤◌, ◌<◌, ◌≡◌, refl, sym, ap, ◌∙◌, true, false, ◌&&◌, List, ◌∷◌, ◌++◌,
  Option, some, arith, ltb, ◌==◌, if◌then◌else◌, length, length-append, take, drop, All,
}
use eltex_systems.Base.Text.{codes, same_bytes}
use eltex_systems.Base.Decimal.{length-decimal}
use eltex_systems.EchoRaw.Packet.{
  max_payload, Parsed, Outcome, done, rejected, fault, parse_ipv4_udp,
}
use eltex_systems.EchoRaw.Packet.RoundTrip.{sent}
use eltex_systems.EchoRaw.ClientTable.{Table}
use eltex_systems.EchoRaw.ClientTable.Laws.{after, view}
use eltex_systems.EchoRaw.ClientTable.History.{tally, empty_table, Counts, after-counter_of}
use eltex_systems.EchoRaw.Server.{Env, Send, key_of, body, response, round}
use eltex_systems.EchoRaw.Server.Laws.{text, cnt, is_reset, length-c_string-le, round_answers}
use eltex_systems.EchoRaw.Server.Runs.{history, rounds, rounds-Counts}
use eltex_systems.EchoRaw.Client.{
  Client, message, Turn, not_built, send_failed, leaving, waiting, turn, accept, await,
}
use eltex_systems.EchoRaw.Client.Laws.{
  IsConfigured, IsPassed, turn-sends, await-skip, length-message-le,
}

-- A datagram as it arrives: the kernel has filled in the source address, which the client leaves
-- 0, and the rest says what was sent.
pub record IsDelivered (client_ip : ℕ) (s : Send) (q : Parsed) (buf : List ℕ) (p : Parsed)
    : Type 0 where
  pub src : p.src ≡ client_ip
  pub dst : p.dst ≡ q.dst
  pub src_port : p.src_port ≡ q.src_port
  pub dst_port : p.dst_port ≡ q.dst_port
  pub payload_len : p.payload_len ≡ q.payload_len
  pub payload : body buf p ≡ body s.buf q

-- A client and a server that it can reach, on hosts of one byte order.
pub record CanTalk (c : Client) (env : Env) (client_ip : ℕ) : Type 0 where
  pub configured : IsConfigured c
  pub one_order : env.host ≡ c.host
  pub port : env.listen_port ≡ c.server_port
  pub memory : env.calloc_ok ≡ true
  pub room : length env.out ≡ 65536
  pub ip : client_ip < 2 ^ 32

-- The number of a message of the client after some datagrams.
abbrev pub number : Client → Env → ℕ → List (Option (List ℕ)) → ℕ
number c env client_ip rs =
    suc (tally (record { ip = client_ip; port = c.local_port }) (history env rs)) % 2 ^ 32

abbrev sent_by : Send → Turn → Send
sent_by s not_built = s
sent_by s (send_failed s') = s'
sent_by s (leaving s') = s'
sent_by s (waiting s') = s'

abbrev parsed_or : Parsed → Outcome Parsed → Parsed
parsed_or q (done q') = q'
parsed_or q rejected = q
parsed_or q fault = q

module _ (c : Client) (env : Env) (client_ip : ℕ) (talk : CanTalk c env client_ip) where
  -- What the client takes of a packet that the server sends to it.
  accept-sent :
      (packet answer_text : List ℕ)
      → parse_ipv4_udp env.host packet (28 + length answer_text)
        ≡ done (
            sent env.host env.pid c.server_ip client_ip env.listen_port c.local_port 64 answer_text)
      → take (length answer_text) (drop 28 packet) ≡ answer_text
      → accept c packet (28 + length answer_text) ≡ some answer_text
  unfolding accept
  accept-sent packet answer_text parsed payload =
      let here = rw talk.one_order at parsed in
      let mine : (c.server_ip == c.server_ip
            && env.listen_port == c.server_port
            && c.local_port == c.local_port)
          ≡ true =
        rw talk.port (ground arith) in
      rw (accept, here, mine) (ap (λ t. some t) payload)

  length-answer :
      (line : List ℕ) (n : ℕ)
      → length line ≤ 1388
      → n < 2 ^ 32
      → length (response (message line) n) ≤ max_payload
  unfolding response
  length-answer line n short small = rw length-append (
      omega (
        arith,
        length-c_string-le (message line),
        length-message-le line,
        length-decimal 9 n (omega arith),
      ))

  module _ (line : List ℕ) (rs : List (Option (List ℕ))) (buf : List ℕ) (p : Parsed)
      (short : length line ≤ 1388) (src : p.src ≡ client_ip) (src_port : p.src_port ≡ c.local_port)
      (size : p.payload_len ≡ length (message line)) (same : body buf p ≡ message line) where
    text-number :
        (t : Table)
        → Counts (history env rs) t
        → text t buf p ≡ response (message line) (number c env client_ip rs)
    text-number t h =
        let whole : ltb max_payload p.payload_len ≡ false =
          rw size (ground (arith, length-message-le line)) in
        let key : key_of p ≡ record { ip = client_ip; port = c.local_port } =
          rw (src, src_port) refl in
        let counted : cnt t p ≡ number c env client_ip rs =
          ap (λ k. after (view t k)) key
          ∙ (ap after (h.counted (record { ip = client_ip; port = c.local_port }))
              ∙ after-counter_of
                  (tally (record { ip = client_ip; port = c.local_port }) (history env rs))) in
        let message_copied : take
              (if ltb max_payload p.payload_len then max_payload else p.payload_len)
              (drop p.payload buf)
            ≡ message line =
          rw whole same in
        rw (message_copied, counted) refl

  module _ (line : List ℕ) (short : length line ≤ 1388) (s : Send) (q : Parsed)
      (typed : turn c true line ≡ waiting s) (parsed : parse_ipv4_udp c.host s.buf s.len ≡ done q)
      (plain : same_bytes (message line) (codes "shutdown") ≡ false) where
    -- What the client has sent for the line.
    sent_line :
        (q ≡ sent c.host c.pid 0 c.server_ip c.local_port c.server_port 64 (message line))
        × (take (length (message line)) (drop 28 s.buf) ≡ message line)
    sent_line =
        let (s', run, _, back, payload) = turn-sends c line talk.configured (omega arith) in
        let same : s ≡ s' = ap (sent_by s) (sym typed ∙ rw plain at run) in
        let again : parse_ipv4_udp c.host s.buf s.len
            ≡ done (sent c.host c.pid 0 c.server_ip c.local_port c.server_port 64 (message line)) =
          rw same back in
        (ap (parsed_or q) (sym parsed ∙ again), rw same payload)

    -- A line of at most 1388 bytes that is not `shutdown`, from a client to a server that it can
    -- reach, on hosts of one byte order, while the server has memory, and after any datagrams that
    -- the server has received: when the packet that the client sends for it arrives, with the
    -- address of the client filled in, the server sends one packet to the client; and when that
    -- arrives, behind any datagrams that are not from the server and for the client, the client
    -- prints the line without its line ends, up to a NUL, and the number of its messages since its
    -- last reset, this one included, modulo 2 ^ 32.
    pub line-echoed :
        (rs : List (Option (List ℕ))) (buf : List ℕ) (p : Parsed)
        (skipped rest : List (Option (List ℕ × ℕ)))
        → 0 < length buf
        → parse_ipv4_udp env.host buf (length buf) ≡ done p
        → IsDelivered client_ip s q buf p
        → All (IsPassed c) skipped
        → (reply : Send) × (t' : Table) × (round env (rounds env rs (some empty_table)) (some buf)
            ≡ (some t', some reply))
          × (reply.dst ≡ client_ip)
          × (await c (skipped ++ (some (reply.buf, reply.len) ∷ rest))
              ≡ some (response (message line) (number c env client_ip rs)))
    unfolding await
    line-echoed rs buf p skipped rest bytes arrived d passed =
        let (fields, payload) = sent_line in
        let (t, run, h) = rounds-Counts env talk.memory rs in
        let src_port : p.src_port ≡ c.local_port = d.src_port ∙ ap (λ q. q.src_port) fields in
        let size : p.payload_len ≡ length (message line) =
          d.payload_len ∙ ap (λ q. q.payload_len) fields in
        let same : body buf p ≡ message line = d.payload ∙ (ap (body s.buf) fields ∙ payload) in
        let dst : p.dst ≡ c.server_ip = d.dst ∙ ap (λ q. q.dst) fields in
        let port : p.dst_port ≡ env.listen_port =
          d.dst_port ∙ (ap (λ q. q.dst_port) fields ∙ sym talk.port) in
        let answer_text = text-number line rs buf p short d.src src_port size same t h in
        let no_reset : is_reset buf p ≡ false = rw same (rw plain (ground arith)) in
        let small : length (text t buf p) ≤ max_payload =
          rw answer_text (length-answer line (number c env client_ip rs) short (omega arith)) in
        let (t', packet, ran, _, back, copied) =
          round_answers env t h.valid buf p talk.memory bytes arrived port no_reset small talk.room
            (rw d.src talk.ip) (rw dst talk.configured.ip) (rw src_port talk.configured.near)
            (rw talk.port talk.configured.remote) in
        let exchanged : parse_ipv4_udp env.host packet (28 + length (text t buf p))
            ≡ done (
                sent env.host env.pid c.server_ip client_ip env.listen_port c.local_port 64
                  (text t buf p)) =
          back ∙ rw (dst, d.src, src_port) refl in
        let taken = accept-sent packet (text t buf p) exchanged copied in
        let some_bytes : (28 + length (text t buf p) == 0) ≡ false = ground arith in
        let reply : Send = record { buf = packet; len = 28 + length (text t buf p); dst = p.src } in
        (
          reply,
          t',
          rw run ran,
          d.src,
          await-skip c skipped (some (packet, 28 + length (text t buf p)) ∷ rest) passed
              ∙ (rw (await, some_bytes, taken) refl ∙ ap (λ x. some x) answer_text),
        )
