-- ===== src/EchoRaw/Server/Laws.antt =====
-- What a round of the server does, on each kind of datagram.
use eltex_systems.Base.{
  ℕ, ◌+◌, ◌^◌, ◌≤◌, ◌<◌, ◌≡◌, ◌≢◌, refl, ◌∙◌, Bool, true, false, ◌&&◌, List, [], ◌∷◌, Option, none,
  some, arith, ltb, lt→ltb, ◌==◌, ==_iff, if◌then◌else◌, Bool-cases, inl, inr, length, take, drop,
  length-append,
}
use eltex_systems.Base.Text.{codes, c_string, same_bytes, same_bytes_refl}
use eltex_systems.Base.Decimal.{length-decimal}
use eltex_systems.EchoRaw.Host.{Endian}
use eltex_systems.EchoRaw.Packet.{
  max_payload, Parsed, Outcome, done, rejected, fault, parse_ipv4_udp, build_ipv4_udp,
}
use eltex_systems.EchoRaw.Packet.RoundTrip.{sent, parse-build}
use eltex_systems.EchoRaw.ClientTable.{Key, Table, ct_next, ct_reset, reset_in}
use eltex_systems.EchoRaw.ClientTable.Laws.{
  IsValid, view, after, Updates, next-Updates, reset-Updates,
}
use eltex_systems.EchoRaw.Server.{Round, response, Env, key_of, body, answer, dispatch, round}

build_too_long :
    (host : Endian) (pid : ℕ) (out : List ℕ) (room src dst src_port dst_port : ℕ) (payload : List ℕ)
    (ttl : ℕ)
    → max_payload < length payload
    → build_ipv4_udp host pid out room src dst src_port dst_port payload ttl ≡ none
unfolding build_ipv4_udp
build_too_long host pid out room src dst src_port dst_port payload ttl long =
    elim (Bool-cases (ltb room (28 + length payload))) [
      | inl full ↦ rw full
      | inr fits ↦ rw (fits, lt→ltb max_payload (length payload) long)
    ]

pub length-c_string-le : (bs : List ℕ) → length (c_string bs) ≤ length bs
unfolding c_string
length-c_string-le [] = omega arith
length-c_string-le (b ∷ bs) = ground (arith, length-c_string-le bs)

-- The response to a message of at most 1400 bytes, with a 32-bit number, is shorter than the 1528
-- bytes of `resp`: it is not cut off.
pub length-response :
    (msg : List ℕ) (cnt : ℕ)
    → length msg ≤ max_payload
    → cnt < 2 ^ 32
    → length (response msg cnt) < 1528
unfolding response
length-response msg cnt h small =
    rw length-append (omega (arith, length-c_string-le msg, length-decimal 9 cnt (omega arith)))

after-lt : (t : Table) (k : Key) → after (view t k) < 2 ^ 32
after-lt t k = cases (view t k)
  where
    cases : (o : Option ℕ) → after o < 2 ^ 32
    cases none = omega arith
    cases (some m) = omega arith

-- The number that the message gets, and the text of the response to it.
abbrev pub cnt : Table → Parsed → ℕ
cnt t p = after (view t (key_of p))

abbrev pub text : Table → List ℕ → Parsed → List ℕ
text t buf p =
    let copy = if ltb max_payload p.payload_len then max_payload else p.payload_len in
    response (take copy (drop p.payload buf)) (cnt t p)

module _ (env : Env) (t : Table) (valid : IsValid t) (buf : List ℕ) (p : Parsed)
    (memory : env.calloc_ok ≡ true) where
  pub counted :
      (t' : Table) × (ct_next env.calloc_ok (some t) (key_of p) true ≡ some (t', (cnt t p)))
      × Updates t (key_of p) (some (cnt t p)) t'
  unfolding ct_next
  counted = rw memory (next-Updates t valid (key_of p))

  -- A response that does not fit a packet: the message is counted, and nothing is sent.
  pub answer_too_long :
      max_payload < length (text t buf p)
      → (t' : Table) × (answer env (some t) buf p ≡ (some t', none))
        × Updates t (key_of p) (some (cnt t p)) t'
  answer_too_long long =
      let (t', run, u) = counted in
      let none_built =
        build_too_long env.host env.pid env.out 65536 p.dst p.src env.listen_port p.src_port
          (text t buf p) 64 long in
      (t', unfold answer in rw (run, answer, none_built), u)

  -- A response that fits: it goes back to the sender, with the addresses and the ports exchanged.
  answer-sent :
      length (text t buf p) ≤ max_payload
      → length env.out ≡ 65536
      → p.src < 2 ^ 32
      → p.dst < 2 ^ 32
      → p.src_port < 2 ^ 16
      → env.listen_port < 2 ^ 16
      → (t' : Table) × (packet : List ℕ) × (answer env (some t) buf p ≡ (
        some t',
        some (record { buf = packet; len = 28 + length (text t buf p); dst = p.src }),
      ))
        × Updates t (key_of p) (some (cnt t p)) t'
        × (parse_ipv4_udp env.host packet (28 + length (text t buf p))
            ≡ done (sent env.host env.pid p.dst p.src env.listen_port p.src_port 64 (text t buf p)))
        × (take (length (text t buf p)) (drop 28 packet) ≡ (text t buf p))
  answer-sent small room hs hd hp hl =
      let (t', run, u) = counted in
      let (packet, built, parsed, payload) =
        parse-build env.host env.pid p.dst p.src env.listen_port p.src_port 64 (text t buf p)
          env.out 65536 hd hs hl hp small (omega arith) (omega arith) in
      (t', packet, unfold answer in rw (run, answer, built), u, parsed, payload)

-- Whether a parsed datagram is for the server, and whether it asks for a reset.
abbrev pub is_reset : List ℕ → Parsed → Bool
is_reset buf p = p.payload_len == 8 && same_bytes (body buf p) (codes "shutdown")

pub round-dispatch :
    (env : Env) (ct : Option Table) (buf : List ℕ) (p : Parsed)
    → parse_ipv4_udp env.host buf (length buf) ≡ done p
    → 0 < length buf
    → round env ct (some buf) ≡ dispatch env ct buf p
unfolding round
round-dispatch env ct buf p e some_bytes =
    let nonempty : (length buf == 0) ≡ false = ground arith in rw (nonempty, e)

pub dispatch-answer :
    (env : Env) (ct : Option Table) (buf : List ℕ) (p : Parsed)
    → p.dst_port ≡ env.listen_port
    → is_reset buf p ≡ false
    → dispatch env ct buf p ≡ answer env ct buf p
unfolding dispatch
dispatch-answer env ct buf p port plain =
    let here : (p.dst_port == env.listen_port) ≡ true = (==_iff _ _).1 port in rw (here, plain)

pub dispatch_elsewhere :
    (env : Env) (ct : Option Table) (buf : List ℕ) (p : Parsed)
    → p.dst_port ≢ env.listen_port
    → dispatch env ct buf p ≡ (ct, none)
unfolding dispatch
dispatch_elsewhere env ct buf p other =
    let off : (p.dst_port == env.listen_port) ≡ false = ground arith in rw off

-- A round in which nothing is received, or whose datagram is empty, does not parse, or is for
-- another port, leaves the table and sends nothing.
round_ignores :
    (env : Env) (ct : Option Table) (received : Option (List ℕ))
    → ((buf : List ℕ) (p : Parsed)
        → received ≡ some buf
        → parse_ipv4_udp env.host buf (length buf) ≡ done p
        → p.dst_port ≢ env.listen_port)
    → round env ct received ≡ (ct, none)
unfolding round
round_ignores env ct none other = refl
round_ignores env ct (some buf) other = elim (Bool-cases (length buf == 0)) [
  | inl empty ↦ rw empty
  | inr bytes ↦ rw bytes (cases (parse_ipv4_udp env.host buf (length buf)) refl)
]
  where
    cases :
        (o : Outcome Parsed)
        → parse_ipv4_udp env.host buf (length buf) ≡ o
        → ◌≡◌ {A = Round}
            (elim o [ done p ↦ dispatch env ct buf p | rejected ↦ (ct, none) | fault ↦ (ct, none) ])
            (ct, none)
    cases (done p) e = dispatch_elsewhere env ct buf p (other buf p refl e)
    cases rejected e = refl
    cases fault e = refl

-- A datagram for the server's port with the 8 bytes `shutdown` as its payload makes a valid table
-- forget the counter of the sender and no other; nothing is sent.
pub round_shutdown :
    (env : Env) (t : Table) (buf : List ℕ) (p : Parsed)
    → IsValid t
    → 0 < length buf
    → parse_ipv4_udp env.host buf (length buf) ≡ done p
    → p.dst_port ≡ env.listen_port
    → p.payload_len ≡ 8
    → body buf p ≡ codes "shutdown"
    → (t' : Table) × (round env (some t) (some buf) ≡ (some t', none))
      × Updates t (key_of p) none t'
unfolding dispatch ct_reset
round_shutdown env t buf p valid bytes e port len same =
    let here : (p.dst_port == env.listen_port) ≡ true = (==_iff _ _).1 port in
    let eight : (p.payload_len == 8) ≡ true = (==_iff _ _).1 len in
    (
      reset_in t (key_of p),
      round-dispatch env (some t) buf p e bytes
          ∙ rw (here, eight, same, same_bytes_refl (codes "shutdown")),
      reset-Updates t valid (key_of p),
    )

module _ (env : Env) (t : Table) (valid : IsValid t) (buf : List ℕ) (p : Parsed)
    (memory : env.calloc_ok ≡ true) (bytes : 0 < length buf)
    (parsed : parse_ipv4_udp env.host buf (length buf) ≡ done p)
    (port : p.dst_port ≡ env.listen_port) (plain : is_reset buf p ≡ false) where
  to_answer : round env (some t) (some buf) ≡ answer env (some t) buf p
  to_answer =
      round-dispatch env (some t) buf p parsed bytes ∙ dispatch-answer env (some t) buf p port plain

  -- A datagram that parses, is for the server's port and does not ask for a reset, with a valid
  -- table, memory for a node and a response of at most 1400 bytes: the round counts it for its
  -- sender and changes no other counter, and sends one packet to the sender, which parses back
  -- to the response, the message and its number, with the addresses and the ports exchanged.
  pub round_answers :
      length (text t buf p) ≤ max_payload
      → length env.out ≡ 65536
      → p.src < 2 ^ 32
      → p.dst < 2 ^ 32
      → p.src_port < 2 ^ 16
      → env.listen_port < 2 ^ 16
      → (t' : Table) × (packet : List ℕ) × (round env (some t) (some buf) ≡ (
        some t',
        some (record { buf = packet; len = 28 + length (text t buf p); dst = p.src }),
      ))
        × Updates t (key_of p) (some (cnt t p)) t'
        × (parse_ipv4_udp env.host packet (28 + length (text t buf p))
            ≡ done (sent env.host env.pid p.dst p.src env.listen_port p.src_port 64 (text t buf p)))
        × (take (length (text t buf p)) (drop 28 packet) ≡ text t buf p)
  round_answers small room hs hd hp hl =
      rw to_answer (answer-sent env t valid buf p memory small room hs hd hp hl)

  -- Such a datagram whose response is longer than 1400 bytes is counted for its sender, and
  -- nothing is sent.
  pub round_too_long :
      max_payload < length (text t buf p)
      → (t' : Table) × (round env (some t) (some buf) ≡ (some t', none))
        × Updates t (key_of p) (some (cnt t p)) t'
  round_too_long long = rw to_answer (answer_too_long env t valid buf p memory long)
