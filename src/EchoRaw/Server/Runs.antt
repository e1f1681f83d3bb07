-- ===== src/EchoRaw/Server/Runs.antt =====
-- The server over many rounds: the number in a response against the datagrams before it.
use eltex_systems.Base.{
  ℕ, suc, ◌+◌, ◌-◌, ◌%◌, ◌^◌, ◌≤◌, ◌<◌, ◌≡◌, ◌≢◌, refl, ap, ◌∙◌, Bool, true, false, ◌&&◌, List, [],
  ◌∷◌, Option, none, some, arith, ltb, ◌==◌, ==_iff, if◌then◌else◌, Bool-cases, inl, inr, length,
  take, drop,
}
use eltex_systems.Base.Text.{codes, same_bytes, same_bytes-eq}
use eltex_systems.EchoRaw.Packet.{
  max_payload, Parsed, Outcome, done, rejected, fault, parse_ipv4_udp,
}
use eltex_systems.EchoRaw.ClientTable.{Table}
use eltex_systems.EchoRaw.ClientTable.Laws.{after}
use eltex_systems.EchoRaw.ClientTable.History.{
  Call, next, reset, tally, empty_table, Counts, Counts-counted, Counts-forgot, Counts-empty,
  after-counter_of,
}
use eltex_systems.EchoRaw.Server.{Env, Send, key_of, body, response, answer, round}
use eltex_systems.EchoRaw.Server.Laws.{
  text, cnt, is_reset, counted, round-dispatch, dispatch-answer, dispatch_elsewhere, round_answers,
  round_shutdown,
}

-- The call of a client that a datagram for the server is: a message, or a reset.
abbrev pub call_from : Env → List ℕ → Parsed → Option Call
call_from env buf p =
    if p.dst_port == env.listen_port
    then (if is_reset buf p then some (reset (key_of p)) else some (next (key_of p)))
    else none

abbrev pub call_in : Env → List ℕ → Outcome Parsed → Option Call
call_in env buf (done p) = call_from env buf p
call_in env buf rejected = none
call_in env buf fault = none

abbrev pub call_of : Env → Option (List ℕ) → Option Call
call_of env none = none
call_of env (some buf) =
    if length buf == 0 then none else call_in env buf (parse_ipv4_udp env.host buf (length buf))

abbrev pub and_then : Option Call → List Call → List Call
and_then none calls = calls
and_then (some c) calls = c ∷ calls

-- The calls in some datagrams, and the table after the rounds for them, the latest first in both.
unfoldable pub history : Env → List (Option (List ℕ)) → List Call
history env [] = []
history env (r ∷ rs) = and_then (call_of env r) (history env rs)

unfoldable pub rounds : Env → List (Option (List ℕ)) → Option Table → Option Table
rounds env [] ct = ct
rounds env (r ∷ rs) ct = (round env (rounds env rs ct) r).0

both : (a b : Bool) → (a && b) ≡ true → (a ≡ true) × (b ≡ true)
both true b e = (refl, e)
both false b e = absurd (cc)

module _ (env : Env) (memory : env.calloc_ok ≡ true) where
  abbrev Keeps : Option (List ℕ) → Option Call → List Call → Table → Type 0
  Keeps received call calls t =
      (t' : Table) × ((round env (some t) received).0 ≡ some t') × Counts (and_then call calls) t'

  answer-Keeps :
      (t : Table) (calls : List Call) (buf : List ℕ) (p : Parsed)
      → Counts calls t
      → (t' : Table) × ((answer env (some t) buf p).0 ≡ some t')
        × Counts (next (key_of p) ∷ calls) t'
  unfolding answer
  answer-Keeps t calls buf p h =
      let (t', run, u) = counted env t h.valid buf p memory in
      (t', rw (answer, run) refl, (Counts-counted (key_of p) calls t t' h u).1)

  parsed-Keeps :
      (t : Table) (calls : List Call) (buf : List ℕ) (p : Parsed)
      → Counts calls t
      → 0 < length buf
      → parse_ipv4_udp env.host buf (length buf) ≡ done p
      → Keeps (some buf) (call_from env buf p) calls t
  parsed-Keeps t calls buf p h bytes parsed = elim (Bool-cases (p.dst_port == env.listen_port)) [
    | inr other ↦
        let call : call_from env buf p ≡ none = rw other refl in
        let off : p.dst_port ≢ env.listen_port = λ e. let e' = (==_iff _ _).1 e in cc in
        (
          t,
          ap (λ r. r.0)
              (round-dispatch env (some t) buf p parsed bytes
                ∙ dispatch_elsewhere env (some t) buf p off),
          rw call h,
        )
    | inl here ↦ elim (Bool-cases (is_reset buf p)) [
      | inl shut ↦
          let call : call_from env buf p ≡ some (reset (key_of p)) = rw (here, shut) refl in
          let (eight, word) =
            both (p.payload_len == 8) (same_bytes (body buf p) (codes "shutdown")) shut in
          let (t', run, u) =
            round_shutdown env t buf p h.valid bytes parsed ((==_iff _ _).0 here)
              ((==_iff _ _).0 eight) (same_bytes-eq (body buf p) (codes "shutdown") word) in
          (t', ap (λ r. r.0) run, rw call (Counts-forgot (key_of p) calls t t' h u))
      | inr plain ↦
          let call : call_from env buf p ≡ some (next (key_of p)) = rw (here, plain) refl in
          let (t', run, counts) = answer-Keeps t calls buf p h in
          (
            t',
            ap (λ r. r.0)
                  (round-dispatch env (some t) buf p parsed bytes
                    ∙ dispatch-answer env (some t) buf p ((==_iff _ _).0 here) plain)
                ∙ run,
            rw call counts,
          )
    ]
  ]

  round-Keeps :
      (t : Table) (calls : List Call) (received : Option (List ℕ))
      → Counts calls t
      → Keeps received (call_of env received) calls t
  unfolding round
  round-Keeps t calls none h = (t, refl, h)
  round-Keeps t calls (some buf) h = elim (Bool-cases (length buf == 0)) [
    | inl empty ↦ (t, rw (round, empty) refl, rw empty h)
    | inr bytes ↦
        let (t', run, c) =
          by_parse (parse_ipv4_udp env.host buf (length buf)) refl bytes (ground arith) in
        (t', run, rw bytes c)
  ]
    where
      by_parse :
          (o : Outcome Parsed)
          → parse_ipv4_udp env.host buf (length buf) ≡ o
          → (length buf == 0) ≡ false
          → 0 < length buf
          → Keeps (some buf) (call_in env buf (parse_ipv4_udp env.host buf (length buf))) calls t
      by_parse (done p) e bytes there =
          let (t', run, c) = parsed-Keeps t calls buf p h there e in (t', run, rw e c)
      by_parse rejected e bytes there = (t, rw (round, bytes, e) refl, rw e h)
      by_parse fault e bytes there = (t, rw (round, bytes, e) refl, rw e h)

  pub rounds-Counts :
      (rs : List (Option (List ℕ)))
      → (t : Table) × (rounds env rs (some empty_table) ≡ some t) × Counts (history env rs) t
  unfolding rounds history
  rounds-Counts [] = (empty_table, refl, Counts-empty)
  rounds-Counts (r ∷ rs) =
      let (t, run, h) = rounds-Counts rs in
      let (t', next_run, h') = round-Keeps t (history env rs) r h in
      (t', rw (rounds, run) next_run, h')

-- The response to a message with a number.
abbrev pub numbered : List ℕ → Parsed → ℕ → List ℕ
numbered buf p n =
    response
      (take (if ltb max_payload p.payload_len then max_payload else p.payload_len)
        (drop p.payload buf))
      n

-- What the server answers after any datagrams, each received while there is memory: a further one for its
-- port that parses, is not a reset, and whose response fits a packet is answered by one packet to
-- its sender, and the payload of the packet is the message and the number of the messages that
-- this sender has sent since its last reset, this one included, modulo 2 ^ 32.
pub rounds-answer :
    (env : Env) (rs : List (Option (List ℕ))) (buf : List ℕ) (p : Parsed)
    → env.calloc_ok ≡ true
    → 0 < length buf
    → parse_ipv4_udp env.host buf (length buf) ≡ done p
    → p.dst_port ≡ env.listen_port
    → is_reset buf p ≡ false
    → length (numbered buf p (suc (tally (key_of p) (history env rs)) % 2 ^ 32)) ≤ max_payload
    → length env.out ≡ 65536
    → p.src < 2 ^ 32
    → p.dst < 2 ^ 32
    → p.src_port < 2 ^ 16
    → env.listen_port < 2 ^ 16
    → (s : Send) × (t' : Table) × (round env (rounds env rs (some empty_table)) (some buf)
        ≡ (some t', some s))
      × (s.dst ≡ p.src)
      × (take (s.len - 28) (drop 28 s.buf)
          ≡ numbered buf p (suc (tally (key_of p) (history env rs)) % 2 ^ 32))
rounds-answer env rs buf p memory bytes parsed port plain small room hs hd hp hl =
    let (t, run, h) = rounds-Counts env memory rs in
    let number : cnt t p ≡ suc (tally (key_of p) (history env rs)) % 2 ^ 32 =
      ap after (h.counted (key_of p)) ∙ after-counter_of (tally (key_of p) (history env rs)) in
    let (t', packet, ran, u, back, payload) =
      round_answers env t h.valid buf p memory bytes parsed port plain (rw number small) room hs hd
        hp hl in
    let s : Send = record { buf = packet; len = 28 + length (text t buf p); dst = p.src } in
    let len : 28 + length (text t buf p) - 28 ≡ length (text t buf p) = omega arith in
    (
      s,
      t',
      rw run ran,
      refl,
      ap (λ n. take n (drop 28 packet)) len ∙ payload ∙ ap (numbered buf p) number,
    )
