-- ===== src/EchoRaw/Start/Ports.antt =====
-- What the start of the echo programs makes of their arguments, and where the client's loop ends.
use eltex_systems.Base.{
  ℕ, ◌+◌, ◌%◌, ◌^◌, ◌<◌, ◌≤◌, ◌≡◌, refl, sym, ap, ◌∙◌, true, false, not, List, [], ◌∷◌, ◌++◌,
  Option, none, some, arith, ◌==◌, if◌then◌else◌, length, Bool-cases, inl, inr, branches,
}
use eltex_systems.Base.Text.{codes, same_bytes, same_bytes_refl}
use eltex_systems.Base.Decimal.{decimal}
use eltex_systems.Base.Strtol.{atoi, atoi-decimal}
use eltex_systems.EchoRaw.ClientTable.{ct_create}
use eltex_systems.EchoRaw.ClientTable.History.{empty_table}
use eltex_systems.EchoRaw.Client.{Client, message, leaving, turn}
use eltex_systems.EchoRaw.Client.Laws.{IsConfigured, turn-sends}
use eltex_systems.EchoRaw.Start.{
  Calls, sockets_open, u16, bad_port, serving, server_start, pick_port, ClientStart, usage,
  bad_server_ip, bad_server_port, bad_local_port, died, started, Machine, with_local_port,
  with_address, with_server, client_start, Typed, after_turn, client_loop,
}

-- The server with a decimal number below 2 ^ 31 as its argument, when its calls succeed: it serves
-- the number modulo 2 ^ 16 from a table without clients, and ends with a message exactly when that
-- is 0.
pub server_start-decimal :
    (k : Calls) (n : ℕ)
    → n < 2 ^ 31
    → sockets_open k ≡ true
    → k.table ≡ true
    → k.buckets ≡ true
    → server_start k (decimal n ∷ [])
      ≡ (if n % 2 ^ 16 == 0 then bad_port else serving (n % 2 ^ 16) empty_table)
unfolding server_start ct_create
server_start-decimal k n small sockets table buckets =
    let read : u16 (atoi (decimal n)) ≡ n % 2 ^ 16 = rw (atoi-decimal n small) (omega arith) in
    simp (server_start, read, sockets, table, buckets)

-- A client that has passed the checks.
abbrev IsStarted : Machine → ClientStart → Type 0
IsStarted m usage = Unit
IsStarted m bad_server_ip = Unit
IsStarted m bad_server_port = Unit
IsStarted m bad_local_port = Unit
IsStarted m died = Unit
IsStarted m (started c) = IsConfigured c × (0 < c.server_port) × (0 < c.local_port)

module _ (k : Calls) (m : Machine) (room : length m.out ≡ 65536)
    (addresses : (text : List ℕ) (ip : ℕ) → m.inet_aton text ≡ some ip → ip < 2 ^ 32) where
  with_local_port-IsStarted :
      (ip server_port local_port : ℕ)
      → ip < 2 ^ 32
      → server_port < 2 ^ 16
      → 0 < server_port
      → local_port < 2 ^ 16
      → IsStarted m (with_local_port k m ip server_port local_port)
  with_local_port-IsStarted ip server_port local_port hip hs ps hl =
      elim (Bool-cases (local_port == 0)) [
        | inl zero_port ↦ rw zero_port tt
        | inr other ↦ rw other (
            branches (IsStarted m) (not (sockets_open k)) tt
              (record { ip = hip; remote = hs; near = hl; room = room }, ps, ground arith))
      ]

  with_server-IsStarted :
      (address port : List ℕ) (local_port : ℕ)
      → local_port < 2 ^ 16
      → IsStarted m (with_server k m address port local_port)
  with_server-IsStarted address port local_port hl = looked_up (m.inet_aton address) refl
    where
      looked_up :
          (o : Option ℕ)
          → m.inet_aton address ≡ o
          → IsStarted m (with_address k m port local_port o)
      looked_up none e = tt
      looked_up (some ip) e = elim (Bool-cases (u16 (atoi port) == 0)) [
        | inl zero_port ↦ rw zero_port tt
        | inr other ↦ rw other (
            with_local_port-IsStarted ip (u16 (atoi port)) local_port (addresses address ip e)
              (omega arith) (ground arith) hl)
      ]

  args-IsStarted : (args : List (List ℕ)) → IsStarted m (client_start k m args)
  unfolding client_start
  args-IsStarted [] = tt
  args-IsStarted (a ∷ []) = tt
  args-IsStarted (a ∷ (b ∷ [])) =
      with_server-IsStarted a b (pick_port m.rand) (unfold pick_port in omega arith)
  args-IsStarted (a ∷ (b ∷ (c ∷ []))) = with_server-IsStarted a b (u16 (atoi c)) (omega arith)
  args-IsStarted (a ∷ (b ∷ (c ∷ (d ∷ args)))) = tt

  -- Whatever the arguments, what `rand` returns and which calls succeed, when `inet_aton` gives
  -- 32-bit addresses: a client that starts has an address and two ports within their types, and
  -- neither port is 0.
  pub client_start-IsConfigured :
      (args : List (List ℕ)) (c : Client)
      → client_start k m args ≡ started c
      → IsConfigured c × (0 < c.server_port) × (0 < c.local_port)
  client_start-IsConfigured args c e = rw e at (args-IsStarted args)

-- The port that the client picks is never 0, so that a client with two arguments, a good address
-- and a good port starts when its sockets do.
pub picked-starts :
    (k : Calls) (m : Machine) (address : List ℕ) (ip n : ℕ)
    → m.inet_aton address ≡ some ip
    → 0 < n
    → n < 2 ^ 16
    → sockets_open k ≡ true
    → (c : Client) × (client_start k m (address ∷ (decimal n ∷ [])) ≡ started c)
      × (c.server_ip ≡ ip)
      × (c.server_port ≡ n)
      × (20000 ≤ c.local_port)
      × (c.local_port < 60000)
unfolding client_start pick_port
picked-starts k m address ip n known least most sockets =
    let port : u16 (atoi (decimal n)) ≡ n = rw (atoi-decimal n (omega arith)) (omega arith) in
    let there : (n == 0) ≡ false = ground arith in
    let near : ((20000 + m.rand % 40000) % 2 ^ 16 == 0) ≡ false = ground arith in
    let c : Client = record {
      host = m.host;
      pid = m.pid;
      server_ip = ip;
      server_port = n;
      local_port = (20000 + m.rand % 40000) % 2 ^ 16;
      out = m.out;
    } in
    let run : with_server k m address (decimal n) (pick_port m.rand) ≡ started c =
      ap (with_address k m (decimal n) (pick_port m.rand)) known
      ∙ rw (port, there, near, sockets) refl in
    (c, run, refl, refl, omega arith, omega arith)

-- What the client does behind a `shutdown` that is sent: nothing, whatever else is typed.
client_loop-ends :
    (c : Client) (ls more : List Typed) (l : Typed)
    → IsConfigured c
    → length l.text < 1400
    → l.send_ok ≡ true
    → message l.text ≡ codes "shutdown"
    → client_loop c (ls ++ (l ∷ more)) ≡ client_loop c (ls ++ (l ∷ []))
unfolding client_loop
client_loop-ends c [] more l set short ok word =
    let (s, run, _, _, _) = turn-sends c l.text set short in
    let bye : same_bytes (message l.text) (codes "shutdown") ≡ true =
      rw word (same_bytes_refl (codes "shutdown")) in
    let left : turn c true l.text ≡ leaving s = rw bye at run in
    let here : turn c l.send_ok l.text ≡ leaving s = ap (λ b. turn c b l.text) ok ∙ left in
    ap (λ r. after_turn c l r (client_loop c more)) here
    ∙ ap (λ r. after_turn c l r (client_loop c [])) (sym here)
client_loop-ends c (t ∷ ls) more l set short ok word =
    let rest = client_loop-ends c ls more l set short ok word in
    ap (after_turn c t (turn c t.send_ok t.text)) rest
