-- ===== src/MessageQueues/ChatClient/Release.antt =====
-- What the client of the chat gives back before it ends.
use eltex_systems.Base.{
  ℕ, ◌≡◌, refl, ap, ◌∙◌, Bool, true, false, ◌&&◌, List, [], ◌∷◌, ◌++◌, Option, none, some, arith,
  if◌then◌else◌, Bool-cases, inl, inr,
}
use eltex_systems.Base.Text.{first_line}
use eltex_systems.MessageQueues.ChatClient.{
  Did, created, opened, sent, screen_on, screen_off, thread_on, thread_cancelled, closed_own,
  unlinked, closed_server, Typed, chat, Given, finish, run_screen, run_joined, main,
}

-- What is held: the descriptor of the own queue and its name in the system, the descriptor of the
-- queue of the server, the screen, and the thread.
pub record Held : Type 0 where
  pub own : Bool
  pub name : Bool
  pub server : Bool
  pub screen : Bool
  pub thread : Bool

abbrev pub nothing : Held
nothing = record { own = false; name = false; server = false; screen = false; thread = false }

abbrev pub after : Did → Held → Held
after created h = record h { own = true; name = true }
after opened h = record h { server = true }
after (sent ok msg) h = h
after screen_on h = record h { screen = true }
after screen_off h = record h { screen = false }
after thread_on h = record h { thread = true }
after thread_cancelled h = record h { thread = false }
after closed_own h = record h { own = false }
after unlinked h = record h { name = false }
after closed_server h = record h { server = false }

abbrev pub held_after : List Did → Held → Held
held_after [] h = h
held_after (d ∷ ds) h = held_after ds (after d h)

held_after-append :
    (a b : List Did) (h : Held) → held_after (a ++ b) h ≡ held_after b (held_after a h)
held_after-append [] b h = refl
held_after-append (d ∷ a) b h = held_after-append a b (after d h)

chat_holds :
    (nickname : List ℕ) (ts : List Typed) (h : Held) → held_after (chat nickname ts).1 h ≡ h
unfolding chat
chat_holds nickname [] h = refl
chat_holds nickname (t ∷ ts) h = ground (arith, chat_holds nickname ts h)

abbrev pub is_some : Option (List ℕ) → Bool
is_some none = false
is_some (some x) = true

-- Nothing failed on the way to the loop.
abbrev pub all_ok : Given → Bool
all_ok g = is_some g.name && (g.own_queue && (g.server_queue && (g.join_sent && g.thread)))

abbrev Ends : Given → Option ℕ × List Did → Held → Bool → Type 0
Ends g r h good =
    (c : ℕ) → r.0 ≡ some c → (held_after r.1 h ≡ nothing) × (c ≡ (if good then 0 else 1))

abbrev joined : Held
joined = record { own = true; name = true; server = true; screen = false; thread = false }

abbrev running : Held
running = record { own = true; name = true; server = true; screen = true; thread = true }

run_screen-Ends : (g : Given) (nickname : List ℕ) → Ends g (run_screen g nickname) joined g.thread
unfolding run_screen
run_screen-Ends g nickname c = elim (Bool-cases g.thread) [
  | inr failed ↦ rw failed (λ e. (refl, ground arith))
  | inl started ↦ rw started (elim (Bool-cases (chat nickname g.typed).0) [
    | inl left ↦ rw left (λ e. (
      held_after-append (chat nickname g.typed).1 finish running
          ∙ ap (held_after finish) (chat_holds nickname g.typed running),
      ground arith,
    ))
    | inr waits ↦ rw waits (λ e. absurd (ground arith))
  ])
]

run_joined-Ends :
    (g : Given) (nickname : List ℕ)
    → Ends g (run_joined g nickname) joined (g.join_sent && g.thread)
unfolding run_joined
run_joined-Ends g nickname c = elim (Bool-cases g.join_sent) [
  | inr failed ↦ rw failed (λ e. (refl, ground arith))
  | inl went ↦ simp went (run_screen-Ends g nickname c)
]

run_queues :
    (g : Given) (line : List ℕ)
    → Ends g
        (if g.own_queue
          then (if g.server_queue
              then (
                (run_joined g (first_line line)).0,
                created ∷ opened ∷ (run_joined g (first_line line)).1,
              )
              else (some 1, created ∷ closed_own ∷ unlinked ∷ []))
          else (some 1, []))
        nothing
        (g.own_queue && (g.server_queue && (g.join_sent && g.thread)))
run_queues g line c = elim (Bool-cases g.own_queue) [
  | inr failed ↦ rw failed (λ e. (refl, ground arith))
  | inl own ↦ simp own (elim (Bool-cases g.server_queue) [
    | inr failed ↦ rw failed (λ e. (refl, ground arith))
    | inl server ↦ simp server (run_joined-Ends g (first_line line) c)
  ])
]

-- When the client ends, it has given back all that it took: both descriptors, the name of its
-- queue, the screen and the thread, on each of its error exits too; and it ends with code 0 just
-- when no step of its start failed.
pub main-releases :
    (g : Given) (c : ℕ)
    → (main g).0 ≡ some c
    → (held_after (main g).1 nothing ≡ nothing) × (c ≡ (if all_ok g then 0 else 1))
unfolding main
main-releases g c = by_name g.name refl
  where
    by_name :
        (n : Option (List ℕ))
        → g.name ≡ n
        → (main g).0 ≡ some c
        → (held_after (main g).1 nothing ≡ nothing) × (c ≡ (if all_ok g then 0 else 1))
    by_name none e = rw (main, e) (λ e. (refl, ground arith))
    by_name (some line) e = rw (main, e) (run_queues g line c)
