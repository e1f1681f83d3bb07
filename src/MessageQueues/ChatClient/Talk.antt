-- ===== src/MessageQueues/ChatClient/Talk.antt =====
-- A client of the chat and the server together: what a client that joined sees of the lines that
-- another one types.
use eltex_systems.Base.{
  ℕ, ◌≤◌, ◌≡◌, refl, sym, ap, ◌∙◌, true, List, [], ◌∷◌, ◌++◌, none, some, arith, if◌then◌else◌,
  length, take_all, map, All, Bool-cases, inl, inr, append_assoc, append-nil, subst,
}
use eltex_systems.Base.Text.{codes, same_bytes}
use eltex_systems.MessageQueues.ChatServer.{ChatMsg, Server, Effect, handle_message, receive}
use eltex_systems.MessageQueues.ChatServer.Deliveries.{deliver, deliver-append, held, to_one}
use eltex_systems.MessageQueues.ChatClient.{
  Did, sent, Typed, chat, text_msg, shown, receiver_thread,
}

-- The messages that reach the queue of the server.
abbrev pub arriving : List Did → List ChatMsg
arriving [] = []
arriving (sent true msg ∷ ds) = msg ∷ arriving ds
arriving (d ∷ ds) = arriving ds

-- The rounds of the server for some messages.
unfoldable pub serve : List ChatMsg → Server → Server × List Effect
serve [] s = (s, [])
serve (m ∷ ms) s =
    let r = receive none (some m) s in let rest = serve ms r.0 in (rest.0, r.1 ++ rest.1)

-- The lines in front of `/quit` whose message is sent.
abbrev pub lines_sent : List Typed → List (List ℕ)
lines_sent [] = []
lines_sent (t ∷ ts) =
    if same_bytes t.line (codes "/quit")
    then []
    else if t.send_ok
    then t.line ∷ lines_sent ts
    else lines_sent ts

abbrev pub said_by : List ℕ → List ℕ → List ℕ
said_by nickname line = nickname ++ (codes ": " ++ (line ++ codes "\n"))

-- Two sequences in one: each keeps its order.
pub data Shuffle {A : Type 0} : List A → List A → List A → Type 0 where
  end : Shuffle [] [] []
  left : {xs ys zs : List A} (x : A) → Shuffle xs ys zs → Shuffle (x ∷ xs) ys (x ∷ zs)
  right : {xs ys zs : List A} (y : A) → Shuffle xs ys zs → Shuffle xs (y ∷ ys) (y ∷ zs)

Shuffle-map :
    {A B : Type 0} (f : A → B) {xs ys zs : List A}
    → Shuffle xs ys zs
    → Shuffle (map f xs) (map f ys) (map f zs)
Shuffle-map f end = end
Shuffle-map f (left x h) = left (f x) (Shuffle-map f h)
Shuffle-map f (right y h) = right (f y) (Shuffle-map f h)

Shuffle-All :
    {A : Type 0} (P : A → Type 0) {xs ys zs : List A}
    → Shuffle xs ys zs
    → All P xs
    → All P ys
    → All P zs
Shuffle-All P end p q = tt
Shuffle-All P (left x h) p q = (p.0, Shuffle-All P h p.1 q)
Shuffle-All P (right y h) p q = (q.0, Shuffle-All P h p q.1)

-- A message with a text of a client.
abbrev pub IsText : ChatMsg → Type 0
IsText m = m.type ≡ b'M'

receive_text : (m : ChatMsg) (s : Server) → IsText m → receive none (some m) s ≡ handle_message m s
unfolding receive
receive_text m s h = simp (receive, h)

serve-deliver :
    (q : ℕ) (ms : List ChatMsg) (s : Server) (acc : List ChatMsg)
    → held q s.clients ≡ 1
    → All IsText ms
    → deliver q acc (serve ms s).1 ≡ acc ++ ms
unfolding serve deliver
serve-deliver q [] s acc h texts = sym (append-nil acc)
serve-deliver q (m ∷ ms) s acc h texts =
    let r = handle_message m s in
    let same : receive none (some m) s ≡ r = receive_text m s texts.0 in
    let kept : r.0.clients ≡ s.clients = unfold handle_message in refl in
    let one : deliver q acc r.1 ≡ acc ++ (m ∷ []) =
      unfold handle_message in to_one q acc m s.clients h in
    rw (serve, same)
      (deliver-append q acc r.1 (serve ms r.0).1
        ∙ serve-deliver q ms r.0 (deliver q acc r.1) (ap (held q) kept ∙ h) texts.1
        ∙ ap (λ a. a ++ ms) one
        ∙ append_assoc acc (m ∷ []) ms)

arriving-chat :
    (nickname : List ℕ) (ts : List Typed)
    → arriving (chat nickname ts).1 ≡ map (text_msg nickname) (lines_sent ts)
unfolding chat
arriving-chat nickname [] = refl
arriving-chat nickname (t ∷ ts) = elim (Bool-cases (same_bytes t.line (codes "/quit"))) [
  | inl quit ↦ rw quit refl
  | inr text ↦ elim (Bool-cases t.send_ok) [
    | inr failed ↦ rw (text, failed) (arriving-chat nickname ts)
    | inl went ↦
        rw (text, went) (ap (λ ms. text_msg nickname t.line ∷ ms) (arriving-chat nickname ts))
  ]
]

typed-IsText : (nickname : List ℕ) (ls : List (List ℕ)) → All IsText (map (text_msg nickname) ls)
unfolding text_msg
typed-IsText nickname [] = tt
typed-IsText nickname (l ∷ ls) = (refl, typed-IsText nickname ls)

receiver_thread-map : (ms : List ChatMsg) → receiver_thread (map some ms) ≡ map shown ms
unfolding receiver_thread
receiver_thread-map [] = refl
receiver_thread-map (m ∷ ms) = ap (λ r. shown m ∷ r) (receiver_thread-map ms)

shown_text :
    (nickname line : List ℕ)
    → length nickname ≤ 31
    → length line ≤ 255
    → shown (text_msg nickname line) ≡ said_by nickname line
unfolding shown text_msg
shown_text nickname line short fits = rw (take_all 31 nickname short, take_all 255 line fits) refl

shown_texts :
    (nickname : List ℕ) (ts : List Typed)
    → length nickname ≤ 31
    → All (λ t. length t.line ≤ 255) ts
    → map shown (map (text_msg nickname) (lines_sent ts)) ≡ map (said_by nickname) (lines_sent ts)
shown_texts nickname [] short fits = refl
shown_texts nickname (t ∷ ts) short fits =
    ground (arith, shown_texts nickname ts short fits.1, shown_text nickname t.line short fits.0)

-- When the server handles the messages of a client in any interleaving with text messages of other
-- clients, no client joins in between, and each `mq_send` of the server succeeds: what the client
-- types, each line at most 255 bytes and the name at most 31, is shown by the thread of every
-- client that is held once in the table of the server, its own one too. Each line that was sent in
-- front of `/quit` is shown once, behind the name, in the order of the typing, and between them
-- the texts of the others, each once, in their order. The lock of the screen, which the thread
-- waits for while a line is typed, is left out.
pub chat-shown :
    (q : ℕ) (nickname : List ℕ) (ts : List Typed) (others ms : List ChatMsg) (s : Server)
    → held q s.clients ≡ 1
    → length nickname ≤ 31
    → All (λ t. length t.line ≤ 255) ts
    → All IsText others
    → Shuffle (arriving (chat nickname ts).1) others ms
    → Shuffle
        (map (said_by nickname) (lines_sent ts))
        (map shown others)
        (receiver_thread (map some (deliver q [] (serve ms s).1)))
chat-shown q nickname ts others ms s joined short fits texts mixed =
    let mixed' : Shuffle (map (text_msg nickname) (lines_sent ts)) others ms =
      subst (λ xs. Shuffle xs others ms) (arriving-chat nickname ts) mixed in
    let all = Shuffle-All IsText mixed' (typed-IsText nickname (lines_sent ts)) texts in
    rw
      (
        serve-deliver q ms s [] joined all,
        receiver_thread-map ms,
        ← shown_texts nickname ts short fits,
      )
      (Shuffle-map shown mixed')
