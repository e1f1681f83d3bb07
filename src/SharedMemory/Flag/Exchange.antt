-- ===== src/SharedMemory/Flag/Exchange.antt =====
-- Every step of the exchange through the shared text leads from a phase to a phase.
use eltex_systems.Base.{
  ℕ, ◌+◌, ◌<◌, ◌≡◌, refl, List, [], ◌∷◌, arith, ◌==◌, if◌then◌else◌, Bool-cases, inl, inr, ==_iff,
  ◌⊎◌,
}
use eltex_systems.SharedMemory.Flag.{
  text_size, copying, ending, left, sent, received, World, hi, hello, server_step, client_step,
  Reach, start, server_moves, client_moves,
}
use eltex_systems.SharedMemory.Flag.Phases.{
  IsCopied, IsWriting, at_reset, at_byte, at_end, at_flag, IsAnswering, in_loop, behind_loop,
  in_copy, behind_copy, with_answer, not_printed, in_wait, still, behind_wait, all_printed,
  to_print, at_last, Phase, writing, answering, answered, store-IsCopied, ended-IsCopied,
  printed-hi, printed-hello,
}

copied-IsWriting :
    (i : ℕ) (text : ℕ → ℕ)
    → i < text_size
    → IsCopied hi (i + 1) text
    → IsWriting text (if i + 1 == text_size then ending else copying (i + 1))
copied-IsWriting i text lt h = elim (Bool-cases (i + 1 == text_size)) [
  | inl last ↦ simp last (at_end (rw ((==_iff _ _).0 last) at (h)))
  | inr more ↦ simp more (at_byte (i + 1) (ground arith) h)
]

copied-IsAnswering :
    (i : ℕ) (text : ℕ → ℕ)
    → i < text_size
    → IsCopied hello (i + 1) text
    → IsAnswering text (received hi ∷ []) (if i + 1 == text_size then ending else copying (i + 1))
copied-IsAnswering i text lt h = elim (Bool-cases (i + 1 == text_size)) [
  | inl last ↦ simp last (behind_copy (rw ((==_iff _ _).0 last) at (h)))
  | inr more ↦ simp more (in_copy (i + 1) (ground arith) h)
]

zero-IsCopied : (source : List ℕ) (text : ℕ → ℕ) → IsCopied source 0 text
zero-IsCopied source text i lt = absurd (omega arith)

server_step-Phase : {w : World} → Phase w → Phase (server_step w)
unfolding server_step
server_step-Phase (writing at_reset) = writing (at_byte 0 (omega arith) (zero-IsCopied hi _))
server_step-Phase (writing (at_byte i lt h)) =
    writing (copied-IsWriting i _ lt (store-IsCopied hi i _ h))
server_step-Phase (writing (at_end h)) = writing (at_flag (ended-IsCopied hi _ refl h))
server_step-Phase (writing (at_flag h)) = answering not_printed (in_loop h)
server_step-Phase (answering not_printed h) = answering (in_wait _) h
server_step-Phase (answering (in_wait x) h) = answering (in_wait x) h
server_step-Phase (answered t (still not_printed) h) = answered t (still (in_wait _)) h
server_step-Phase (answered t (still (in_wait x)) h) = answered t (behind_wait x) h
server_step-Phase (answered {text} t (behind_wait x) h) =
    rw (printed-hello text t) (answered t (all_printed x) h)
server_step-Phase (answered t (all_printed x) h) = answered t (all_printed x) h

client_step-Phase : {w : World} → Phase w → Phase (client_step w)
unfolding client_step
client_step-Phase (writing h) = writing h
client_step-Phase (answering w (in_loop h)) = answering w (behind_loop h)
client_step-Phase (answering {text} w (behind_loop h)) =
    rw (printed-hi text h) (answering w (in_copy 0 (omega arith) (zero-IsCopied hello _)))
client_step-Phase (answering w (in_copy i lt h)) =
    answering w (copied-IsAnswering i _ lt (store-IsCopied hello i _ h))
client_step-Phase (answering w (behind_copy h)) =
    answering w (with_answer (ended-IsCopied hello _ refl h))
client_step-Phase (answering w (with_answer h)) = answered h (still w) to_print
client_step-Phase (answered {text} t l to_print) = rw (printed-hello text t) (answered t l at_last)
client_step-Phase (answered t l at_last) = answered t l at_last

pub Reach-Phase : {w : World} → Reach w → Phase w
Reach-Phase start = writing at_reset
Reach-Phase (server_moves reach) = server_step-Phase (Reach-Phase reach)
Reach-Phase (client_moves reach) = client_step-Phase (Reach-Phase reach)

last_lines :
    {w : World}
    → Phase w
    → w.server ≡ left
    → (x : List ℕ) × (w.server_lines ≡ sent x ∷ received hello ∷ [])
      × ((w.client_lines ≡ received hi ∷ []) ⊎ (w.client_lines ≡ received hi ∷ sent hello ∷ []))
last_lines (writing at_reset) e = absurd cc
last_lines (writing (at_byte i lt h)) e = absurd cc
last_lines (writing (at_end h)) e = absurd cc
last_lines (writing (at_flag h)) e = absurd cc
last_lines (answering not_printed h) e = absurd cc
last_lines (answering (in_wait x) h) e = absurd cc
last_lines (answered t (still not_printed) h) e = absurd cc
last_lines (answered t (still (in_wait x)) h) e = absurd cc
last_lines (answered t (behind_wait x) h) e = absurd cc
last_lines (answered t (all_printed x) to_print) e = (x, refl, inl refl)
last_lines (answered t (all_printed x) at_last) e = (x, refl, inr refl)

-- In any interleaving of the accesses to a new segment: when the server is through, it has printed
-- the whole text of the client as the one that it received, and the client the whole text of the
-- server; of what the server prints as the text that it sent this says nothing.
pub left_exchanged :
    {w : World}
    → Reach w
    → w.server ≡ left
    → (x : List ℕ) × (w.server_lines ≡ sent x ∷ received hello ∷ [])
      × ((w.client_lines ≡ received hi ∷ []) ⊎ (w.client_lines ≡ received hi ∷ sent hello ∷ []))
left_exchanged reach e = last_lines (Reach-Phase reach) e
