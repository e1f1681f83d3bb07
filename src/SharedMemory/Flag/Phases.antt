-- ===== src/SharedMemory/Flag/Phases.antt =====
-- How far the exchange through the shared text is, in every interleaving.
use eltex_systems.Base.{
  ℕ, zero, suc, ◌+◌, ◌-◌, ◌<◌, ◌≡◌, refl, ap, ◌∙◌, List, [], ◌∷◌, arith, ◌==◌, Bool-cases, inl, inr,
  ==_iff, sym,
}
use eltex_systems.Base.Text.{c_string}
use eltex_systems.SharedMemory.Flag.{
  text_size, Server, Client, resetting, copying, ending, raising, reporting, spinning, reading,
  left, Line, sent, received, World, hi, hello, source_byte, store, bytes_from, printed,
}

-- The first `n` bytes are those that `strncpy` writes.
abbrev pub IsCopied : List ℕ → ℕ → (ℕ → ℕ) → Type 0
IsCopied source n text = (i : ℕ) → i < n → text i ≡ source_byte source i

-- A server that has not set the flag, with its text copied as far as it is.
pub data IsWriting (text : ℕ → ℕ) : Server → Type 0 where
  at_reset : IsWriting text resetting
  at_byte : (i : ℕ) → i < text_size → IsCopied hi i text → IsWriting text (copying i)
  at_end : IsCopied hi text_size text → IsWriting text ending
  at_flag : IsCopied hi text_size text → IsWriting text raising

-- A client between the flag 1 and the flag 2, with the text and what it has printed.
pub data IsAnswering (text : ℕ → ℕ) : List Line → Client → Type 0 where
  in_loop : IsCopied hi text_size text → IsAnswering text [] spinning
  behind_loop : IsCopied hi text_size text → IsAnswering text [] reading
  in_copy :
      (i : ℕ)
      → i < text_size
      → IsCopied hello i text
      → IsAnswering text (received hi ∷ []) (copying i)
  behind_copy : IsCopied hello text_size text → IsAnswering text (received hi ∷ []) ending
  with_answer : IsCopied hello text_size text → IsAnswering text (received hi ∷ []) raising

-- A server behind the flag 1, with what it has printed; what it prints as sent may be any bytes.
pub data IsWaiting : List Line → Server → Type 0 where
  not_printed : IsWaiting [] reporting
  in_wait : (x : List ℕ) → IsWaiting (sent x ∷ []) spinning

pub data IsListening : List Line → Server → Type 0 where
  still : {lines : List Line} {s : Server} → IsWaiting lines s → IsListening lines s
  behind_wait : (x : List ℕ) → IsListening (sent x ∷ []) reading
  all_printed : (x : List ℕ) → IsListening (sent x ∷ received hello ∷ []) left

-- A client behind the flag 2.
pub data HasAnswered : List Line → Client → Type 0 where
  to_print : HasAnswered (received hi ∷ []) reporting
  at_last : HasAnswered (received hi ∷ sent hello ∷ []) left

pub data Phase : World → Type 0 where
  writing :
      {text : ℕ → ℕ} {s : Server}
      → IsWriting text s
      → Phase (record {
        flag = 0;
        text = text;
        server = s;
        client = spinning;
        server_lines = [];
        client_lines = [];
      })
  answering :
      {text : ℕ → ℕ} {s : Server} {c : Client} {sl cl : List Line}
      → IsWaiting sl s
      → IsAnswering text cl c
      → Phase (record {
        flag = 1;
        text = text;
        server = s;
        client = c;
        server_lines = sl;
        client_lines = cl;
      })
  answered :
      {text : ℕ → ℕ} {s : Server} {c : Client} {sl cl : List Line}
      → IsCopied hello text_size text
      → IsListening sl s
      → HasAnswered cl c
      → Phase (record {
        flag = 2;
        text = text;
        server = s;
        client = c;
        server_lines = sl;
        client_lines = cl;
      })

pub store-IsCopied :
    (source : List ℕ) (i : ℕ) (text : ℕ → ℕ)
    → IsCopied source i text
    → IsCopied source (i + 1) (store text i (source_byte source i))
store-IsCopied source i text h j lt = ground (arith, h j)

bytes_from_eq :
    (n i : ℕ) (a b : ℕ → ℕ)
    → ((j : ℕ) → j < i + n → a j ≡ b j)
    → bytes_from n i a ≡ bytes_from n i b
unfolding bytes_from
bytes_from_eq zero i a b h = refl
bytes_from_eq (suc n) i a b h =
    rw (h i (omega arith), bytes_from_eq n (i + 1) a b (λ j lt. h j (omega arith))) refl

-- A whole copy is printed as the text that was copied.
pub printed-hi : (text : ℕ → ℕ) → IsCopied hi text_size text → printed text ≡ hi
unfolding printed
printed-hi text h =
    let same = bytes_from_eq text_size 0 text (source_byte hi) (λ j lt. h j (omega arith)) in
    ap c_string same ∙ (unfold c_string bytes_from in refl)

pub printed-hello : (text : ℕ → ℕ) → IsCopied hello text_size text → printed text ≡ hello
unfolding printed
printed-hello text h =
    let same = bytes_from_eq text_size 0 text (source_byte hello) (λ j lt. h j (omega arith)) in
    ap c_string same ∙ (unfold c_string bytes_from in refl)

-- The NUL at the end changes nothing.
pub ended-IsCopied :
    (source : List ℕ) (text : ℕ → ℕ)
    → source_byte source (text_size - 1) ≡ 0
    → IsCopied source text_size text
    → IsCopied source text_size (store text (text_size - 1) 0)
ended-IsCopied source text e h i lt = elim (Bool-cases (text_size - 1 == i)) [
  | inl last ↦ simp last (rw (← (==_iff _ _).0 last) (sym e))
  | inr more ↦ simp more (h i lt)
]
