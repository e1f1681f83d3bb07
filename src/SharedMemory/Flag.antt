-- ===== src/SharedMemory/Flag.antt =====
-- The demonstrations of shared memory: what `shared_memory/server_sysv.c` and
-- `shared_memory/client_sysv.c`, and `server_posix.c` and `client_posix.c` in the same way, do with
-- the segment that they share. Each access to the memory is a step, in any interleaving; a `printf`
-- reads its text in one step.

pub mod Phases
pub mod Exchange
pub mod Progress
use eltex_systems.Base.{
  ℕ, zero, suc, ◌+◌, ◌-◌, Bool, List, [], ◌∷◌, ◌++◌, ◌==◌, if◌then◌else◌, get_or,
}
use eltex_systems.Base.Text.{codes, c_string}

-- `sizeof (data->text)`.
abbrev pub text_size : ℕ
text_size = 64

-- Where the server is, in order: `data->flag = 0`, byte `i` of `strncpy`, the NUL at the end,
-- `data->flag = 1`, the first `printf`, the loop, the `printf` behind it, and what follows.
pub data Server : Type 0 where
  resetting : Server
  copying : ℕ → Server
  ending raising reporting spinning reading left : Server

-- Where the client is: the loop, the `printf` behind it, byte `i` of `strncpy`, the NUL at the end,
-- `data->flag = 2`, the last `printf`, and what follows.
pub data Client : Type 0 where
  spinning reading : Client
  copying : ℕ → Client
  ending raising reporting left : Client

-- What is printed, without the words around the texts.
pub data Line : Type 0 where
  sent received : List ℕ → Line

-- The segment, with the bytes of its text by index, and both processes with what they printed.
pub record World : Type 0 where
  pub flag : ℕ
  pub text : ℕ → ℕ
  pub server : Server
  pub client : Client
  pub server_lines : List Line
  pub client_lines : List Line

abbrev pub hi : List ℕ
hi = codes "Hi!"

abbrev pub hello : List ℕ
hello = codes "Hello!"

-- Byte `i` of what `strncpy` writes: the text, then zeros.
abbrev pub source_byte : List ℕ → ℕ → ℕ
source_byte source i = get_or source i 0

abbrev pub store : (ℕ → ℕ) → ℕ → ℕ → ℕ → ℕ
store text i b j = if i == j then b else text j

-- The `n` bytes from index `i` on.
unfoldable pub bytes_from : ℕ → ℕ → (ℕ → ℕ) → List ℕ
bytes_from zero i text = []
bytes_from (suc n) i text = text i ∷ bytes_from n (i + 1) text

-- What `%s` prints of the text.
unfoldable pub printed : (ℕ → ℕ) → List ℕ
printed text = c_string (bytes_from text_size 0 text)

-- A step of the server, from `data->flag = 0` to the `printf` of the reply.
unfoldable pub server_step : World → World
server_step w = elim w.server [
  | resetting ↦ record w { flag = 0; server = copying 0 }
  | copying i ↦ record w {
    text = store w.text i (source_byte hi i);
    server = if i + 1 == text_size then ending else copying (i + 1);
  }
  | ending ↦ record w { text = store w.text (text_size - 1) 0; server = raising }
  | raising ↦ record w { flag = 1; server = reporting }
  | reporting ↦ record w {
    server = spinning;
    server_lines = w.server_lines ++ (sent (printed w.text) ∷ []);
  }
  | spinning ↦ if w.flag == 2 then record w { server = reading } else w
  | reading ↦ record w {
    server = left;
    server_lines = w.server_lines ++ (received (printed w.text) ∷ []);
  }
  | left ↦ w
]

-- A step of the client, from its loop to its last `printf`.
unfoldable pub client_step : World → World
client_step w = elim w.client [
  | spinning ↦ if w.flag == 1 then record w { client = reading } else w
  | reading ↦ record w {
    client = copying 0;
    client_lines = w.client_lines ++ (received (printed w.text) ∷ []);
  }
  | copying i ↦ record w {
    text = store w.text i (source_byte hello i);
    client = if i + 1 == text_size then ending else copying (i + 1);
  }
  | ending ↦ record w { text = store w.text (text_size - 1) 0; client = raising }
  | raising ↦ record w { flag = 2; client = reporting }
  | reporting ↦ record w {
    client = left;
    client_lines = w.client_lines ++ (sent (printed w.text) ∷ []);
  }
  | left ↦ w
]

-- A new segment is filled with zeros.
abbrev pub begun : World
begun = record {
  flag = 0;
  text = λ _. 0;
  server = resetting;
  client = spinning;
  server_lines = [];
  client_lines = [];
}

-- What both come to, in any interleaving.
pub data Reach : World → Type 0 where
  start : Reach begun
  server_moves : {w : World} → Reach w → Reach (server_step w)
  client_moves : {w : World} → Reach w → Reach (client_step w)
