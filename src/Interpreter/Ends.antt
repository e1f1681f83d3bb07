-- ===== src/Interpreter/Ends.antt =====
-- Who holds the ends of a pipe.
use eltex_systems.Base.{ℕ, ◌<◌, ◌≡◌, ◌≢◌, arith}
use eltex_systems.Interpreter.{
  File, Files, read_end, write_end, put, pipe, dup2, close, first_child, second_child, interpreter,
}

abbrev pub IsEnd : File → Type 0
IsEnd f = (f ≢ read_end) × (f ≢ write_end)

-- When no descriptor was an end of a pipe before: in the first process of a pipeline the standard
-- output is the write end and nothing else is an end, in the second the standard input is the read
-- end and nothing else is an end, and the interpreter holds neither.
pub pipeline-ends :
    (r w : ℕ) (t : Files)
    → 2 < r
    → 2 < w
    → r ≢ w
    → ((n : ℕ) → IsEnd (t n))
    → (first_child r w t 1 ≡ write_end)
      × ((n : ℕ) → n ≢ 1 → IsEnd (first_child r w t n))
      × (second_child r w t 0 ≡ read_end)
      × ((n : ℕ) → n ≢ 0 → IsEnd (second_child r w t n))
      × ((n : ℕ) → IsEnd (interpreter r w t n))
unfolding first_child second_child interpreter close dup2 pipe put
pipeline-ends r w t r_high w_high apart free = (
  ground arith,
  λ n other. ground (arith, free n),
  ground arith,
  λ n other. ground (arith, free n),
  λ n. ground (arith, free n),
)
