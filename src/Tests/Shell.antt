-- ===== src/Tests/Shell.antt =====
-- Lines of the command interpreter, and the search of a line.
use eltex_systems.Base.{ℕ, ◌≡◌, refl, ◌≢◌, List, [], ◌∷◌, ◌++◌, none, some, arith, take, map}
use eltex_systems.Base.Text.{codes}
use eltex_systems.Pointers.{buffer, check_string, match_from}
use eltex_systems.Pointers.Search.{occurs, search-occurs}
use eltex_systems.Interpreter.{
  parse_from, run_line, shell, Files, other, read_end, write_end, first_child, second_child,
  interpreter,
}
use eltex_systems.Interpreter.Words.{spaced, words, parse-words}
use eltex_systems.Interpreter.Lines.{text_of, up_to_exit, shell-lines}
use eltex_systems.Interpreter.Ends.{IsEnd, pipeline-ends}

abbrev listing : List (ℕ × List ℕ)
listing = (2, codes "ls") ∷ (0, codes "-l") ∷ (1, codes "src") ∷ []

parse-words_example : parse_from 63 (spaced listing 3) ≡ take 63 (words listing)
parse-words_example = parse-words 63 listing 3 (ground arith)

abbrev lines : List (List ℕ)
lines = codes "ls" ∷ [] ∷ codes "ls | wc" ∷ codes "exit" ∷ codes "pwd" ∷ []

shell-lines_example : shell 5 (text_of lines) ≡ some (up_to_exit (map run_line lines))
shell-lines_example = shell-lines 5 lines (omega arith) (ground arith)

abbrev consoles : Files
consoles n = other

pipeline-ends_example :
    (first_child 3 4 consoles 1 ≡ write_end)
    × ((n : ℕ) → n ≢ 1 → IsEnd (first_child 3 4 consoles n))
    × (second_child 3 4 consoles 0 ≡ read_end)
    × ((n : ℕ) → n ≢ 0 → IsEnd (second_child 3 4 consoles n))
    × ((n : ℕ) → IsEnd (interpreter 3 4 consoles n))
pipeline-ends_example =
    pipeline-ends 3 4 consoles (omega arith) (omega arith) (omega arith) (λ n. (λ e. cc, λ e. cc))

search-occurs_example :
    check_string (buffer (codes "hello world\n")) (buffer (codes "lo w" ++ (b'\n' ∷ [])))
    ≡ some (occurs (codes "lo w") (codes "hello world\n"))
search-occurs_example =
    search-occurs (codes "hello world\n") 108 (codes "o w") (omega arith) (omega arith)
      (ground arith)

search_empty_line : check_string (buffer (codes "\n")) (buffer (codes "\n")) ≡ none
unfolding check_string match_from
search_empty_line = refl
