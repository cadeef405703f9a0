-- ===== src/TerminalInput/Tests.antt =====
-- Reads of concrete input, and witnesses.
use emb_linux.Prelude.{ℕ, ◌≡◌, refl, List, [], ◌∷◌, some, false}
use emb_linux.TerminalInput.{key, newline, clear_stdin, get_user_input}

-- A null character at the start of a line hides its newline, and the next line is lost.
null_line :
    get_user_input 1 256
      (record { input = key 0 ∷ key newline ∷ key 111 ∷ key newline ∷ []; interrupted = false })
    ≡ some (some [], record { input = []; interrupted = false })
unfolding get_user_input clear_stdin
null_line = refl

abbrev word : List ℕ
word = 113 ∷ 117 ∷ 105 ∷ 116 ∷ []
