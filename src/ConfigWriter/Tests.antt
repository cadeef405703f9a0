-- ===== src/ConfigWriter/Tests.antt =====
-- A run of the writer, and a witness. `digits` reads a number without sign.
use emb_linux.Prelude.{
  ℕ, suc, ◌+◌, ◌*◌, ◌-◌, ◌≡◌, refl, List, [], ◌∷◌, ◌++◌, some, inl, length, false, ℤ, pos,
}
use emb_linux.TerminalInput.{Stdin, newline, get_user_input}
use emb_linux.TerminalInput.Lines.{keys}
use emb_linux.ConfigWriter.{Config, load, command, session}
use emb_linux.ConfigWriter.Validity.{IsValid, session-IsValid}

abbrev digits : ℕ → List ℕ → ℕ
digits n [] = n
digits n (c ∷ cs) = digits (n * 10 + (c - 48)) cs

abbrev read_number : List ℕ → ℤ
read_number cs = pos (digits 0 cs)

-- "rate", 50, "log", 7
abbrev typed : Stdin
typed = record {
  input =
      keys (114 ∷ 97 ∷ 116 ∷ 101 ∷ newline ∷ 53 ∷ 48 ∷ newline ∷ [])
      ++ keys (108 ∷ 111 ∷ 103 ∷ newline ∷ 55 ∷ newline ∷ []);
  interrupted = false;
}

abbrev zeroed : Config
zeroed = record { baud_rate = pos 0; sampling_rate_hz = pos 0; log_level = pos 0 }

typed-session :
    session read_number 1 15 (load zeroed) typed
    ≡ some (record { baud_rate = pos 9600; sampling_rate_hz = pos 50; log_level = pos 2 })
unfolding session command get_user_input
typed-session = refl

session-IsValid_example :
    (d : Config) × (session read_number 1 (suc (length typed.input)) (load zeroed) typed ≡ some d)
    × IsValid d
session-IsValid_example =
    session-IsValid read_number zeroed typed (inl refl)
      (record { not_interrupted = refl; no_signal = tt })
