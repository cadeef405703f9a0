-- ===== src/TerminalInput/Progress.antt =====
-- What get_user_input takes from the input, without signals and after one.
use emb_linux.Prelude.{
  true-ne_false, ℕ, zero, suc, ◌-◌, ◌≤◌, ◌≡◌, refl, sym, ap, ◌∙◌, List, [], ◌∷◌, Bool, true, false,
  Option, none, some, ◌==◌, if◌then◌else◌, length, arith,
}
use emb_linux.TerminalInput.{
  Key, key, signal, Stdin, newline, Stop, is_full, at_newline, at_end, at_signal, Reading,
  read_line, clear_stdin, c_string, strip_newline, accepted, accept, answer, fgets, get_user_input,
}
use emb_linux.TerminalInput.Lines.{answered}

abbrev pub NoSignal : List Key → Type 0
NoSignal [] = Unit
NoSignal (signal ∷ ks) = ⊥
NoSignal (key c ∷ ks) = NoSignal ks

-- No signal has interrupted a read, and none will.
pub record IsQuiet (io : Stdin) : Type 0 where
  pub not_interrupted : io.interrupted ≡ false
  pub no_signal : NoSignal io.input

abbrev NotSignalled : Stop → Type 0
NotSignalled at_signal = ⊥
NotSignalled _ = Unit

-- A read leaves at most the rest of the input, and no signal ends it.
abbrev Leaves : List Key → Reading → Type 0
Leaves ks r = NoSignal r.rest × (length r.rest ≤ length ks) × NotSignalled r.stop

abbrev Takes : List Key → Reading → Type 0
Takes ks r = Leaves ks r × ((c : ℕ) × (cs : List ℕ) × (r.chars ≡ c ∷ cs))

newline_or {ℓ} :
    (P : Reading → Type ℓ) (b : Bool) (x y : Reading) → P x → P y → P (if b then x else y)
newline_or P true x y p q = p
newline_or P false x y p q = q

read_line-Leaves : (n : ℕ) (ks : List Key) → NoSignal ks → Leaves ks (read_line n ks)
unfolding read_line
read_line-Leaves zero ks h = (h, omega arith, tt)
read_line-Leaves (suc n) [] h = (tt, omega arith, tt)
read_line-Leaves (suc n) (signal ∷ ks) h = absurd h
read_line-Leaves (suc n) (key c ∷ ks) h =
    let (quiet, short, ended) = read_line-Leaves n ks h in
    newline_or (Leaves (key c ∷ ks)) (c == newline) _ _ (h, omega arith, tt)
      (quiet, omega (arith, short), ended)

read_line-Takes :
    (n c : ℕ) (ks : List Key) → NoSignal ks → Takes ks (read_line (suc n) (key c ∷ ks))
unfolding read_line
read_line-Takes n c ks h =
    newline_or (Takes ks) (c == newline) _ _ ((h, omega arith, tt), (c, [], refl))
      (read_line-Leaves n ks h, (c, (read_line n ks).chars, refl))

-- A state of the input that is quiet, with at most this much to come.
abbrev pub QuietWithin : ℕ → Stdin → Type 0
QuietWithin n io = IsQuiet io × (length io.input ≤ n)

clear_stdin-QuietWithin :
    (ks : List Key) (b : Bool)
    → b ≡ false
    → NoSignal ks
    → QuietWithin (length ks) (clear_stdin (record { input = ks; interrupted = b }))
unfolding clear_stdin
clear_stdin-QuietWithin [] b e h = (record { not_interrupted = e; no_signal = tt }, omega arith)
clear_stdin-QuietWithin (signal ∷ ks) b e h = absurd h
clear_stdin-QuietWithin (key c ∷ ks) b e h =
    let (quiet, short) = clear_stdin-QuietWithin ks b e h in
    cleared (c == newline) (record { not_interrupted = e; no_signal = h }, omega arith)
      (quiet, omega (arith, short))
  where
    cleared :
        (t : Bool) {x y : Stdin}
        → QuietWithin (suc (length ks)) x
        → QuietWithin (suc (length ks)) y
        → QuietWithin (suc (length ks)) (if t then x else y)
    cleared true p q = p
    cleared false p q = q

accepted-QuietWithin :
    (cs : List ℕ) (o : Option (List ℕ)) (io : Stdin)
    → IsQuiet io
    → QuietWithin (length io.input) ((accepted cs o io).1)
accepted-QuietWithin cs none io h =
    clear_stdin-QuietWithin io.input io.interrupted h.not_interrupted h.no_signal
accepted-QuietWithin cs (some text) io h = (h, omega arith)

answer-answered :
    (retry : Stdin → Option (Option (List ℕ) × Stdin)) (stop : Stop) (c : ℕ) (cs : List ℕ)
    (io : Stdin)
    → NotSignalled stop
    → answer retry stop (c ∷ cs) io ≡ answered (accept (c ∷ cs) io)
unfolding answer
answer-answered retry is_full c cs io h = refl
answer-answered retry at_newline c cs io h = refl
answer-answered retry at_end c cs io h = refl
answer-answered retry at_signal c cs io h = absurd h

-- With room for a character, the first read is one of that much.
room : (size : ℕ) → 2 ≤ size → suc (suc (size - 2)) ≡ size
room size h = omega arith

abbrev reading : ℕ → ℕ → Bool → List Key → ℕ → Option (Option (List ℕ) × Stdin)
reading rounds size b ks n =
    answer (get_user_input rounds size) (fgets n ks).stop (fgets n ks).chars
      (record { input = (fgets n ks).rest; interrupted = b })

-- At the end of the input the result is -1.
pub get_user_input-end :
    (rounds size : ℕ) (b : Bool)
    → 2 ≤ size
    → b ≡ false
    → get_user_input (suc rounds) size (record { input = []; interrupted = b })
      ≡ some (none, record { input = []; interrupted = b })
unfolding get_user_input fgets answer read_line
get_user_input-end rounds size true h e = absurd (true-ne_false e)
get_user_input-end rounds size false h e = sym (ap (reading rounds size false []) (room size h))

-- Before it the result is a text.
pub get_user_input-text :
    (rounds size c : ℕ) (ks : List Key) (b : Bool)
    → 2 ≤ size
    → b ≡ false
    → NoSignal ks
    → (text : List ℕ) × (io : Stdin) × (get_user_input
          (suc rounds)
          size
          (record { input = key c ∷ ks; interrupted = b })
        ≡ some (some text, io))
      × QuietWithin (length ks) io
unfolding get_user_input fgets accept
get_user_input-text rounds size c ks b big e h =
    let r = read_line (suc (size - 2)) (key c ∷ ks) in
    let ((quiet, short, ended), (d, ds, taken)) = read_line-Takes (size - 2) c ks h in
    let after : Stdin = record { input = r.rest; interrupted = b } in
    let (still, fewer) =
      accepted-QuietWithin (c_string (d ∷ ds)) (strip_newline (c_string (d ∷ ds))) after
        (record { not_interrupted = e; no_signal = quiet }) in
    (
      (accept (d ∷ ds) after).0,
      (accept (d ∷ ds) after).1,
      sym (ap (reading rounds size b (key c ∷ ks)) (room size big))
          ∙ ap (λ cs. answer (get_user_input rounds size) r.stop cs after) taken
          ∙ answer-answered (get_user_input rounds size) r.stop d ds after ended,
      (still, omega (arith, fewer, short)),
    )

-- A result, with what is left of the input; a text takes something from it.
abbrev pub Progress : ℕ → Option (List ℕ) × Stdin → Type 0
Progress n (none, io) = QuietWithin n io
Progress n (some text, io) = QuietWithin n io × (suc (length io.input) ≤ n)

-- Without signals, the first read decides.
pub get_user_input-Progress :
    (rounds size : ℕ) (io : Stdin)
    → 2 ≤ size
    → IsQuiet io
    → (o : Option (List ℕ) × Stdin) × (get_user_input (suc rounds) size io ≡ some o)
      × Progress (length io.input) o
get_user_input-Progress rounds size io big h =
    by_input io.input io.interrupted h.not_interrupted h.no_signal
  where
    by_input :
        (ks : List Key) (b : Bool)
        → b ≡ false
        → NoSignal ks
        → (o : Option (List ℕ) × Stdin) × (get_user_input
              (suc rounds)
              size
              (record { input = ks; interrupted = b })
            ≡ some o)
          × Progress (length ks) o
    by_input [] b e q = (
      (none, record { input = []; interrupted = b }),
      get_user_input-end rounds size b big e,
      (record { not_interrupted = e; no_signal = tt }, omega arith),
    )
    by_input (signal ∷ ks) b e q = absurd q
    by_input (key c ∷ ks) b e q =
        let (text, io', eq, (quiet, short)) = get_user_input-text rounds size c ks b big e q in
        ((some text, io'), eq, ((quiet, omega (arith, short)), omega (arith, short)))
