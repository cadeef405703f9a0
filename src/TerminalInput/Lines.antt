-- ===== src/TerminalInput/Lines.antt =====
-- get_user_input on input that starts with a line of plain text.
use emb_linux.Prelude.{
  ℕ, zero, suc, ◌-◌, ◌≤◌, ◌<◌, ◌≡◌, ◌≢◌, refl, sym, ap, ◌∙◌, List, [], ◌∷◌, ◌++◌, Bool, true, false,
  Option, none, some, ◌==◌, if◌then◌else◌, ==-false, length, take, not, eq→==, true-ne_false,
  and-both, ◌&&◌, drop, arith, append-nil,
}
use native.Mathlib.Decide.{dec_lt}
use emb_linux.TerminalInput.{
  Key, key, Stdin, newline, is_full, at_newline, Reading, prepend, read_line, clear_stdin, c_string,
  strip_newline, put_before, accepted, accept, answer, fgets, get_user_input,
}

abbrev pub keys : List ℕ → List Key
keys [] = []
keys (c ∷ cs) = key c ∷ keys cs

-- A text without newlines and nulls.
abbrev pub IsPlain : List ℕ → Type 0
IsPlain [] = Unit
IsPlain (c ∷ cs) = (c ≢ newline) × (c ≢ 0) × IsPlain cs

abbrev pub is_plain : List ℕ → Bool
is_plain [] = true
is_plain (c ∷ cs) = not (c == newline) && (not (c == 0) && is_plain cs)

not-ne : (a b : ℕ) → not (a == b) ≡ true → a ≢ b
not-ne a b h e = true-ne_false (sym h ∙ ap not (eq→== a b e))

pub is_plain-IsPlain : (cs : List ℕ) → is_plain cs ≡ true → IsPlain cs
is_plain-IsPlain [] h = tt
is_plain-IsPlain (c ∷ cs) h =
    let (a, k) = and-both (not (c == newline)) _ h in
    let (b, l) = and-both (not (c == 0)) (is_plain cs) k in
    (not-ne c newline a, not-ne c 0 b, is_plain-IsPlain cs l)

if_false {ℓ} : {A : Type ℓ} (b : Bool) (x y : A) → b ≡ false → (if b then x else y) ≡ y
if_false true x y h = cc
if_false false x y h = refl

read_line-short :
    (n : ℕ) (cs : List ℕ) (rest : List Key)
    → IsPlain cs
    → length cs < n
    → read_line n (keys cs ++ key newline ∷ rest)
      ≡ record { chars = cs ++ newline ∷ []; rest = rest; stop = at_newline }
unfolding read_line
read_line-short zero cs rest p h = absurd (omega arith)
read_line-short (suc n) [] rest p h = refl
read_line-short (suc n) (c ∷ cs) rest p h =
    if_false (c == newline) _ _ (==-false c newline p.0)
    ∙ ap (prepend c) (read_line-short n cs rest p.2 (omega arith))

read_line-long :
    (n : ℕ) (cs : List ℕ) (rest : List Key)
    → IsPlain cs
    → n ≤ length cs
    → read_line n (keys cs ++ key newline ∷ rest)
      ≡ record { chars = take n cs; rest = keys (drop n cs) ++ key newline ∷ rest; stop = is_full }
unfolding read_line
read_line-long zero cs rest p h = refl
read_line-long (suc n) [] rest p h = absurd (omega arith)
read_line-long (suc n) (c ∷ cs) rest p h =
    if_false (c == newline) _ _ (==-false c newline p.0)
    ∙ ap (prepend c) (read_line-long n cs rest p.2 (omega arith))

c_string-plain : (cs ds : List ℕ) → IsPlain cs → c_string (cs ++ ds) ≡ cs ++ c_string ds
c_string-plain [] ds p = refl
c_string-plain (c ∷ cs) ds p =
    if_false (c == 0) _ _ (==-false c 0 p.1) ∙ ap (λ es. c ∷ es) (c_string-plain cs ds p.2)

strip_newline-line : (cs : List ℕ) → strip_newline (cs ++ newline ∷ []) ≡ some cs
strip_newline-line [] = refl
strip_newline-line (c ∷ []) = refl
strip_newline-line (c ∷ d ∷ cs) = ap (put_before c) (strip_newline-line (d ∷ cs))

strip_newline-plain : (cs : List ℕ) → IsPlain cs → strip_newline cs ≡ none
strip_newline-plain [] p = refl
strip_newline-plain (c ∷ []) p = if_false (c == newline) _ _ (==-false c newline p.0)
strip_newline-plain (c ∷ d ∷ cs) p = ap (put_before c) (strip_newline-plain (d ∷ cs) p.2)

take-IsPlain : (n : ℕ) (cs : List ℕ) → IsPlain cs → IsPlain (take n cs)
take-IsPlain zero cs p = tt
take-IsPlain (suc n) [] p = tt
take-IsPlain (suc n) (c ∷ cs) p = (p.0, p.1, take-IsPlain n cs p.2)

drop-IsPlain : (n : ℕ) (cs : List ℕ) → IsPlain cs → IsPlain (drop n cs)
drop-IsPlain zero cs p = p
drop-IsPlain (suc n) [] p = tt
drop-IsPlain (suc n) (c ∷ cs) p = drop-IsPlain n cs p.2

clear_stdin-line :
    (cs : List ℕ) (rest : List Key) (b : Bool)
    → IsPlain cs
    → clear_stdin (record { input = keys cs ++ key newline ∷ rest; interrupted = b })
      ≡ record { input = rest; interrupted = b }
unfolding clear_stdin
clear_stdin-line [] rest b p = refl
clear_stdin-line (c ∷ cs) rest b p =
    if_false (c == newline) _ _ (==-false c newline p.0) ∙ clear_stdin-line cs rest b p.2

accept-short : (cs : List ℕ) (io : Stdin) → IsPlain cs → accept (cs ++ newline ∷ []) io ≡ (cs, io)
unfolding accept
accept-short cs io p =
    ap (λ ds. accepted ds (strip_newline ds) io) (c_string-plain cs (newline ∷ []) p)
    ∙ ap (λ o. accepted (cs ++ newline ∷ []) o io) (strip_newline-line cs)

accept-long : (cs : List ℕ) (io : Stdin) → IsPlain cs → accept cs io ≡ (cs, clear_stdin io)
unfolding accept
accept-long cs io p =
    ap (λ ds. accepted ds (strip_newline ds) io)
      (sym (ap c_string (append-nil cs)) ∙ c_string-plain cs [] p ∙ append-nil cs)
    ∙ ap (λ o. accepted cs o io) (strip_newline-plain cs p)

take_short : (n : ℕ) (cs : List ℕ) → length cs ≤ n → take n cs ≡ cs
take_short zero [] h = refl
take_short zero (c ∷ cs) h = absurd (omega arith)
take_short (suc n) [] h = refl
take_short (suc n) (c ∷ cs) h = ap (λ ds. c ∷ ds) (take_short n cs (omega arith))

abbrev pub answered : List ℕ × Stdin → Option (Option (List ℕ) × Stdin)
answered (text, io) = some (some text, io)

abbrev answer_reading : ℕ → ℕ → Bool → Reading → Option (Option (List ℕ) × Stdin)
answer_reading rounds size b r =
    answer (get_user_input rounds size) r.stop r.chars (record { input = r.rest; interrupted = b })

pub get_user_input-line :
    (rounds size : ℕ) (cs : List ℕ) (rest : List Key) (b : Bool)
    → 0 < size
    → IsPlain cs
    → get_user_input
        (suc rounds)
        size
        (record { input = keys cs ++ key newline ∷ rest; interrupted = b })
      ≡ some (some (take (size - 1) cs), record { input = rest; interrupted = b })
unfolding get_user_input fgets answer
get_user_input-line rounds size cs rest b big p = elim (dec_lt (length cs) (size - 1)) [
  | yes h ↦
      sym (ap read_with one_more)
      ∙ ap (answer_reading rounds size b) (read_line-short (size - 1) cs rest p h)
      ∙ ap answered (accept-short cs (record { input = rest; interrupted = b }) p)
      ∙ ap (λ ds. some (some ds, record { input = rest; interrupted = b }))
          (sym (take_short (size - 1) cs (omega arith)))
  | no h ↦
      sym (ap read_with one_more)
      ∙ ap (answer_reading rounds size b) (read_line-long (size - 1) cs rest p (omega arith))
      ∙ ap answered (
          accept-long (take (size - 1) cs)
            (record { input = keys (drop (size - 1) cs) ++ key newline ∷ rest; interrupted = b })
            (take-IsPlain (size - 1) cs p))
      ∙ ap (λ io. answered (take (size - 1) cs, io))
          (clear_stdin-line (drop (size - 1) cs) rest b (drop-IsPlain (size - 1) cs p))
]
  where
    one_more : suc (size - 1) ≡ size
    one_more = omega arith

    read_with : ℕ → Option (Option (List ℕ) × Stdin)
    read_with n = answer_reading rounds size b (fgets n (keys cs ++ key newline ∷ rest))
