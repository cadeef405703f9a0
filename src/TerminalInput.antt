-- ===== src/TerminalInput.antt =====
-- Lines of input in the exercises of tran-danh-quang/session-09: clear_stdin and get_user_input,
-- which Exercise_2/writer.c and Exercise_3/controller.c both have. Standard input is the list of the
-- characters that are still to come, with the signals that interrupt a read of it.
pub mod Lines
pub mod Progress
mod Tests
use emb_linux.Prelude.{
  ◌-◌, ℕ, zero, suc, List, [], ◌∷◌, Bool, true, false, ◌&&◌, Option, none, some, ◌==◌,
  if◌then◌else◌,
}

pub data Key : Type 0 where
  key : ℕ → Key
  signal : Key

-- Standard input, and whether `errno` is EINTR.
pub record Stdin : Type 0 where
  pub input : List Key
  pub interrupted : Bool

abbrev pub newline : ℕ
newline = 10

-- Why a read stops: the buffer is full, at a newline, at the end of the input or without a buffer, or by a signal.
pub data Stop : Type 0 where
  is_full : Stop
  at_newline : Stop
  at_end : Stop
  at_signal : Stop

pub record Reading : Type 0 where
  pub chars : List ℕ
  pub rest : List Key
  pub stop : Stop

abbrev pub prepend : ℕ → Reading → Reading
prepend c r = record r { chars = c ∷ r.chars }

-- The characters that `fgets` takes when there is room for `n` of them and a null.
pub read_line : ℕ → List Key → Reading
read_line zero ks = record { chars = []; rest = ks; stop = is_full }
read_line (suc n) [] = record { chars = []; rest = []; stop = at_end }
read_line (suc n) (signal ∷ ks) = record { chars = []; rest = ks; stop = at_signal }
read_line (suc n) (key c ∷ ks) =
    let further = read_line n ks in
    if c == newline
    then record { chars = c ∷ []; rest = ks; stop = at_newline }
    else prepend c further

-- `fgets` with a buffer of this size. Without room for the null it reads nothing and its result is null,
-- as at the end of the input.
pub fgets : ℕ → List Key → Reading
unfolding read_line
fgets zero ks = record { chars = []; rest = ks; stop = at_end }
fgets (suc n) ks = read_line n ks

-- `clear_stdin`
pub clear_stdin : Stdin → Stdin
clear_stdin io = clear io.input io.interrupted
  where
    clear : List Key → Bool → Stdin
    clear [] b = record { input = []; interrupted = b }
    clear (signal ∷ ks) b = record { input = ks; interrupted = true }
    clear (key c ∷ ks) b =
        let further = clear ks b in
        if c == newline then record { input = ks; interrupted = b } else further

-- The characters before the first null, as `strlen` counts them.
abbrev pub c_string : List ℕ → List ℕ
c_string [] = []
c_string (c ∷ cs) = let further = c_string cs in if c == 0 then [] else c ∷ further

abbrev pub put_before : ℕ → Option (List ℕ) → Option (List ℕ)
put_before c none = none
put_before c (some cs) = some (c ∷ cs)

-- The string without a newline at its end, if it has one.
abbrev pub strip_newline : List ℕ → Option (List ℕ)
strip_newline [] = none
strip_newline (c ∷ []) = if c == newline then some [] else none
strip_newline (c ∷ d ∷ cs) = put_before c (strip_newline (d ∷ cs))

-- What follows a successful `fgets`, by whether a newline was stripped.
abbrev pub accepted : List ℕ → Option (List ℕ) → Stdin → List ℕ × Stdin
accepted cs none io = (cs, clear_stdin io)
accepted cs (some text) io = (text, io)

pub accept : List ℕ → Stdin → List ℕ × Stdin
accept buffer io = accepted (c_string buffer) (strip_newline (c_string buffer)) io

-- `strcmp(...) == 0`
abbrev pub same_text : List ℕ → List ℕ → Bool
same_text [] [] = true
same_text [] (d ∷ ds) = false
same_text (c ∷ cs) [] = false
same_text (c ∷ cs) (d ∷ ds) = (c == d) && same_text cs ds

-- What the loop of `get_user_input` does after an `fgets`: `some (none, …)` is the result -1.
pub answer :
    (Stdin → Option (Option (List ℕ) × Stdin))
    → Stop
    → List ℕ
    → Stdin
    → Option (Option (List ℕ) × Stdin)
unfolding accept
answer retry is_full cs io = let (text, io') = accept cs io in some (some text, io')
answer retry at_newline cs io = let (text, io') = accept cs io in some (some text, io')
answer retry at_end [] io = elim io.interrupted [ true ↦ retry io | false ↦ some (none, io) ]
answer retry at_end (c ∷ cs) io = let (text, io') = accept (c ∷ cs) io in some (some text, io')
answer retry at_signal cs io = retry (record io { interrupted = true })

-- `get_user_input` with a buffer of this size; `none` when the loop has not ended within these rounds.
unfoldable pub get_user_input : ℕ → ℕ → Stdin → Option (Option (List ℕ) × Stdin)
unfolding fgets answer
get_user_input zero size io = none
get_user_input (suc rounds) size io =
    let r = fgets size io.input in
    answer (get_user_input rounds size) r.stop r.chars
      (record { input = r.rest; interrupted = io.interrupted })
