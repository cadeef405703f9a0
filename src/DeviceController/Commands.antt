-- ===== src/DeviceController/Commands.antt =====
-- What the commands of the controller amount to.
use emb_linux.Prelude.{
  ◌>>=◌, ℕ, suc, ◌≡◌, refl, ap, ◌∙◌, List, [], ◌∷◌, ◌++◌, Bool, true, false, Option, some,
  if◌then◌else◌, length, take, arith,
}
use emb_linux.TerminalInput.{Key, key, newline, same_text}
use emb_linux.TerminalInput.Lines.{keys, IsPlain, get_user_input-line}
use emb_linux.TerminalInput.Progress.{get_user_input-end}
use emb_linux.DeviceController.{buffer_size, quit_text, on_text, off_text, obey, control, start}

abbrev pub typed : List (List ℕ) → List Key
typed [] = []
typed (l ∷ ls) = keys l ++ key newline ∷ typed ls

abbrev pub ArePlain : List (List ℕ) → Type 0
ArePlain [] = Unit
ArePlain (l ∷ ls) = IsPlain l × ArePlain ls

-- The status after some lines: the last "on" or "off" before the first "quit" decides. Of a longer line
-- only the first 255 characters count.
abbrev pub final_status : ℕ → List (List ℕ) → ℕ
final_status status [] = status
final_status status (l ∷ ls) =
    if same_text (take 255 l) quit_text
    then status
    else if same_text (take 255 l) on_text
    then final_status 1 ls
    else if same_text (take 255 l) off_text
    then final_status 0 ls
    else final_status status ls

-- The choices of a round and of `final_status` agree.
agree :
    (q o f : Bool) (status a b c : ℕ) (x y z : Option ℕ)
    → x ≡ some a
    → y ≡ some b
    → z ≡ some c
    → (if q then some status else if o then x else if f then y else z)
      ≡ some (if q then status else if o then a else if f then b else c)
agree true o f status a b c x y z hx hy hz = refl
agree false true f status a b c x y z hx hy hz = hx
agree false false true status a b c x y z hx hy hz = hy
agree false false false status a b c x y z hx hy hz = hz

control-final_status :
    (rounds status : ℕ) (ls : List (List ℕ))
    → ArePlain ls
    → control
        (suc rounds)
        (suc (length ls))
        status
        (record { input = typed ls; interrupted = false })
      ≡ some (final_status status ls)
unfolding control
control-final_status rounds status [] p =
    ap (λ o. o >>= obey (control (suc rounds) 0) status)
      (get_user_input-end rounds buffer_size false (omega arith) refl)
control-final_status rounds status (l ∷ ls) p =
    ap (λ o. o >>= obey (control (suc rounds) (suc (length ls))) status)
      (get_user_input-line rounds buffer_size l (typed ls) false (omega arith) p.0)
    ∙ agree (same_text (take 255 l) quit_text) (same_text (take 255 l) on_text)
        (same_text (take 255 l) off_text) status (final_status 1 ls) (final_status 0 ls)
        (final_status status ls) _ _ _ (control-final_status rounds 1 ls p.1)
        (control-final_status rounds 0 ls p.1) (control-final_status rounds status ls p.1)

-- For input of lines without null characters, each ended by a newline, and no signals, the loop ends, and leaves the status that
-- the last "on" or "off" line before the first "quit" asks for; without one, off. A line is cut to its
-- first 255 characters and the rest of it is not taken for a command.
pub start-final_status :
    (ls : List (List ℕ))
    → ArePlain ls
    → start 1 (suc (length ls)) (record { input = typed ls; interrupted = false })
      ≡ some (final_status 0 ls)
start-final_status ls p = control-final_status 0 0 ls p
