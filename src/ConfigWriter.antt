-- ===== src/ConfigWriter.antt =====
-- The program tran-danh-quang/session-09/Exercise_2/writer.c: it edits the configuration of a device in
-- shared memory by commands from standard input. `atoi` of the C library is a parameter; the calls
-- that map, write back and unmap the memory do not change it, and messages are left out.
pub mod Validity
mod Tests
use emb_linux.Prelude.{
  ◌>>=◌, ℕ, zero, suc, List, [], ◌∷◌, Bool, true, false, ◌&&◌, ◌||◌, Option, none, some, ◌==◌, leb,
  if◌then◌else◌, ℤ, pos, negsuc,
}
use emb_linux.TerminalInput.{Stdin, get_user_input, same_text}

pub record Config : Type 0 where
  pub baud_rate : ℤ
  pub sampling_rate_hz : ℤ
  pub log_level : ℤ

abbrev pub buffer_size : ℕ
buffer_size = 256

abbrev pub equals : ℕ → ℤ → Bool
equals n (pos m) = m == n
equals n (negsuc m) = false

abbrev pub between : ℕ → ℕ → ℤ → Bool
between a b (pos m) = leb a m && leb m b
between a b (negsuc m) = false

abbrev pub valid_baud : ℤ → Bool
valid_baud v = equals 9600 v || equals 115200 v || equals 460800 v

-- The defaults, when the memory has not been initialised.
abbrev pub load : Config → Config
load c =
    if equals 0 c.baud_rate
    then record { baud_rate = pos 9600; sampling_rate_hz = pos 100; log_level = pos 2 }
    else c

-- What a round of the loop does: leave it, or go on.
pub data Round : Type 0 where
  leaves : (config : Config) → Round
  asks_again : (config : Config) (io : Stdin) → Round

module _ (atoi : List ℕ → ℤ) (rounds : ℕ) where
  abbrev pub store_if :
      (ℤ → Bool) → (ℤ → Config → Config) → Config → Option (List ℕ) × Stdin → Option Round
  store_if valid store c (none, io) = some (leaves c)
  store_if valid store c (some text, io) =
      some (asks_again (if valid (atoi text) then store (atoi text) c else c) io)

  -- The value for a field is read, tested and stored.
  pub ask : (ℤ → Bool) → (ℤ → Config → Config) → Config → Stdin → Option Round
  ask valid store c io = get_user_input rounds buffer_size io >>= store_if valid store c

  abbrev pub choose_field : Config → Option (List ℕ) × Stdin → Option Round
  choose_field c (none, io) = some (leaves c)
  choose_field c (some text, io) =
      if same_text text (113 ∷ 117 ∷ 105 ∷ 116 ∷ [])
      then some (leaves c)
      else if same_text text (98 ∷ 97 ∷ 117 ∷ 100 ∷ [])
      then ask valid_baud (λ v c. record c { baud_rate = v }) c io
      else if same_text text (114 ∷ 97 ∷ 116 ∷ 101 ∷ [])
      then ask (between 1 1000) (λ v c. record c { sampling_rate_hz = v }) c io
      else if same_text text (108 ∷ 111 ∷ 103 ∷ [])
      then ask (between 0 3) (λ v c. record c { log_level = v }) c io
      else some (asks_again c io)

  -- The body of the loop.
  pub command : Config → Stdin → Option Round
  unfolding ask
  command c io = get_user_input rounds buffer_size io >>= choose_field c

  abbrev pub after_round : (Config → Stdin → Option Config) → Round → Option Config
  after_round again (leaves c) = some c
  after_round again (asks_again c io) = again c io

  -- The loop, for at most this many rounds.
  pub session : ℕ → Config → Stdin → Option Config
  session zero c io = none
  session (suc n) c io = command c io >>= after_round (session n)
