-- ===== src/DeviceController.antt =====
-- The loop of tran-danh-quang/session-09/Exercise_3/controller.c: commands from standard input set the
-- status of a device in shared memory. The mutex around the status and the set-up and removal of the
-- memory are left out, and so are messages.
pub mod Commands
mod Tests
use emb_linux.Prelude.{◌>>=◌, ℕ, zero, suc, List, [], ◌∷◌, Option, none, some, if◌then◌else◌}
use emb_linux.TerminalInput.{Stdin, get_user_input, same_text}

abbrev pub buffer_size : ℕ
buffer_size = 256

abbrev pub quit_text : List ℕ
quit_text = 113 ∷ 117 ∷ 105 ∷ 116 ∷ []

abbrev pub on_text : List ℕ
on_text = 111 ∷ 110 ∷ []

abbrev pub off_text : List ℕ
off_text = 111 ∷ 102 ∷ 102 ∷ []

-- The rest of a round, when the status and the text of a command are known; `again` is the next round.
abbrev pub obey : (ℕ → Stdin → Option ℕ) → ℕ → Option (List ℕ) × Stdin → Option ℕ
obey again status (none, io) = some status
obey again status (some cmd, io) =
    if same_text cmd quit_text
    then some status
    else if same_text cmd on_text
    then again 1 io
    else if same_text cmd off_text
    then again 0 io
    else again status io

-- The loop, for at most this many rounds; its result is the status in the end.
pub control : (rounds : ℕ) → ℕ → ℕ → Stdin → Option ℕ
control rounds zero status io = none
control rounds (suc n) status io =
    get_user_input rounds buffer_size io >>= obey (control rounds n) status

-- `main`: the device is off at first.
abbrev pub start : (rounds : ℕ) → ℕ → Stdin → Option ℕ
start rounds n io = control rounds n 0 io
