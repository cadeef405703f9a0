-- ===== src/DeviceController/Tests.antt =====
-- A witness for the controller.
use emb_linux.Prelude.{ℕ, suc, ◌≡◌, refl, List, [], ◌∷◌, some, length, false}
use emb_linux.TerminalInput.Lines.{is_plain-IsPlain}
use emb_linux.DeviceController.{on_text, off_text, quit_text, start}
use emb_linux.DeviceController.Commands.{typed, ArePlain, final_status, start-final_status}

-- "off", "on", "quit", "off"
abbrev lines : List (List ℕ)
lines = off_text ∷ on_text ∷ quit_text ∷ off_text ∷ []

lines_status : final_status 0 lines ≡ 1
lines_status = refl

lines-ArePlain : ArePlain lines
lines-ArePlain = (
  is_plain-IsPlain off_text refl,
  (
    is_plain-IsPlain on_text refl,
    (is_plain-IsPlain quit_text refl, (is_plain-IsPlain off_text refl, tt)),
  ),
)

start-final_status_example :
    start 1 (suc (length lines)) (record { input = typed lines; interrupted = false })
    ≡ some (final_status 0 lines)
start-final_status_example = start-final_status lines lines-ArePlain
