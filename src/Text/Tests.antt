-- ===== src/Text/Tests.antt =====
-- Runs of the text branch.
use vban_utils.Prelude.{◌≡◌, refl, true, false, some, [], ◌∷◌, replicate}
use vban_utils.Select.{same_bytes}
use vban_utils.Text.{
  udp_send, signal, RxCommand, strlen, cmd_present_send, incoming_command, handle_text,
}

abbrev idle : RxCommand
idle = record {
  command = some (replicate 30 0);
  cmd_present = false;
  info = 104 ∷ 105 ∷ 0 ∷ [];
  iplocal = 1;
}

-- A request is answered with the header and the two letters of the information.
answered :
    handle_text (λ ip. []) idle (73 ∷ 78 ∷ 70 ∷ 79 ∷ 0 ∷ []) (47 ∷ 0 ∷ []) 33 9 6980
    ≡ (idle, udp_send 6980 9 30 ∷ [])
unfolding handle_text same_bytes strlen
answered = refl

-- A command is copied to the front of the memory, and the main loop is woken.
obeyed :
    handle_text (λ ip. []) idle (67 ∷ 79 ∷ 77 ∷ 77 ∷ 65 ∷ 78 ∷ 68 ∷ 0 ∷ []) (113 ∷ 0 ∷ []) 30 9 6980
    ≡ (record idle { command = some (113 ∷ replicate 29 0); cmd_present = true }, signal ∷ [])
unfolding handle_text same_bytes incoming_command cmd_present_send strlen
obeyed = refl
