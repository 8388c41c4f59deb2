-- ===== src/Text.antt =====
-- The text packets of vban_rx_handle_packet in vban_common/vban_functions.h: requests for
-- information, information and commands. A memory is a list of bytes, and a string in it ends
-- before the first 0.
mod Tests
use vban_utils.Prelude.{
  ℕ, zero, suc, ◌+◌, ◌-◌, ◌*◌, ◌^◌, ◌%◌, Bool, true, false, ◌&&◌, ◌||◌, not, Option, none, some,
  List, [], ◌∷◌, ◌++◌, ltb, leb, ◌==◌, if◌then◌else◌, get_or, take, splice, replicate,
}
use vban_utils.Prelude.Words.{sub_size}
use vban_utils.Packet.{header_size, data_max_size}
use vban_utils.Select.{same_bytes}

unfoldable pub strlen : List ℕ → ℕ
strlen [] = 0
strlen (zero ∷ s) = 0
strlen (suc c ∷ s) = suc (strlen s)

-- `strncat`: at most `n` characters behind the end of the string, and a 0.
unfoldable pub strncat : List ℕ → List ℕ → ℕ → List ℕ
strncat s t n = splice s (strlen s) (take (if ltb n (strlen t) then n else strlen t) t ++ 0 ∷ [])

-- What a packet makes the receptor do: answer a request, wake the main loop, or print.
pub data Action : Type 0 where
  udp_send : ℕ → ℕ → ℕ → Action
  signal : Action
  print : List ℕ → Action

-- The fields of `vban_stream_context_t` that the branch reads and writes. `command` is none for a
-- null pointer, and `cmd_present` is the flag CMD_PRESENT.
pub record RxCommand : Type 0 where
  pub command : Option (List ℕ)
  pub cmd_present : Bool
  pub info : List ℕ
  pub iplocal : ℕ

-- `cmd_present_send`.
unfoldable pub cmd_present_send : RxCommand → RxCommand × List Action
cmd_present_send c = (record c { cmd_present = true }, signal ∷ [])

-- `memcmp(streamname, word, n) == 0` for one of two words of `n` letters.
abbrev pub starts_with : List ℕ → List ℕ → List ℕ → ℕ → Bool
starts_with name lower upper n = same_bytes (take n name) lower || same_bytes (take n name) upper

abbrev pub info_text : List ℕ
info_text = 105 ∷ 110 ∷ 102 ∷ 111 ∷ 32 ∷ []

abbrev pub ipother_text : List ℕ
ipother_text = 32 ∷ 105 ∷ 112 ∷ 111 ∷ 116 ∷ 104 ∷ 101 ∷ 114 ∷ 61 ∷ []

-- PROCESS INCOMING INFO, for the memory at `command` and the data of the packet; `address` is the
-- text that `inet_ntoa` gives. The test is that of the code, where `sizeof` is the size of a
-- pointer. The Boolean tells whether the main loop is woken.
unfoldable pub take_info : List ℕ → List ℕ → List ℕ → List ℕ × Bool
take_info command body address =
    let cleared = splice command 0 (replicate (strlen command) 0) in
    let named = strncat cleared info_text 5 in
    let filled = splice named 5 (take (strlen body) body) in
    if ltb 25 (sub_size 8 (strlen filled))
    then (strncat (strncat filled ipother_text 9) address (strlen address), true)
    else (filled, false)

unfoldable pub wake : RxCommand → List ℕ × Bool → RxCommand × List Action
wake c (command, woken) =
    let d = record c { command = some command } in if woken then cmd_present_send d else (d, [])

unfoldable pub incoming_info :
    RxCommand → Option (List ℕ) → List ℕ → List ℕ → RxCommand × List Action
incoming_info c none body address = (c, [])
incoming_info c (some command) body address = wake c (take_info command body address)

unfoldable pub incoming_command : RxCommand → Option (List ℕ) → List ℕ → RxCommand × List Action
incoming_command c none body = (c, [])
incoming_command c (some command) body =
    cmd_present_send (record c { command = some (splice command 0 (take (strlen body) body)) })

-- The whole branch for a packet of `packetlen` bytes, at least a header. The code also clears the
-- data of the packet, which is not used again.
unfoldable pub handle_text :
    (ℕ → List ℕ) → RxCommand → List ℕ → List ℕ → ℕ → ℕ → ℕ → RxCommand × List Action
handle_text inet_ntoa c streamname body packetlen ip_in port_in =
    if starts_with streamname (105 ∷ 110 ∷ 102 ∷ 111 ∷ []) (73 ∷ 78 ∷ 70 ∷ 79 ∷ []) 4
    then if leb packetlen (header_size + 5) && not (ip_in == c.iplocal)
      then (c, udp_send port_in ip_in (header_size + strlen c.info) ∷ [])
      else if ltb (header_size + 5) packetlen
      then incoming_info c c.command body (inet_ntoa ip_in)
      else (c, [])
    else if starts_with streamname (99 ∷ 111 ∷ 109 ∷ 109 ∷ 97 ∷ 110 ∷ 100 ∷ [])
        (67 ∷ 79 ∷ 77 ∷ 77 ∷ 65 ∷ 78 ∷ 68 ∷ []) 7
    then incoming_command c c.command body
    else if starts_with streamname (109 ∷ 101 ∷ 115 ∷ 115 ∷ 97 ∷ 103 ∷ 101 ∷ [])
        (77 ∷ 69 ∷ 83 ∷ 83 ∷ 65 ∷ 71 ∷ 69 ∷ []) 7
    then (c, print (take (strlen body) body) ∷ [])
    else (c, [])
