-- ===== src/Udp.antt =====
-- lesson1/udp_server/main.cpp and lesson1/udp_client/main.cpp: the echo loop and the client's loop.
use gb_cpp_network_programmi.Base.{
  ltb, stoi, ◌==◌, ◌&&◌, ℕ, suc, ◌+◌, Bool, true, false, List, [], ◌∷◌, ◌++◌, Bytes, length, take,
  drop, set, leb, codes, text_eq, c_string, Option, none, some, if◌then◌else◌,
}
use gb_cpp_network_programmi.Base.Fallible.{◌>>=◌}
use gb_cpp_network_programmi.Posix.{RecvReply, got, lost}
pub mod Echo
pub mod Exit
pub mod Session

-- A turn of the server's loop: the buffer, what was sent back, and `exitCommand`; or the text of the
-- buffer was read past its end.
pub data Turn : Type 0 where
  turned : Bytes → Option Bytes → Bool → Turn
  undefined : Turn

-- `strcmp(buffer, "exit") == 0`, after every call of `recvfrom`.
abbrev pub test_exit : Bytes → Option Bytes → Option Bytes → Turn
test_exit buffer echo none = undefined
test_exit buffer echo (some text) = turned buffer echo (text_eq text (codes "exit"))

-- `recvfrom` takes at most `n` bytes of a datagram, and a zero is written behind them.
unfoldable pub store : ℕ → Bytes → Bytes → Bytes
store n buffer datagram =
    let bytes = take n datagram in set (bytes ++ drop (length bytes) buffer) (length bytes) 0

unfoldable pub udp_turn : Bytes → RecvReply → Turn
udp_turn buffer (lost e) = test_exit buffer none (c_string buffer)
udp_turn buffer (got []) = test_exit buffer none (c_string buffer)
udp_turn buffer (got (b ∷ bs)) =
    let buffer' = store 255 buffer (b ∷ bs) in
    test_exit buffer' (some (take 255 (b ∷ bs))) (c_string buffer')

-- The server: in its loop, ended with EXIT_SUCCESS, or undefined; with what it has sent back.
pub data Server : Type 0 where
  running : Bytes → List Bytes → Server
  exit_success : List Bytes → Server
  broken : Server

abbrev pub echoes : Option Bytes → List Bytes
echoes none = []
echoes (some bytes) = bytes ∷ []

abbrev pub after_turn : Turn → List Bytes → (Bytes → List Bytes → Server) → Server
after_turn undefined sent k = broken
after_turn (turned buffer echo true) sent k = exit_success (sent ++ echoes echo)
after_turn (turned buffer echo false) sent k = k buffer (sent ++ echoes echo)

unfoldable pub udp_loop : Bytes → List Bytes → List RecvReply → Server
udp_loop buffer sent [] = running buffer sent
udp_loop buffer sent (reply ∷ replies) =
    after_turn (udp_turn buffer reply) sent (λ buffer' sent'. udp_loop buffer' sent' replies)

-- `main` of the server, of its arguments behind the program's name and over the uninitialised buffer:
-- `none` is EXIT_FAILURE, or `stoi` throws.
unfoldable pub udp_server_main : List Bytes → Bool → Bool → Bytes → List RecvReply → Option Server
udp_server_main [] has_socket can_bind buffer replies = none
udp_server_main (port ∷ []) has_socket can_bind buffer replies = do
  number ← stoi port
  if has_socket && can_bind then some (udp_loop buffer [] replies) else none
udp_server_main (port ∷ more ∷ args) has_socket can_bind buffer replies = none

-- The client. `cin >> buffer`: `none` if the word with its zero does not fit the array.
unfoldable pub type_word : Bytes → Bytes → Option Bytes
type_word buffer word =
    if leb 255 (length word) then none else some (word ++ (0 ∷ drop (length word + 1) buffer))

-- What is received and shown: nothing if `recvfrom` fails; an inner `none` is no end of the text.
unfoldable pub show_reply : Bytes → RecvReply → Bytes × Option (Option Bytes)
show_reply buffer (lost e) = (buffer, none)
show_reply buffer (got []) = (buffer, none)
show_reply buffer (got (b ∷ bs)) =
    let buffer' = store 254 buffer (b ∷ bs) in (buffer', some (c_string buffer'))

-- What the calls of a round of the client's loop answer.
pub record Round : Type 0 where
  pub has_socket : Bool
  pub reply : RecvReply

-- The client waits for the next word or reply; ends with EXIT_SUCCESS or EXIT_FAILURE; throws; or writes
-- outside an array. What it has sent.
pub data Client : Type 0 where
  asking : Bytes → List Bytes → Client
  ended : List Bytes → Client
  exit_failure : Client
  throws : Client
  overflow : Client

-- Of the port that is asked for: whether `server_port` is positive, as the bit pattern of an `int`.
abbrev pub is_port : ℕ → Bool
is_port server_port = ltb 0 server_port && ltb server_port 2147483648

-- What is typed for a port: the words behind it, or the client that never gets one.
pub data Ports : Type 0 where
  port_typed : List Bytes → Ports
  port_waits port_throws port_overflows : Ports

abbrev pub try_port : Option ℕ → List Bytes → Ports → Ports
try_port none typed again = port_throws
try_port (some server_port) typed again = if is_port server_port then port_typed typed else again

-- The do loop over the port, whose word has to fit the array of the answers.
unfoldable pub ask_port : List Bytes → Ports
ask_port [] = port_waits
ask_port (user_answer ∷ typed) =
    let again = ask_port typed in
    if leb 255 (length user_answer) then port_overflows else try_port (stoi user_answer) typed again

-- `user_answer == "N"` compares two addresses: never the same.
abbrev pub wants_end : Bytes → Bool
wants_end user_answer = false

abbrev pub after_port : Ports → Client → (List Bytes → Client) → Client
after_port port_waits waits k = waits
after_port port_throws waits k = throws
after_port port_overflows waits k = overflow
after_port (port_typed typed) waits k = k typed

abbrev pub stored : Option Bytes → List Bytes → (Bytes → List Bytes → Client) → Client
stored none typed k = overflow
stored (some b) typed k = k b typed

-- `cin >> buffer` into the array.
abbrev pub after_word : Bytes → List Bytes → Client → (Bytes → List Bytes → Client) → Client
after_word buffer [] waits k = waits
after_word buffer (word ∷ typed) waits k = stored (type_word buffer word) typed k

-- The end of a round: `cin >> user_answer` fits its array or overflows it.
abbrev pub after_answer : List Bytes → List Bytes → Client → (List Bytes → Client) → Client
after_answer [] sent waits k = waits
after_answer (user_answer ∷ typed) sent waits k =
    let next = k typed in
    if leb 255 (length user_answer)
    then overflow
    else if wants_end user_answer
    then ended sent
    else next

-- A round behind its port: a word is typed, the whole array is sent, and the reply shown. The rest of the
-- loop is `k`.
abbrev pub round :
    Round → Bytes → List Bytes → List Bytes → (Bytes → List Bytes → List Bytes → Client) → Client
round r buffer typed sent k =
    let asked = after_word buffer typed (asking buffer sent) (λ b typed'.
      let buffer' = (show_reply b r.reply).0 in
      after_answer typed' (sent ++ (b ∷ [])) (asking buffer' (sent ++ (b ∷ [])))
        (λ typed''. k buffer' typed'' (sent ++ (b ∷ [])))) in
    if r.has_socket then asked else exit_failure

-- The loop, over the words that are typed, with the datagrams that were sent.
unfoldable pub client_loop : Bytes → List Bytes → List Bytes → List Round → Client
client_loop buffer typed sent [] = asking buffer sent
client_loop buffer typed sent (r ∷ rs) = after_port (ask_port typed) (asking buffer sent) (λ typed'.
    round r buffer typed' sent (λ buffer' typed'' sent'. client_loop buffer' typed'' sent' rs))
