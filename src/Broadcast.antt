-- ===== src/Broadcast.antt =====
-- lesson3/broadcast_server/main.cpp: the loop of `main`, which answers one request a connection, with
-- `send_request` in Request. The buffer keeps what the last turn left in it.
use gb_cpp_network_programmi.Base.{
  stoi, ℕ, zero, suc, ◌+◌, ◌-◌, ◌<◌, Bool, true, false, ◌||◌, List, [], ◌∷◌, ◌++◌, Bytes, length,
  take, drop, set, replicate, leb, ltb, ◌==◌, codes, contains, c_string, Option, none, some,
  if◌then◌else◌,
}
use gb_cpp_network_programmi.Base.Fallible.{◌>>=◌}
use gb_cpp_network_programmi.Posix.{RecvReply, got, lost, SendReply, Sent, done, waiting}
use gb_cpp_network_programmi.Request.{size_mod, send_request}
pub mod GetFile
pub mod Buffer
pub mod Bounds
pub mod Serving

-- `buffer_size` and the size of `fpath`
abbrev pub buffer_size : ℕ
buffer_size = 256

abbrev pub fpath_size : ℕ
fpath_size = 60

-- `main` has served one connection and goes on with this buffer; it is inside a call of `send`; or it
-- has read or written outside an array.
pub data Served : Type 0 where
  served : Bytes → Bytes → List SendReply → Served
  inside : Bytes → Served
  undefined : Served

-- The buffer behind `recv`, and `recv_bytes` as a 64-bit pattern.
unfoldable pub receive : Bytes → RecvReply → Bytes × ℕ
receive buffer (lost e) = (buffer, size_mod - 1)
receive buffer (got []) = (buffer, 0)
receive buffer (got (b ∷ bs)) = let n = length (b ∷ bs) in (set ((b ∷ bs) ++ drop n buffer) n 0, n)

-- `recv_bytes - (i + 10)` as a `size_t`; `i` holds the result of the comparison, 1.
abbrev pub path_len : ℕ → ℕ
path_len recv_bytes = if ltb recv_bytes 11 then recv_bytes + size_mod - 11 else recv_bytes - 11

-- The path that is opened: `strcpy` of the buffer from its tenth byte on, and the zero that is written
-- behind. `none` if either leaves `fpath`, or no zero ends the buffer.
unfoldable pub opened_path : Bytes → ℕ → Option Bytes
opened_path buffer recv_bytes = do
  path ← c_string (drop 9 buffer)
  if leb fpath_size (length path) || leb fpath_size (path_len recv_bytes)
      then none
      else some (take (path_len recv_bytes) path)

-- `fgets`: the first line with its end, of at most so many bytes.
unfoldable pub first_line : ℕ → Bytes → Bytes
first_line zero content = []
first_line (suc n) [] = []
first_line (suc n) (c ∷ content) =
    let rest = first_line n content in if c == 10 then c ∷ [] else c ∷ rest

-- The buffer behind `fgets(buffer, sizeof(buffer) - 1, file)`: at the end of the file nothing is
-- written.
unfoldable pub read_line : Bytes → Bytes → Bytes
read_line buffer [] = buffer
read_line buffer (c ∷ content) =
    let line = first_line 254 (c ∷ content) in line ++ (0 ∷ drop (length line + 1) buffer)

-- Go on behind a call of `send_request`.
abbrev pub after_send : Sent → (Bytes → List SendReply → Served) → Served
after_send (waiting wire) k = inside wire
after_send (done result wire rs) k = k wire rs

-- `send_request(newsockfd, buffer)` behind these bytes, from the C string in the buffer.
abbrev pub send_text :
    Option Bytes → List SendReply → Bytes → (Bytes → List SendReply → Served) → Served
send_text none rs wire k = undefined
send_text (some text) rs wire k = after_send (send_request text rs wire) k

-- The answer to the command: a missing file is answered with the buffer as it is, and the buffer is
-- sent once more.
unfoldable pub answer : Bytes → Option Bytes → List SendReply → Served
answer buffer (some content) rs =
    let buffer' = read_line buffer content in
    send_text (c_string buffer') rs [] (λ wire rs'. served buffer' wire rs')
answer buffer none rs =
    send_text (c_string buffer) rs []
      (λ wire rs'. send_text (c_string buffer) rs' wire (λ wire' rs''. served buffer wire' rs''))

abbrev pub open_file : (Bytes → Option Bytes) → Option Bytes → Bytes → List SendReply → Served
open_file files none buffer rs = undefined
open_file files (some path) buffer rs = answer buffer (files path) rs

-- The buffer holds the command, or is printed.
unfoldable pub execute : (Bytes → Option Bytes) → Option Bytes → Bytes → ℕ → List SendReply → Served
execute files none buffer recv_bytes rs = undefined
execute files (some text) buffer recv_bytes rs =
    if contains (codes "getfile") text
    then open_file files (opened_path buffer recv_bytes) buffer rs
    else served buffer [] rs

-- One turn of the loop for an accepted connection.
unfoldable pub serve : (Bytes → Option Bytes) → Bytes → RecvReply → List SendReply → Served
serve files buffer reply rs =
    let (buffer', recv_bytes) = receive buffer reply in
    execute files (c_string buffer') buffer' recv_bytes rs

-- One connection: what `accept` answers (-1 is thrown out of `main`), what is received, and how `send`
-- goes.
pub record Connection : Type 0 where
  pub is_accepted : Bool
  pub received : RecvReply
  pub sending : List SendReply

-- The loop ends only with an exception, or in a call. No descriptor is closed: they are counted.
pub data Running : Type 0 where
  accepting : Bytes → ℕ → Running
  thrown : ℕ → Running
  sends : Bytes → Running
  broken : Running

abbrev pub next_turn : Served → ℕ → (Bytes → ℕ → Running) → Running
next_turn (served buffer wire rs) opened k = k buffer (suc opened)
next_turn (inside wire) opened k = sends wire
next_turn undefined opened k = broken

unfoldable pub main_loop : (Bytes → Option Bytes) → Bytes → ℕ → List Connection → Running
main_loop files buffer opened [] = accepting buffer opened
main_loop files buffer opened (c ∷ cs) =
    let turn =
      next_turn (serve files buffer c.received c.sending) opened (λ b n. main_loop files b n cs) in
    if c.is_accepted then turn else thrown opened

-- `main` of its arguments behind the program's name: `socket` is tested for 0, so a -1 is found only by
-- `bind`. `none` is EXIT_FAILURE, or `stoi` throws.
unfoldable pub broadcast_main :
    (Bytes → Option Bytes) → List Bytes → Bool → List Connection → Option Running
broadcast_main files [] can_bind cs = none
broadcast_main files (port ∷ []) can_bind cs = do
  number ← stoi port
  if can_bind then some (main_loop files (replicate buffer_size 0) 0 cs) else none
broadcast_main files (port ∷ more ∷ args) can_bind cs = none
