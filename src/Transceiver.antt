-- ===== src/Transceiver.antt =====
-- lesson4/mt_server/main.cpp, class Transceiver: which talks to one client of the file server.
pub mod Buffer
pub mod GetRequest
pub mod SendFile
use gb_cpp_network_programmi.Base.{
  ℕ, zero, suc, ◌+◌, ◌-◌, min, Bool, true, false, not, ◌||◌, List, [], ◌∷◌, ◌++◌, Bytes, length,
  take, drop, set, replicate, ◌==◌, ltb, leb, Option, none, some, if◌then◌else◌,
}
use gb_cpp_network_programmi.Posix.{
  Errno, no_error, eintr, eagain, other_error, SendReply, room, failed, RecvReply, got, lost, Sent,
  done, waiting,
}

unfoldable pub need_to_repeat : Errno → Bool
need_to_repeat eintr = true
need_to_repeat eagain = true
need_to_repeat no_error = false
need_to_repeat other_error = false

-- The loop of `send_buffer`: `pos` is `transmit_bytes_count`, `wire` what the peer has been sent.
unfoldable pub send_loop : Bytes → ℕ → List SendReply → Bytes → Sent
send_loop buffer pos [] wire = if pos == length buffer then done true wire [] else waiting wire
send_loop buffer pos (failed e ∷ rs) wire =
    let again = send_loop buffer pos rs wire in
    if pos == length buffer
    then done true wire (failed e ∷ rs)
    else if need_to_repeat e
    then again
    else done false wire rs
send_loop buffer pos (room n ∷ rs) wire =
    let result = min n (length buffer - pos) in
    let next = send_loop buffer (pos + result) rs (wire ++ take result (drop pos buffer)) in
    if pos == length buffer then done true wire (room n ∷ rs) else next

unfoldable pub send_buffer : Bytes → List SendReply → Bytes → Sent
send_buffer buffer rs wire = send_loop buffer 0 rs wire

-- What `get_request` has done: returned a text, with the replies that it left, thrown its
-- `logic_error`, or used up the script inside `recv`.
pub data Requested : Type 0 where
  request : Bytes → List RecvReply → Requested
  socket_reading_error : Requested
  reading : Requested

abbrev pub max_path : ℕ
max_path = 256

is_line_end : ℕ → Bool
is_line_end sym = sym == 10 || sym == 13

-- `std::find_if` over the fragment: the index of the first line end, or the fragment's length.
unfoldable pub find_line_end : Bytes → ℕ
unfolding is_line_end
find_line_end [] = 0
find_line_end (b ∷ bs) = if is_line_end b then 0 else suc (find_line_end bs)

-- The bytes written from index `pos` on.
abbrev pub splice : Bytes → ℕ → Bytes → Bytes
splice buffer pos bytes = take pos buffer ++ (bytes ++ drop (pos + length bytes) buffer)

-- The last lines of `get_request`: the terminator, and the text before it.
finish : Bytes → ℕ → List RecvReply → Requested
finish buffer recv_bytes rs = request (take recv_bytes (set buffer recv_bytes 0)) rs

-- The loop. `buffer` is the array of `max_path + 1` bytes, whose length stands for `buffer.end()`.
unfoldable pub recv_loop : Bytes → ℕ → List RecvReply → Requested
unfolding finish
recv_loop buffer recv_bytes [] = reading
recv_loop buffer recv_bytes (lost e ∷ rs) =
    let again = recv_loop buffer recv_bytes rs in
    if need_to_repeat e then again else socket_reading_error
recv_loop buffer recv_bytes (got fragment ∷ rs) =
    let result = length fragment in
    let buffer' = splice buffer recv_bytes fragment in
    let ret_iter = recv_bytes + find_line_end fragment in
    let next = recv_loop buffer' (recv_bytes + result) rs in
    if result == 0
    then finish buffer recv_bytes rs
    else if not (ret_iter == length buffer)
    then finish (set buffer' ret_iter 0) ret_iter rs
    else if length buffer - 1 == recv_bytes + result
    then finish buffer' (recv_bytes + result) rs
    else next

-- `buffer` is the uninitialised array.
unfoldable pub get_request : Bytes → List RecvReply → Requested
get_request buffer rs = recv_loop buffer 0 rs

unfoldable pub buffer_size : ℕ
buffer_size = 4096

-- An open `std::ifstream` in binary mode: its content, the read position, `eofbit` and `failbit`.
pub record FileStream : Type 0 where
  pub content : Bytes
  pub position : ℕ
  pub eof : Bool
  pub fail : Bool

-- `read`: a stream that is not good fails and reads nothing; a short read sets both bits.
unfoldable pub read : FileStream → ℕ → Bytes × FileStream
read f n =
    let rest = drop f.position f.content in
    if f.eof || f.fail
    then ([], record f { fail = true })
    else if leb n (length rest)
    then (take n rest, record f { position = f.position + n })
    else (rest, record f { position = length f.content; eof = true; fail = true })

-- Go on after a call of `send_buffer` that returned true.
abbrev pub and_then : Sent → (Bytes → List SendReply → Option Sent) → Option Sent
and_then (done true wire rs) k = k wire rs
and_then (done false wire rs) k = some (done false wire rs)
and_then (waiting wire) k = some (waiting wire)

-- `while (!file_stream.eof())`, for a file larger than the buffer, with fuel: `none` means that it
-- ran out. After each block the buffer is cleared and filled with zeros.
unfoldable pub large_loop : ℕ → Bytes → FileStream → List SendReply → Bytes → Option Sent
large_loop zero buffer f rs wire = none
large_loop (suc fuel) buffer f rs wire =
    let (bytes, f') = read f (length buffer) in
    let next =
      and_then (send_buffer (splice buffer 0 bytes) rs wire)
        (λ wire' rs'. large_loop fuel (replicate buffer_size 0) f' rs' wire') in
    if f.eof then some (done true wire rs) else next

-- `while (file_stream)`, for a file that fits the buffer.
unfoldable pub small_loop : ℕ → Bytes → FileStream → List SendReply → Bytes → Option Sent
small_loop zero buffer f rs wire = none
small_loop (suc fuel) buffer f rs wire =
    let (bytes, f') = read f (length buffer) in
    let next =
      and_then (send_buffer (splice buffer 0 bytes) rs wire)
        (λ wire' rs'. small_loop fuel (splice buffer 0 bytes) f' rs' wire') in
    if f.fail then some (done true wire rs) else next

-- The stream after `seekg(0, std::ios::end)`.
abbrev pub at_end : Bytes → FileStream
at_end content = record { content = content; position = length content; eof = false; fail = false }

-- `none` for the content: the file could not be opened.
unfoldable pub send_file : Option Bytes → List SendReply → Bytes → Option Sent
send_file none rs wire = some (done false wire rs)
send_file (some content) rs wire =
    let fsize = length content in
    let buffer = replicate buffer_size 0 in
    if ltb buffer_size fsize
    then large_loop (fsize + 2) buffer (record (at_end content) { position = 0 }) rs wire
    else small_loop (fsize + 2) buffer (at_end content) rs wire
