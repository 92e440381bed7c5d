-- ===== src/Request.antt =====
-- `send_request` of lesson3/broadcast_server/main.cpp and lesson3/tcp_client/main.cpp, which are
-- the same code. Its byte counter is a `size_t`, which cannot hold the -1 of a failed `send`.
pub mod Delivery
use gb_cpp_network_programmi.Base.{
  ℕ, ◌+◌, ◌-◌, ◌%◌, ◌^◌, min, Bool, true, false, List, [], ◌∷◌, ◌++◌, Bytes, length, take, drop,
  ◌==◌, ltb, leb, if◌then◌else◌,
}
use gb_cpp_network_programmi.Posix.{SendReply, room, failed, Sent, done, waiting}

-- The values of a 64-bit `size_t`.
abbrev pub size_mod : ℕ
size_mod = 2 ^ 64

abbrev pub size_sub : ℕ → ℕ → ℕ
size_sub a b = (a + size_mod - b) % size_mod

abbrev pub size_add : ℕ → ℕ → ℕ
size_add a b = (a + b) % size_mod

-- What `bytes_count = send(…)` stores: -1 becomes the largest `size_t`.
unfoldable pub bytes_count : ℕ → SendReply → ℕ
bytes_count asked (room n) = min n asked
bytes_count asked (failed e) = size_mod - 1

-- The bytes that the call put on the wire.
unfoldable pub accepted : Bytes → ℕ → ℕ → SendReply → Bytes
accepted request pos asked (room n) = take (min n asked) (drop pos request)
accepted request pos asked (failed e) = []

-- The loop, with `pos` for `req_pos`. A negative count goes round again, interrupted or not.
unfoldable pub request_loop : Bytes → ℕ → List SendReply → Bytes → Sent
unfolding bytes_count accepted
request_loop request pos [] wire = waiting wire
request_loop request pos (r ∷ rs) wire =
    let asked = size_sub (length request) pos in
    let count = bytes_count asked r in
    let sent = wire ++ accepted request pos asked r in
    let pos' = size_add pos count in
    let again = request_loop request pos rs wire in
    let next = request_loop request pos' rs sent in
    if ltb count 0
    then again
    else if count == 0
    then done true wire rs
    else if leb (length request) pos'
    then done true sent rs
    else next

unfoldable pub send_request : Bytes → List SendReply → Bytes → Sent
send_request request rs wire = request_loop request 0 rs wire
