-- ===== src/Request/Delivery.antt =====
-- What `send_request` of lesson3 delivers, and what it makes of a failed `send`.
use gb_cpp_network_programmi.Base.{
  ℕ, suc, ◌+◌, ◌-◌, ◌%◌, ◌≤◌, ◌<◌, ◌≡◌, subst, true, false, List, [], ◌∷◌, ◌++◌, min, append-nil,
  append_assoc, arith, Bytes, length, take, drop, take-join, take-append-drop, length-drop,
  take_all, leb, Bool-cases, inl, inr, if◌then◌else◌,
}
use gb_cpp_network_programmi.Posix.{Errno, SendReply, room, failed, done}
use gb_cpp_network_programmi.Request.{size_mod, size_sub, size_add, request_loop, send_request}

-- A step that fails: the position goes back by one, and nothing is sent.
request_loop_failed :
    (request : Bytes) (k : ℕ) (e : Errno) (rs : List SendReply) (wire : Bytes)
    → suc k < length request
    → length request < size_mod
    → request_loop request (suc k) (failed e ∷ rs) wire ≡ request_loop request k rs wire
unfolding request_loop
request_loop_failed request k e rs wire h w =
    let e : size_add (suc k) (size_mod - 1) ≡ k = omega arith in
    let t : leb (length request) k ≡ false = ground arith in rw (e, t, append-nil wire)

-- A step that the kernel takes in part.
request_loop_room :
    (request : Bytes) (pos n : ℕ) (rs : List SendReply) (wire : Bytes)
    → pos < length request
    → length request < size_mod
    → 0 < n
    → request_loop request pos (room n ∷ rs) wire ≡ (
        if leb (length request) (pos + n)
        then done true (wire ++ drop pos request) rs
        else request_loop request (pos + n) rs (wire ++ take n (drop pos request)))
unfolding request_loop
request_loop_room request pos n rs wire h w m =
    let asked : size_sub (length request) pos ≡ length request - pos = omega arith in
    rw asked (elim (Bool-cases (leb (length request) (pos + n))) [
      | inl last ↦ rw last (
          let all : min n (length request - pos) ≡ length request - pos = ground arith in
          let end : (pos + (length request - pos)) % size_mod ≡ length request = omega arith in
          let tail : take (length request - pos) (drop pos request) ≡ drop pos request =
            take_all (length request - pos) (drop pos request)
              (omega (arith, length-drop pos request)) in
          rw (all, end, tail) (ground arith))
      | inr more ↦ rw more (
          let part : min n (length request - pos) ≡ n = ground arith in
          let end : (pos + n) % size_mod ≡ pos + n = ground arith in
          rw (part, end, more) (ground arith))
    ])

-- Every call of `send` takes at least one byte.
abbrev pub AllRoom : List SendReply → Type 0
AllRoom [] = Unit
AllRoom (room n ∷ rs) = (0 < n) × AllRoom rs
AllRoom (failed e ∷ rs) = ⊥

request_loop_delivers :
    (request wire : Bytes) (pos : ℕ) (rs : List SendReply)
    → pos < length request
    → length request < size_mod
    → length request ≤ pos + length rs
    → AllRoom rs
    → (rest : List SendReply) × (request_loop request pos rs (wire ++ take pos request)
        ≡ done true (wire ++ request) rest)
request_loop_delivers request wire pos [] h w m f = absurd (omega arith)
request_loop_delivers request wire pos (failed e ∷ rs) h w m f = absurd f
request_loop_delivers request wire pos (room n ∷ rs) h w m f =
    rw (request_loop_room request pos n rs (wire ++ take pos request) h w f.0)
      (elim (Bool-cases (leb (length request) (pos + n))) [
        | inl last ↦ rw last (
          rs,
          rw (
            append_assoc wire (take pos request) (drop pos request),
            take-append-drop pos request,
          ),
        )
        | inr more ↦
            rw
              (
                more,
                append_assoc wire (take pos request) (take n (drop pos request)),
                take-join pos n request,
              )
              (request_loop_delivers request wire (pos + n) rs (ground arith) w (omega arith) f.1)
      ])

-- A kernel with room for the whole request takes it at once.
pub send_request_at_once :
    (request wire : Bytes) (n : ℕ) (rs : List SendReply)
    → 0 < length request
    → length request < size_mod
    → length request ≤ n
    → send_request request (room n ∷ rs) wire ≡ done true (wire ++ request) rs
unfolding send_request
send_request_at_once request wire n rs h w m =
    let last : leb (length request) (0 + n) ≡ true = ground arith in
    rw (request_loop_room request 0 n rs wire h w (omega arith), last)

-- With no failed call, `send_request` sends the whole request, in order and once, and returns true
-- after at most as many calls of `send` as the request has bytes.
pub send_request_delivers :
    (request wire : Bytes) (rs : List SendReply)
    → 0 < length request
    → length request < size_mod
    → length request ≤ length rs
    → AllRoom rs
    → (rest : List SendReply) × (send_request request rs wire ≡ done true (wire ++ request) rest)
unfolding send_request
send_request_delivers request wire rs h w m f =
    subst
      (λ w.
        (rest : List SendReply) × (request_loop request 0 rs w ≡ done true (wire ++ request) rest))
      (append-nil wire) (request_loop_delivers request wire 0 rs h w (omega arith) f)

-- If the first `send` fails, for whatever reason, nothing is sent and the result is still true.
send_request_lost :
    (request wire : Bytes) (e : Errno) (rs : List SendReply)
    → length request < size_mod
    → send_request request (failed e ∷ rs) wire ≡ done true wire rs
unfolding send_request request_loop
send_request_lost request wire e rs w =
    let t : leb (length request) (size_mod - 1) ≡ true = ground arith in rw (t, append-nil wire)

-- A failure after `k + 1` bytes sends the last of them a second time: the peer reads one byte more
-- than the request has, and the result is true.
send_request_resends :
    (request wire : Bytes) (k n : ℕ) (e : Errno) (rs : List SendReply)
    → suc k < length request
    → length request < size_mod
    → length request ≤ k + n
    → send_request request (room (suc k) ∷ failed e ∷ room n ∷ rs) wire
      ≡ done true ((wire ++ take (suc k) request) ++ drop k request) rs
unfolding send_request
send_request_resends request wire k n e rs h w m =
    rw
      (request_loop_room request 0 (suc k) (failed e ∷ room n ∷ rs) wire (omega arith) w
        (omega arith))
      (let here : 0 + suc k ≡ suc k = omega arith in
        let more : leb (length request) (suc k) ≡ false = ground arith in
        let last : leb (length request) (k + n) ≡ true = ground arith in
        rw (
          here,
          more,
          request_loop_failed request k e (room n ∷ rs) (wire ++ take (suc k) request) h w,
          request_loop_room request k n rs (wire ++ take (suc k) request) (omega arith) w
              (omega arith),
          last,
        ))
