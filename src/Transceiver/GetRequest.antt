-- ===== src/Transceiver/GetRequest.antt =====
-- What `Transceiver::get_request` of lesson4/mt_server/main.cpp makes of the client's bytes.
use gb_cpp_network_programmi.Base.{
  ℕ, zero, suc, ◌+◌, ◌≤◌, ◌≡◌, refl, sym, ap, ◌∙◌, false, List, [], ◌∷◌, arith, Bytes, length, take,
  set, take-append_le, ◌==◌, if◌then◌else◌,
}
use gb_cpp_network_programmi.Posix.{RecvReply, got, lost}
use gb_cpp_network_programmi.Transceiver.{
  need_to_repeat, Requested, request, socket_reading_error, reading, max_path, find_line_end,
  splice, recv_loop, get_request,
}

-- The text of a fragment up to its first line end, or all of it.
abbrev pub first_line : Bytes → Bytes
first_line fragment = take (find_line_end fragment) fragment

-- The first reply that is no interruption decides.
unfoldable pub first_reply : List RecvReply → Requested
first_reply [] = reading
first_reply (lost e ∷ rs) = if need_to_repeat e then first_reply rs else socket_reading_error
first_reply (got fragment ∷ rs) = request (first_line fragment) rs

-- `recv` returns no more than the bytes asked for.
abbrev pub Fits : List RecvReply → Type 0
Fits [] = Unit
Fits (lost e ∷ rs) = Fits rs
Fits (got fragment ∷ rs) = (length fragment ≤ max_path) × Fits rs

find_line_end-le : (bs : Bytes) → find_line_end bs ≤ length bs
unfolding find_line_end
find_line_end-le [] = omega arith
find_line_end-le (b ∷ bs) = ground (arith, find_line_end-le bs)

take-set : (n : ℕ) (xs : Bytes) (v : ℕ) → take n (set xs n v) ≡ take n xs
take-set zero xs v = refl
take-set (suc n) [] v = refl
take-set (suc n) (x ∷ xs) v = ap (◌∷◌ x) (take-set n xs v)

take_nil : (n : ℕ) → take {A = ℕ} n [] ≡ []
take_nil zero = refl
take_nil (suc n) = refl

recv_loop-first_reply :
    (buffer : Bytes) (rs : List RecvReply)
    → length buffer ≡ max_path + 1
    → Fits rs
    → recv_loop buffer 0 rs ≡ first_reply rs
unfolding recv_loop first_reply
recv_loop-first_reply buffer [] h f = refl
recv_loop-first_reply buffer (lost e ∷ rs) h f = ground (arith, recv_loop-first_reply buffer rs h f)
recv_loop-first_reply buffer (got [] ∷ rs) h f =
    ap (λ t. request t rs) (sym (take_nil (find_line_end [])))
recv_loop-first_reply buffer (got (b ∷ bs) ∷ rs) h f =
    let n : ℕ = find_line_end (b ∷ bs) in
    let e : (0 + n == length buffer) ≡ false = ground (arith, find_line_end-le (b ∷ bs)) in
    let z : 0 + n ≡ n = omega arith in
    let t : (suc (length bs) == 0) ≡ false = ground arith in
    let le : n ≤ length (b ∷ bs) = find_line_end-le (b ∷ bs) in
    rw (e, t, z)
      (ap (λ t. request t rs)
        (take-set n (set (splice buffer 0 (b ∷ bs)) n 0) 0
          ∙ take-set n (splice buffer 0 (b ∷ bs)) 0
          ∙ take-append_le n (b ∷ bs) _ le))

-- `get_request` answers with the first fragment that `recv` returns, up to its first line end, or
-- throws at the first error that is neither EINTR nor EAGAIN. It never reads a second fragment: a
-- fragment without a line end is taken for the whole request.
pub get_request-first_reply :
    (buffer : Bytes) (rs : List RecvReply)
    → length buffer ≡ max_path + 1
    → Fits rs
    → get_request buffer rs ≡ first_reply rs
unfolding get_request
get_request-first_reply buffer rs h f = recv_loop-first_reply buffer rs h f
