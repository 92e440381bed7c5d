-- ===== src/Broadcast/Serving.antt =====
-- One turn of lesson3/broadcast_server/main.cpp: it keeps to its buffer, and overruns `fpath` only by a command.
use gb_cpp_network_programmi.Base.{
  ℕ, zero, suc, ◌≤◌, ◌≡◌, refl, ◌∙◌, ◌⊎◌, inl, inr, Bool-cases, if_both, true, false, List, [], ◌∷◌,
  Bytes, length, take, drop, drop-drop, leb, leb→le, ◌==◌, codes, contains, c_string, Option, none,
  some, arith,
}
use gb_cpp_network_programmi.Posix.{RecvReply, SendReply, Sent, done, waiting}
use gb_cpp_network_programmi.Request.{send_request}
use gb_cpp_network_programmi.Broadcast.{
  fpath_size, Served, served, inside, undefined, receive, path_len, opened_path, read_line,
  after_send, send_text, answer, open_file, execute, serve,
}
use gb_cpp_network_programmi.Broadcast.Buffer.{HasEnd, Fits, receive-HasEnd, read_line-HasEnd}

-- A zero anywhere ends the C string.
c_string-IsSome :
    (k : ℕ) (array rest : Bytes) → drop k array ≡ 0 ∷ rest → (s : Bytes) × (c_string array ≡ some s)
unfolding c_string
c_string-IsSome zero [] rest e = cc
c_string-IsSome (suc k) [] rest e = cc
c_string-IsSome zero (c ∷ array) rest e =
    let z : c ≡ 0 = cc in let t : (c == 0) ≡ true = ground arith in ([], rw t refl)
c_string-IsSome (suc k) (c ∷ array) rest e = elim (Bool-cases (c == 0)) [
  | inl t ↦ ([], rw t refl)
  | inr f ↦ let (s, h) = c_string-IsSome k array rest e in (c ∷ s, rw (f, h) refl)
]

-- A command that overruns `fpath`: by a path of 60 bytes or more, or by the zero that is written 60 bytes
-- or more behind its start, as for a command of fewer than 11 bytes.
abbrev pub Overflows : Bytes → ℕ → Type 0
Overflows buffer recv_bytes =
    (path : Bytes) × (c_string (drop 9 buffer) ≡ some path)
    × ((fpath_size ≤ length path) ⊎ (fpath_size ≤ path_len recv_bytes))

abbrev pub Overruns : Bytes → ℕ → Type 0
Overruns buffer recv_bytes =
    (text : Bytes) × (c_string buffer ≡ some text)
    × (contains (codes "getfile") text ≡ true)
    × Overflows buffer recv_bytes

opened_path-none :
    (buffer : Bytes) (recv_bytes : ℕ)
    → HasEnd buffer
    → opened_path buffer recv_bytes ≡ none
    → Overflows buffer recv_bytes
unfolding opened_path
opened_path-none buffer recv_bytes (l, e) h =
    let (path, p) = c_string-IsSome 246 (drop 9 buffer) [] (drop-drop 9 246 buffer ∙ e) in
    (
      path,
      p,
      elim (Bool-cases (leb fpath_size (length path))) [
        | inl long ↦ inl (leb→le fpath_size (length path) long)
        | inr short ↦ elim (Bool-cases (leb fpath_size (path_len recv_bytes))) [
          | inl far ↦ inr (leb→le fpath_size (path_len recv_bytes) far)
          | inr near ↦ absurd (taken path p short near h)
        ]
      ],
    )
  where
    taken :
        (path : Bytes)
        → c_string (drop 9 buffer) ≡ some path
        → leb fpath_size (length path) ≡ false
        → leb fpath_size (path_len recv_bytes) ≡ false
        → opened_path buffer recv_bytes ≡ none
        → ⊥
    taken path p a b h =
        let r : opened_path buffer recv_bytes ≡ some (take (path_len recv_bytes) path) =
          rw (p, a, b) in
        cc

-- What a turn leaves: a buffer that ends, or an overrun of `fpath` by the command that is in the buffer.
abbrev pub Bounded : Bytes → ℕ → Served → Type 0
Bounded buffer recv_bytes (served buffer' wire rs) = HasEnd buffer'
Bounded buffer recv_bytes (inside wire) = Unit
Bounded buffer recv_bytes undefined = Overruns buffer recv_bytes

send_text-Bounded :
    (buffer b : Bytes) (n : ℕ) (rs : List SendReply) (wire : Bytes)
    (k : Bytes → List SendReply → Served)
    → HasEnd buffer
    → ((wire' : Bytes) (rs' : List SendReply) → Bounded b n (k wire' rs'))
    → Bounded b n (send_text (c_string buffer) rs wire k)
send_text-Bounded buffer b n rs wire k (l, e) h =
    let (text, t) = c_string-IsSome 255 buffer [] e in rw t (sent (send_request text rs wire))
  where
    sent : (s : Sent) → Bounded b n (after_send s k)
    sent (waiting w) = tt
    sent (done result w rs') = h w rs'

answer-Bounded :
    (buffer : Bytes) (n : ℕ) (file : Option Bytes) (rs : List SendReply)
    → HasEnd buffer
    → Bounded buffer n (answer buffer file rs)
unfolding answer
answer-Bounded buffer n (some content) rs h =
    send_text-Bounded (read_line buffer content) buffer n rs [] _
      (read_line-HasEnd buffer content h) (λ w rs'. read_line-HasEnd buffer content h)
answer-Bounded buffer n none rs h =
    send_text-Bounded buffer buffer n rs [] _ h
      (λ w rs'. send_text-Bounded buffer buffer n rs' w _ h (λ w' rs''. h))

execute-Bounded :
    (files : Bytes → Option Bytes) (buffer : Bytes) (n : ℕ) (rs : List SendReply)
    → HasEnd buffer
    → Bounded buffer n (execute files (c_string buffer) buffer n rs)
unfolding execute
execute-Bounded files buffer n rs (l, e) =
    let (text, t) = c_string-IsSome 255 buffer [] e in
    rw t (
      if_both (Bounded buffer n) (contains (codes "getfile") text) _ _
        (λ command. opened text t command (opened_path buffer n) refl) (λ _. (l, e)))
  where
    opened :
        (text : Bytes)
        → c_string buffer ≡ some text
        → contains (codes "getfile") text ≡ true
        → (p : Option Bytes) → opened_path buffer n ≡ p
        → Bounded buffer n (open_file files p buffer rs)
    opened text t command none h = (text, t, command, opened_path-none buffer n (l, e) h)
    opened text t command (some path) h = answer-Bounded buffer n (files path) rs (l, e)

-- A turn that starts with a buffer of 256 bytes whose last is zero, and is given at most 255 bytes, ends
-- with such a buffer, whatever the files hold; the only array that it can leave is `fpath`, by a path of
-- 60 bytes or more or by the zero that it writes 60 bytes or more behind its start.
pub serve-Bounded :
    (files : Bytes → Option Bytes) (buffer : Bytes) (reply : RecvReply) (rs : List SendReply)
    → HasEnd buffer
    → Fits reply
    → Bounded (receive buffer reply).0 (receive buffer reply).1 (serve files buffer reply rs)
unfolding serve
serve-Bounded files buffer reply rs h f =
    execute-Bounded files (receive buffer reply).0 (receive buffer reply).1 rs
      (receive-HasEnd buffer reply f h)
