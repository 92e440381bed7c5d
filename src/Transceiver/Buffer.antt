-- ===== src/Transceiver/Buffer.antt =====
-- What `Transceiver::send_buffer` of lesson4/mt_server/main.cpp puts on the wire.
use gb_cpp_network_programmi.Base.{
  ℕ, suc, ◌+◌, ◌-◌, ◌≤◌, ◌<◌, ◌≡◌, refl, ap, ◌∙◌, subst, true, false, List, [], ◌∷◌, ◌++◌, min,
  append-nil, append_assoc, arith, Bytes, length, take, drop, take-join, take_all, Bool-cases, ◌==◌,
  inl, inr, if◌then◌else◌,
}
use gb_cpp_network_programmi.Posix.{SendReply, room, failed, Sent, done, waiting}
use gb_cpp_network_programmi.Transceiver.{need_to_repeat, send_loop, send_buffer}

-- The whole buffer follows `wire` after `true`; a proper part of it after `false`; some part while
-- the call is still waiting.
abbrev pub Sends : Bytes → Bytes → Sent → Type 0
Sends buffer wire (done true sent rest) = sent ≡ wire ++ buffer
Sends buffer wire (done false sent rest) =
    (k : ℕ) × (k < length buffer) × (sent ≡ wire ++ take k buffer)
Sends buffer wire (waiting sent) = (k : ℕ) × (k < length buffer) × (sent ≡ wire ++ take k buffer)

joined :
    (buffer wire : Bytes) (pos k : ℕ)
    → (wire ++ take pos buffer) ++ take k (drop pos buffer) ≡ wire ++ take (pos + k) buffer
joined buffer wire pos k =
    append_assoc wire (take pos buffer) (take k (drop pos buffer))
    ∙ ap (◌++◌ wire) (take-join pos k buffer)

finished :
    (buffer wire : Bytes) (pos : ℕ)
    → (pos == length buffer) ≡ true
    → wire ++ take pos buffer ≡ wire ++ buffer
finished buffer wire pos e = ap (◌++◌ wire) (take_all pos buffer (ground arith))

send_loop-Sends :
    (buffer wire : Bytes) (pos : ℕ) (rs : List SendReply)
    → pos ≤ length buffer
    → Sends buffer wire (send_loop buffer pos rs (wire ++ take pos buffer))
unfolding send_loop
send_loop-Sends buffer wire pos [] h = elim (Bool-cases (pos == length buffer)) [
  | inl e ↦ rw e (finished buffer wire pos e)
  | inr e ↦ rw e (pos, ground arith, refl)
]
send_loop-Sends buffer wire pos (failed x ∷ rs) h = elim (Bool-cases (pos == length buffer)) [
  | inl e ↦ rw e (finished buffer wire pos e)
  | inr e ↦ rw e (elim (Bool-cases (need_to_repeat x)) [
    | inl again ↦ rw again (send_loop-Sends buffer wire pos rs h)
    | inr stop ↦ rw stop (pos, ground arith, refl)
  ])
]
send_loop-Sends buffer wire pos (room n ∷ rs) h = elim (Bool-cases (pos == length buffer)) [
  | inl e ↦ rw e (finished buffer wire pos e)
  | inr e ↦ rw e (
      rw (joined buffer wire pos (min n (length buffer - pos)))
        (send_loop-Sends buffer wire (pos + min n (length buffer - pos)) rs (omega arith)))
]

-- Whatever the kernel answers: if `send_buffer` returns true the peer has been sent exactly the
-- buffer, in order and once; if it returns false or still waits, a proper prefix of it.
pub send_buffer-Sends :
    (buffer wire : Bytes) (rs : List SendReply) → Sends buffer wire (send_buffer buffer rs wire)
unfolding send_buffer
send_buffer-Sends buffer wire rs =
    subst (λ w. Sends buffer wire (send_loop buffer 0 rs w)) (append-nil wire)
      (send_loop-Sends buffer wire 0 rs (omega arith))

-- The calls of `send` that take at least one byte.
abbrev pub progress : List SendReply → ℕ
progress [] = 0
progress (failed e ∷ rs) = progress rs
progress (room n ∷ rs) = if n == 0 then progress rs else suc (progress rs)

-- Every failed call is one that the code repeats.
abbrev pub NoFatal : List SendReply → Type 0
NoFatal [] = Unit
NoFatal (failed e ∷ rs) = (need_to_repeat e ≡ true) × NoFatal rs
NoFatal (room n ∷ rs) = NoFatal rs

abbrev Succeeds : Sent → Type 0
Succeeds r = (w : Bytes) × (rest : List SendReply) × (r ≡ done true w rest)

send_loop-Succeeds :
    (buffer : Bytes) (pos : ℕ) (rs : List SendReply) (wire : Bytes)
    → pos ≤ length buffer
    → length buffer ≤ pos + progress rs
    → NoFatal rs
    → Succeeds (send_loop buffer pos rs wire)
unfolding send_loop
send_loop-Succeeds buffer pos [] wire h m f = (wire, [], ground arith)
send_loop-Succeeds buffer pos (failed x ∷ rs) wire h m f =
    elim (Bool-cases (pos == length buffer)) [
      | inl e ↦ (wire, failed x ∷ rs, rw e)
      | inr e ↦ rw (e, f.0) (send_loop-Succeeds buffer pos rs wire h m f.1)
    ]
send_loop-Succeeds buffer pos (room n ∷ rs) wire h m f = elim (Bool-cases (pos == length buffer)) [
  | inl e ↦ (wire, room n ∷ rs, rw e)
  | inr e ↦ rw e (
      send_loop-Succeeds buffer (pos + min n (length buffer - pos)) rs _ (omega arith)
        (ground arith) f)
]

named :
    (buffer wire : Bytes) {r : Sent}
    → Succeeds r
    → Sends buffer wire r
    → (rest : List SendReply) × (r ≡ done true (wire ++ buffer) rest)
named buffer wire (w, rest, e) s =
    (rest, e ∙ ap (λ t. done true t rest) (subst (Sends buffer wire) e s))

-- `send_buffer` returns true, with the whole buffer sent, as soon as the kernel has taken bytes as
-- often as the buffer has bytes and every failure was EINTR or EAGAIN.
pub send_buffer_total :
    (buffer wire : Bytes) (rs : List SendReply)
    → length buffer ≤ progress rs
    → NoFatal rs
    → (rest : List SendReply) × (send_buffer buffer rs wire ≡ done true (wire ++ buffer) rest)
unfolding send_buffer
send_buffer_total buffer wire rs m f =
    named buffer wire (send_loop-Succeeds buffer 0 rs wire (omega arith) (omega arith) f)
      (send_buffer-Sends buffer wire rs)
