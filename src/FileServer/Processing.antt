-- ===== src/FileServer/Processing.antt =====
-- What one client of lesson4/mt_server/main.cpp gets from `process`.
use gb_cpp_network_programmi.Base.{
  ℕ, sym, not, text_eq, ltb, ltb→lt, take_all, replicate, if◌then◌else◌, ◌≡◌, refl, ◌∙◌, inl, inr,
  true, false, ◌&&◌, List, [], ◌∷◌, Bytes, length, take, Bool-cases, if_both, Option, none, some,
  arith,
}
use gb_cpp_network_programmi.Posix.{RecvReply, SendReply, Sent, done, waiting}
use gb_cpp_network_programmi.Transceiver.{request, get_request, send_file, buffer_size}
use gb_cpp_network_programmi.Transceiver.Buffer.{Sends, send_buffer-Sends}
use gb_cpp_network_programmi.Transceiver.SendFile.{
  Delivers, padded, send_file-Delivers, send_file_small,
}
use gb_cpp_network_programmi.FileServer.{
  FileSystem, path_of, recv_file_path, client_send_file, Processed, processed, threw, inside,
  out_of_fuel, after_sending, with_path, with_request, process,
}

-- What the peer of `process` has read is a part of these bytes from their start.
abbrev pub PartOf : Bytes → Processed → Type 0
PartOf bytes (processed result wire) = (n : ℕ) × (wire ≡ take n bytes)
PartOf bytes (inside wire) = (n : ℕ) × (wire ≡ take n bytes)
PartOf bytes threw = Unit
PartOf bytes out_of_fuel = ⊥

-- The bytes that the content of a file becomes: with zeros behind it up to a multiple of the
-- buffer's size, or a buffer of zeros in its place if it fits the buffer.
abbrev pub outgoing : Bytes → Bytes
outgoing content =
    if ltb buffer_size (length content) then padded content else replicate buffer_size 0

Sends-PartOf : (bytes : Bytes) (r : Sent) → Sends bytes [] r → PartOf bytes (after_sending (some r))
unfolding after_sending
Sends-PartOf bytes (done true wire rs) e =
    (length bytes, e ∙ sym (take_all (length bytes) bytes (omega arith)))
Sends-PartOf bytes (done false wire rs) (n, h, e) = (n, e)
Sends-PartOf bytes (waiting wire) (n, h, e) = (n, e)

Delivers-PartOf :
    (bytes : Bytes) (r : Option Sent) → Delivers bytes [] r → PartOf bytes (after_sending r)
Delivers-PartOf bytes none d = absurd d
Delivers-PartOf bytes (some r) d = Sends-PartOf bytes r d

send_file-PartOf :
    (content : Bytes) (rs : List SendReply)
    → PartOf (outgoing content) (after_sending (send_file (some content) rs []))
send_file-PartOf content rs = elim (Bool-cases (ltb buffer_size (length content))) [
  | inl e ↦
      rw e (Delivers-PartOf (padded content) _ (send_file-Delivers content [] rs (ltb→lt _ _ e)))
  | inr e ↦
      rw (e, send_file_small content [] rs (ground arith))
        (Sends-PartOf (replicate buffer_size 0) _
          (send_buffer-Sends (replicate buffer_size 0) [] rs))
]

client_send_file-PartOf :
    (fs : FileSystem) (path content : Bytes) (rs : List SendReply)
    → fs.content path ≡ some content
    → PartOf (outgoing content) (after_sending (client_send_file fs path rs))
unfolding client_send_file after_sending
client_send_file-PartOf fs path content rs e =
    if_both (λ r. PartOf (outgoing content) (after_sending r))
      (fs.exists path && fs.is_regular_file path) _ _ (λ _. rw e (send_file-PartOf content rs))
      (λ _. (0, refl))

-- Of the file that the request names, the peer reads a part from the start of its content with zeros
-- up to a multiple of 4096 behind it, or of 4096 zeros in its place if it is not larger than that;
-- and the loops of the sending end.
pub process-PartOf :
    (fs : FileSystem) (buffer text content : Bytes) (received left : List RecvReply)
    (rs : List SendReply)
    → get_request buffer received ≡ request text left
    → fs.content (path_of fs text) ≡ some content
    → PartOf (outgoing content) (process fs buffer received rs)
unfolding process with_request with_path recv_file_path
process-PartOf fs buffer text content received left rs e k = rw e (named text k)
  where
    named :
        (t : Bytes)
        → fs.content (path_of fs t) ≡ some content
        → PartOf (outgoing content) (with_path fs (recv_file_path fs t) rs)
    named [] h = (0, refl)
    named (c ∷ t) h = client_send_file-PartOf fs (path_of fs (c ∷ t)) content rs h

-- A request for something that is no regular file is answered with nothing, and the result is true
-- all the same; an empty request is answered with nothing, and the result is false.
process_without_file :
    (fs : FileSystem) (buffer text : Bytes) (received left : List RecvReply) (rs : List SendReply)
    → get_request buffer received ≡ request text left
    → fs.is_regular_file (path_of fs text) ≡ false
    → process fs buffer received rs ≡ processed (not (text_eq text [])) []
unfolding process with_request with_path recv_file_path client_send_file after_sending text_eq
process_without_file fs buffer text received left rs e k = rw e (named text k)
  where
    named :
        (t : Bytes)
        → fs.is_regular_file (path_of fs t) ≡ false
        → with_path fs (recv_file_path fs t) rs ≡ processed (not (text_eq t [])) []
    named [] h = refl
    named (c ∷ t) h = elim (Bool-cases (fs.exists (path_of fs (c ∷ t)))) [
      | inl x ↦ rw (x, h) refl
      | inr x ↦ rw x refl
    ]
