-- ===== src/Transceiver/SendFile.antt =====
-- What `Transceiver::send_file` of lesson4/mt_server/main.cpp puts on the wire.
use native.Mathlib.Nat.{mod-eq_of_lt, mod-eq-sub-mod}
use native.Mathlib.Decide.{dec_le}
use gb_cpp_network_programmi.Base.{
  ℕ, zero, suc, ◌+◌, ◌-◌, ◌%◌, ◌≤◌, ◌<◌, ◌≡◌, refl, sym, ap, ◌∙◌, subst, true, false, List, [],
  ◌++◌, append-nil, append_assoc, arith, Bytes, length, take, drop, replicate, length-take,
  length-drop, length-append, length-replicate, take-append-drop, drop_all, take-append_le,
  take-append_add, drop-drop, drop-replicate, ltb, leb, Option, none, some,
}
use gb_cpp_network_programmi.Posix.{SendReply, Sent, done, waiting}
use gb_cpp_network_programmi.Transceiver.{
  send_buffer, buffer_size, FileStream, read, splice, and_then, large_loop, small_loop, at_end,
  send_file,
}
use gb_cpp_network_programmi.Transceiver.Buffer.{Sends, send_buffer-Sends}

abbrev pub zeros : ℕ → Bytes
zeros n = replicate n 0

-- The content, filled up with zeros to the next multiple of the buffer's size.
pub padded : Bytes → Bytes
padded content = content ++ zeros (buffer_size - length content % buffer_size)

buffer_size_pos : 0 < buffer_size
unfolding buffer_size
buffer_size_pos = omega arith

padded_block :
    (xs : Bytes)
    → buffer_size ≤ length xs
    → padded xs ≡ take buffer_size xs ++ padded (drop buffer_size xs)
unfolding padded
padded_block xs h =
    let m : length xs % buffer_size ≡ (length xs - buffer_size) % buffer_size = mod-eq-sub-mod h in
    rw (length-drop buffer_size xs, ← m)
      (ap (λ ys. ys ++ zeros (buffer_size - length xs % buffer_size))
          (sym (take-append-drop buffer_size xs))
        ∙ append_assoc (take buffer_size xs) (drop buffer_size xs)
            (zeros (buffer_size - length xs % buffer_size)))

padded_short :
    (xs : Bytes) → length xs < buffer_size → padded xs ≡ xs ++ zeros (buffer_size - length xs)
unfolding padded
padded_short xs h = rw (mod-eq_of_lt h)

-- The block that goes out: the bytes read, over the zeros of the cleared buffer.
splice-zeros :
    (bytes : Bytes)
    → splice (zeros buffer_size) 0 bytes ≡ bytes ++ zeros (buffer_size - length bytes)
splice-zeros bytes =
    let e : 0 + length bytes ≡ length bytes = omega arith in
    rw (e, drop-replicate {A = ℕ} (length bytes) buffer_size 0)

-- Sending `a` and then `b`, when the first went through, is sending both.
Sends-append : (a b wire : Bytes) (r : Sent) → Sends b (wire ++ a) r → Sends (a ++ b) wire r
Sends-append a b wire (done true w rest) s = s ∙ append_assoc wire a b
Sends-append a b wire (done false w rest) (k, h, e) = (
  length a + k,
  omega (arith, length-append a b),
  e ∙ append_assoc wire a (take k b) ∙ ap (◌++◌ wire) (sym (take-append_add k a b)),
)
Sends-append a b wire (waiting w) (k, h, e) = (
  length a + k,
  omega (arith, length-append a b),
  e ∙ append_assoc wire a (take k b) ∙ ap (◌++◌ wire) (sym (take-append_add k a b)),
)

-- A result within the fuel, with what it sends.
abbrev pub Delivers : Bytes → Bytes → Option Sent → Type 0
Delivers bytes wire none = ⊥
Delivers bytes wire (some r) = Sends bytes wire r

and_then-Delivers :
    (a b wire : Bytes) (r : Sent) (k : Bytes → List SendReply → Option Sent)
    → Sends a wire r
    → ((rest : List SendReply) → Delivers b (wire ++ a) (k (wire ++ a) rest))
    → Delivers (a ++ b) wire (and_then r k)
and_then-Delivers a b wire (done true w rest) k s h = rw s (both (k (wire ++ a) rest) (h rest))
  where
    both : (o : Option Sent) → Delivers b (wire ++ a) o → Delivers (a ++ b) wire o
    both none d = d
    both (some r) d = Sends-append a b wire r d
and_then-Delivers a b wire (done false w rest) k (n, h, e) g = (
  n,
  omega (arith, length-append a b),
  e ∙ ap (◌++◌ wire) (sym (take-append_le n a b (omega arith))),
)
and_then-Delivers a b wire (waiting w) k (n, h, e) g = (
  n,
  omega (arith, length-append a b),
  e ∙ ap (◌++◌ wire) (sym (take-append_le n a b (omega arith))),
)

abbrev reader : Bytes → ℕ → FileStream
reader content pos = record (at_end content) { position = pos }

-- The stream after a short read.
abbrev spent : Bytes → FileStream
spent content = record (at_end content) { eof = true; fail = true }

read_full :
    (content : Bytes) (pos n : ℕ)
    → n ≤ length (drop pos content)
    → read (reader content pos) n ≡ (take n (drop pos content), reader content (pos + n))
unfolding read
read_full content pos n h = let t : leb n (length (drop pos content)) ≡ true = ground arith in rw t

read_short :
    (content : Bytes) (pos n : ℕ)
    → length (drop pos content) < n
    → read (reader content pos) n ≡ (drop pos content, spent content)
unfolding read
read_short content pos n h =
    let t : leb n (length (drop pos content)) ≡ false = ground arith in rw t

zeros-length : length (zeros buffer_size) ≡ buffer_size
zeros-length = length-replicate buffer_size 0

after_short :
    (fuel : ℕ) (content wire : Bytes) (rs : List SendReply)
    → Delivers [] wire (large_loop (suc fuel) (zeros buffer_size) (spent content) rs wire)
unfolding large_loop
after_short fuel content wire rs = sym (append-nil wire)

large_loop_full :
    (fuel : ℕ) (content : Bytes) (pos : ℕ) (rs : List SendReply) (wire : Bytes)
    → buffer_size ≤ length (drop pos content)
    → large_loop (suc fuel) (zeros buffer_size) (reader content pos) rs wire
      ≡ and_then
          (send_buffer (take buffer_size (drop pos content)) rs wire)
          (λ w r. large_loop fuel (zeros buffer_size) (reader content (pos + buffer_size)) r w)
unfolding large_loop
large_loop_full fuel content pos rs wire h =
    let block = take buffer_size (drop pos content) in
    let n : length block ≡ buffer_size =
      omega (arith, length-take buffer_size (drop pos content)) in
    let gap : buffer_size - length block ≡ 0 = omega arith in
    rw
      (zeros-length, read_full content pos buffer_size h, splice-zeros block, gap, append-nil block)

large_loop_short :
    (fuel : ℕ) (content : Bytes) (pos : ℕ) (rs : List SendReply) (wire : Bytes)
    → length (drop pos content) < buffer_size
    → large_loop (suc fuel) (zeros buffer_size) (reader content pos) rs wire
      ≡ and_then
          (send_buffer (padded (drop pos content)) rs wire)
          (λ w r. large_loop fuel (zeros buffer_size) (spent content) r w)
unfolding large_loop
large_loop_short fuel content pos rs wire h = rw (
  zeros-length,
  read_short content pos buffer_size h,
  splice-zeros (drop pos content),
  padded_short (drop pos content) h,
)

large_loop-Delivers :
    (fuel : ℕ) (content : Bytes) (pos : ℕ) (rs : List SendReply) (wire : Bytes)
    → pos ≤ length content
    → length content + 2 ≤ fuel + pos
    → Delivers
        (padded (drop pos content))
        wire
        (large_loop fuel (zeros buffer_size) (reader content pos) rs wire)
large_loop-Delivers zero content pos rs wire h m = absurd (omega arith)
large_loop-Delivers (suc zero) content pos rs wire h m = absurd (omega arith)
large_loop-Delivers (suc (suc fuel)) content pos rs wire h m =
    elim (dec_le buffer_size (length (drop pos content))) [
      | yes full ↦
          let block = take buffer_size (drop pos content) in
          rw
            (
              large_loop_full (suc fuel) content pos rs wire full,
              padded_block (drop pos content) full,
              drop-drop pos buffer_size content,
            )
            (and_then-Delivers block _ wire (send_buffer block rs wire) _
              (send_buffer-Sends block wire rs)
              (λ rest.
                large_loop-Delivers (suc fuel) content (pos + buffer_size) rest (wire ++ block)
                  (omega (arith, length-drop pos content)) (omega (arith, buffer_size_pos))))
      | no short ↦
          let block = padded (drop pos content) in
          rw (large_loop_short (suc fuel) content pos rs wire (omega arith)) (
            subst
              (λ b. Delivers b wire (
                and_then (send_buffer block rs wire)
                  (λ w r. large_loop (suc fuel) (zeros buffer_size) (spent content) r w)))
              (append-nil block)
              (and_then-Delivers block [] wire (send_buffer block rs wire) _
                (send_buffer-Sends block wire rs)
                (λ rest. after_short fuel content (wire ++ block) rest)))
    ]

and_then_done : (r : Sent) → and_then r (λ w rest. some (done true w rest)) ≡ some r
and_then_done (done true w rest) = refl
and_then_done (done false w rest) = refl
and_then_done (waiting w) = refl

-- A file that fits the buffer is never read: after `seekg` to the end the first `read` gets no
-- byte, and the zeros of the fresh buffer are sent in its place, whatever the file holds.
pub send_file_small :
    (content wire : Bytes) (rs : List SendReply)
    → length content ≤ buffer_size
    → send_file (some content) rs wire ≡ some (send_buffer (zeros buffer_size) rs wire)
unfolding send_file small_loop
send_file_small content wire rs h =
    let t : ltb buffer_size (length content) ≡ false = ground arith in
    let s : length content + 2 ≡ suc (suc (length content)) = omega arith in
    let d : drop (length content) content ≡ [] = drop_all (length content) content (omega arith) in
    let n : length (drop (length content) content) < buffer_size =
      omega (arith, ap length d, buffer_size_pos) in
    rw (t, s, zeros-length, read_short content (length content) buffer_size n, d)
      (and_then_done (send_buffer (zeros buffer_size) rs wire))

-- A file larger than the buffer is sent whole, filled up with zeros to the next multiple of the
-- buffer's size: all of that if the result is true, a proper prefix of it if the result is false
-- or a call still waits. The fuel suffices.
pub send_file-Delivers :
    (content wire : Bytes) (rs : List SendReply)
    → buffer_size < length content
    → Delivers (padded content) wire (send_file (some content) rs wire)
unfolding send_file
send_file-Delivers content wire rs h =
    let t : ltb buffer_size (length content) ≡ true = ground arith in
    rw t (large_loop-Delivers (length content + 2) content 0 rs wire (omega arith) (omega arith))
