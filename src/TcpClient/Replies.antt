-- ===== src/TcpClient/Replies.antt =====
-- What lesson3/tcp_client/main.cpp sends, and what it makes of the answers of
-- lesson3/broadcast_server/main.cpp.
use gb_cpp_network_programmi.Base.{
  ℕ, ◌+◌, ◌<◌, ◌≤◌, ◌≡◌, refl, sym, ap, ◌∙◌, if_both, true, false, List, [], ◌∷◌, ◌++◌, Bytes,
  append_assoc, append-nil, length, length-append, replicate, drop, set, codes, contains, c_string,
  IsNonzero, Option, none, some, ◌==◌, arith,
}
use gb_cpp_network_programmi.Posix.{RecvReply, got, room, done}
use gb_cpp_network_programmi.Request.{size_mod, send_request}
use gb_cpp_network_programmi.Request.Delivery.{send_request_at_once}
use gb_cpp_network_programmi.Broadcast.{buffer_size, first_line, serve, served}
use gb_cpp_network_programmi.Broadcast.Buffer.{first_line-le}
use gb_cpp_network_programmi.Broadcast.GetFile.{
  getfile, serve_missing, serve_found, first_line_some,
}
use gb_cpp_network_programmi.TcpClient.{
  max_recv_buffer_size, Received, returned, undefined, receiving, keep_fragment, recv_file, Talk,
  Ending, exit_success, Files, after_file, after_answer, read_reply, after_request, talk,
}

-- The client keeps a fragment that does not fill its array, and whose text, up to the first zero in
-- the array, does not tell that there is no file.
keeps_fragment :
    (name array text : Bytes) (b : ℕ) (bs : Bytes) (rs : List RecvReply)
    → length (b ∷ bs) < max_recv_buffer_size
    → c_string (set ((b ∷ bs) ++ drop (length (b ∷ bs)) array) (length (b ∷ bs)) 10) ≡ some text
    → contains (codes "FILE NOT FOUND!") text ≡ false
    → recv_file name true array (got (b ∷ bs) ∷ rs)
      ≡ returned (record { first = true; second = name; written = some (name, b ∷ bs) }) rs
unfolding recv_file keep_fragment
keeps_fragment name array text b bs rs h e k =
    let f : (length (b ∷ bs) == max_recv_buffer_size) ≡ false = ground arith in rw (f, e, k)

-- The same, of bytes that are not none.
keeps_text :
    (name array text sent : Bytes) (rs : List RecvReply)
    → 0 < length sent
    → length sent < max_recv_buffer_size
    → c_string (set (sent ++ drop (length sent) array) (length sent) 10) ≡ some text
    → contains (codes "FILE NOT FOUND!") text ≡ false
    → recv_file name true array (got sent ∷ rs)
      ≡ returned (record { first = true; second = name; written = some (name, sent) }) rs
keeps_text name array text [] rs p h e k = absurd (omega arith)
keeps_text name array text (b ∷ bs) rs p h e k = keeps_fragment name array text b bs rs h e k

-- Of the path that is asked for, which has at most 58 bytes and no zeros, the server skips the first
-- character `p`. If it has no file at the rest and the kernel takes each send at once, the client is sent
-- the request twice; and if its array ends that text and it does not hold FILE NOT FOUND!, and its new file
-- opens, it saves that text as the file that it asked for.
pub missing_file_saved :
    (files : Bytes → Option Bytes) (buffer : Bytes) (p : ℕ) (path : Bytes) (m n : ℕ)
    (name array text : Bytes)
    → length buffer ≡ buffer_size
    → IsNonzero (p ∷ path)
    → length path < 58
    → files path ≡ none
    → length (getfile (p ∷ path)) ≤ m
    → length (getfile (p ∷ path)) ≤ n
    → c_string (
        set
          ((getfile (p ∷ path) ++ getfile (p ∷ path))
            ++ drop (length (getfile (p ∷ path) ++ getfile (p ∷ path))) array)
          (length (getfile (p ∷ path) ++ getfile (p ∷ path)))
          10)
      ≡ some text
    → contains (codes "FILE NOT FOUND!") text ≡ false
    → (buffer' sent : Bytes) × (serve files buffer (got (getfile (p ∷ path))) (room m ∷ room n ∷ [])
        ≡ served buffer' sent [])
      × (sent ≡ getfile (p ∷ path) ++ getfile (p ∷ path))
      × (recv_file name true array (got sent ∷ [])
          ≡ returned (record { first = true; second = name; written = some (name, sent) }) [])
missing_file_saved files buffer p path m n name array text b z w f k k' e c =
    let (buffer', s) = serve_missing files buffer p path m n [] b z w f k k' in
    (
      buffer',
      getfile (p ∷ path) ++ getfile (p ∷ path),
      s,
      refl,
      keeps_fragment name array text _ _ [] short e c,
    )
  where
    short : length (getfile (p ∷ path) ++ getfile (p ∷ path)) < max_recv_buffer_size
    short = omega (
      arith,
      length-append (getfile (p ∷ path)) (getfile (p ∷ path)),
      length-append path (13 ∷ 10 ∷ []),
    )

-- Of the path that is asked for, which has at most 58 bytes and no zeros, the server skips the first
-- character `p`. If it has a file at the rest, neither empty nor with zeros, and the kernel takes the line at
-- once; and if the client's array ends the text and it does not hold FILE NOT FOUND!, and its new file opens:
-- the client saves the file's first line, up to 254 bytes of it.
pub first_line_saved :
    (files : Bytes → Option Bytes) (buffer : Bytes) (p : ℕ) (path : Bytes) (c : ℕ) (content : Bytes)
    (m : ℕ) (name array text : Bytes)
    → length buffer ≡ buffer_size
    → IsNonzero (p ∷ path)
    → length path < 58
    → files path ≡ some (c ∷ content)
    → IsNonzero (c ∷ content)
    → length (first_line 254 (c ∷ content)) ≤ m
    → c_string (
        set
          (first_line 254 (c ∷ content) ++ drop (length (first_line 254 (c ∷ content))) array)
          (length (first_line 254 (c ∷ content)))
          10)
      ≡ some text
    → contains (codes "FILE NOT FOUND!") text ≡ false
    → (buffer' sent : Bytes) × (serve files buffer (got (getfile (p ∷ path))) (room m ∷ [])
        ≡ served buffer' sent [])
      × (sent ≡ first_line 254 (c ∷ content))
      × (recv_file name true array (got sent ∷ [])
          ≡ returned (record { first = true; second = name; written = some (name, sent) }) [])
first_line_saved files buffer p path c content m name array text b z w f nz k e n =
    let (buffer', s) = serve_found files buffer p path c content m [] b z w f nz k in
    (
      buffer',
      first_line 254 (c ∷ content),
      s,
      refl,
      keeps_text name array text (first_line 254 (c ∷ content)) [] (first_line_some 253 c content)
          (omega (arith, first_line-le 254 (c ∷ content))) e n,
    )

-- The requests of the lines, behind each other.
abbrev pub requests : List Bytes → Bytes
requests [] = []
requests (line ∷ lines) = (line ++ codes "\r\n") ++ requests lines

-- The reading of an answer leaves what was sent.
abbrev Continues : Talk → (Talk → Ending) → Talk → Ending → Type 0
Continues t k u e =
    e ≡ exit_success u
    → (t' : Talk) × (t'.wire ≡ t.wire) × (t'.sending ≡ t.sending) × (k t' ≡ exit_success u)

after_file-Continues :
    (t u : Talk) (r : Received) (k : Talk → Ending) → Continues t k u (after_file t r k)
after_file-Continues t u (returned r rs) k e = (_, refl, refl, e)
after_file-Continues t u undefined k e = cc
after_file-Continues t u receiving k e = cc

after_answer-Continues :
    (t u : Talk) (r : Option (List Bytes × List RecvReply)) (k : Talk → Ending)
    → Continues t k u (after_answer t r k)
after_answer-Continues t u none k e = cc
after_answer-Continues t u (some (lines, rs)) k e = (_, refl, refl, e)

read_reply-Continues :
    (f : Files) (request : Bytes) (t u : Talk) (k : Talk → Ending)
    → Continues t k u (read_reply f request t k)
unfolding read_reply
read_reply-Continues f request t u k =
    if_both (Continues t k u) (contains (codes "getfile") request) _ _
      (λ _. after_file-Continues t u _ k) (λ _. after_answer-Continues t u _ k)

-- The lines are no longer than this.
abbrev pub Short : ℕ → List Bytes → Type 0
Short n [] = Unit
Short n (line ∷ lines) = (length line + 2 ≤ n) × Short n lines

-- Where the kernel takes each request at once, a client that comes to the end of its input has sent
-- all its lines, in order, each once and with its line end, whatever was answered.
talk_sends :
    (f : Files) (n : ℕ) (lines : List Bytes) (t u : Talk)
    → n < size_mod
    → Short n lines
    → t.sending ≡ replicate (length lines) (room n)
    → talk f lines t ≡ exit_success u
    → u.wire ≡ t.wire ++ requests lines
unfolding talk
talk_sends f n [] t u w h s e =
    let i : t ≡ u = cc in ap (λ t. t.wire) (sym i) ∙ sym (append-nil t.wire)
talk_sends f n (line ∷ lines) t u w h s e =
    let request : Bytes = line ++ codes "\r\n" in
    let k : Talk → Ending = λ t'. read_reply f request t' (λ t''. talk f lines t'') in
    let l : length request ≡ length line + 2 = length-append line (codes "\r\n") in
    let sent : send_request request t.sending t.wire
        ≡ done true (t.wire ++ request) (replicate (length lines) (room n)) =
      ap (λ r. send_request request r t.wire) s
      ∙ send_request_at_once request t.wire n _ (omega (arith, l)) (omega (arith, l, h.0))
          (omega (arith, l, h.0)) in
    let (t', ew, es, ek) =
      read_reply-Continues f request _ u (λ t''. talk f lines t'')
        (ap (λ r. after_request t r k) (sym sent) ∙ e) in
    talk_sends f n lines t' u w h.1 es ek
    ∙ ap (λ x. x ++ requests lines) ew
    ∙ append_assoc t.wire request (requests lines)
