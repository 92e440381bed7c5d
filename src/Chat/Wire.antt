-- ===== src/Chat/Wire.antt =====
-- The datagrams of lesson8/f2f_chat/chatnetwork.cpp: what `SendMessage` writes, and what
-- `slotReadMessages` of another peer makes of it.
use gb_cpp_network_programmi.Base.{
  ℕ, ◌<◌, ◌≡◌, refl, ap, ◌∙◌, ◌≢◌, false, List, [], ◌∷◌, ◌++◌, Bytes, if◌then◌else◌, append_assoc,
  text_eq, codes, arith,
}
use gb_cpp_network_programmi.Qt.{Qt, IsQt, All, All-append, Lacks, join}
use gb_cpp_network_programmi.Chat.{
  ChatNetwork, new_message, ok, control, datagram, packet, send_message, show_message,
  handle_packet, last_datagram, slot_read_messages,
}

-- A text that can stand between two slashes and survives the way over a C string.
abbrev pub IsField : Bytes → Type 0
IsField s = Lacks 47 s × Lacks 0 s

-- What a message adds to the list of those to be shown.
abbrev pub shown_lines : Bytes → Bytes → Bytes → List Bytes
shown_lines message name id =
    (codes "<font color=\"blue\">Принято от " ++ (name ++ (codes " (" ++ (id ++ codes "):"))))
    ∷ (codes "<font color=\"black\">" ++ (message ++ codes "</font>"))
    ∷ []

last_datagram_snoc :
    (held d : ℕ × Bytes) (ds : List (ℕ × Bytes)) → last_datagram held (ds ++ d ∷ []) ≡ d
unfolding last_datagram
last_datagram_snoc held d [] = refl
last_datagram_snoc held d (e ∷ ds) = last_datagram_snoc e d ds

-- Of several pending datagrams only the last is handled.
slot_read_messages_last :
    (q : Qt) (c : ChatNetwork) (earlier : List (ℕ × Bytes)) (d : ℕ × Bytes)
    → slot_read_messages q c (earlier ++ d ∷ []) ≡ slot_read_messages q c (d ∷ [])
unfolding slot_read_messages
slot_read_messages_last q c earlier d =
    rw (last_datagram_snoc (0, []) d earlier, last_datagram_snoc (0, []) d [])

module _ (q : Qt) (L : IsQt q) where
  to_utf8_slash : (s : Bytes) → q.to_utf8 (47 ∷ s) ≡ 47 ∷ q.to_utf8 s
  to_utf8_slash s =
      L.to_utf8-append (47 ∷ []) s
      ∙ ap (λ h. h ++ q.to_utf8 s) (L.to_utf8_ascii (47 ∷ []) (omega arith))

  -- The text that a peer reads from a packet.
  packet_decoded :
      (kind : ℕ) (rest message name id : Bytes)
      → All (λ c. c < 128) (kind ∷ rest)
      → Lacks 0 ((kind ∷ rest) ++ (message ++ (47 ∷ (name ++ (47 ∷ id)))))
      → q.from_utf8 (packet q (kind ∷ rest) message name id)
        ≡ (kind ∷ rest) ++ (message ++ (47 ∷ (name ++ (47 ∷ id))))
  packet_decoded kind rest message name id ascii h =
      rw (← whole)
        (L.from_utf8-to_utf8 kind (rest ++ (message ++ (47 ∷ (name ++ (47 ∷ id))))) ascii.0 h)
    where
      whole :
          q.to_utf8 ((kind ∷ rest) ++ (message ++ (47 ∷ (name ++ (47 ∷ id)))))
          ≡ packet q (kind ∷ rest) message name id
      whole = rw (
        L.to_utf8-append (kind ∷ rest) (message ++ (47 ∷ (name ++ (47 ∷ id)))),
        L.to_utf8_ascii (kind ∷ rest) ascii,
        L.to_utf8-append message (47 ∷ (name ++ (47 ∷ id))),
        to_utf8_slash (name ++ (47 ∷ id)),
        L.to_utf8-append name (47 ∷ id),
        to_utf8_slash id,
      )

  -- A packet of type 2 with at least four fields, from another peer.
  handle_text :
      (c : ChatNetwork) (address : ℕ) (message name id : Bytes) (more : List Bytes)
      → All (Lacks 47) (codes "2" ∷ message ∷ name ∷ id ∷ more)
      → text_eq id c.id_program ≡ false
      → handle_packet q c address (join 47 (codes "2" ∷ message ∷ name ∷ id ∷ more))
        ≡ show_message c message name id
  unfolding handle_packet
  handle_text c address message name id more h other =
      let fields = message ∷ name ∷ id ∷ more in
      rw (
        L.section-join 47 (codes "2") fields 0 h,
        L.section-join 47 (codes "2") fields 1 h,
        L.section-join 47 (codes "2") fields 2 h,
        L.section-join 47 (codes "2") fields 3 h,
        L.to_int_two,
        other,
      )

  -- What a packet of type 2 is shown as by a peer with another id: its first three fields after the
  -- type.
  read_packet :
      (r : ChatNetwork) (from kind : ℕ) (rest message name id : Bytes) (m n i : Bytes)
      (more : List Bytes)
      → All (λ c. c < 128) (kind ∷ rest)
      → Lacks 0 ((kind ∷ rest) ++ (message ++ (47 ∷ (name ++ (47 ∷ id)))))
      → (kind ∷ rest) ++ (message ++ (47 ∷ (name ++ (47 ∷ id))))
        ≡ join 47 (codes "2" ∷ m ∷ n ∷ i ∷ more)
      → All (Lacks 47) (codes "2" ∷ m ∷ n ∷ i ∷ more)
      → text_eq i r.id_program ≡ false
      → slot_read_messages q r ((from, packet q (kind ∷ rest) message name id) ∷ [])
        ≡ show_message r m n i
  unfolding slot_read_messages last_datagram
  read_packet r from kind rest message name id m n i more ascii z e h other =
      rw (packet_decoded kind rest message name id ascii z, e)
        (handle_text r from m n i more h other)

  -- A packet whose parts are fields lacks zeros.
  fields-Lacks :
      (head message name id : Bytes)
      → Lacks 0 head
      → IsField message
      → IsField name
      → IsField id
      → Lacks 0 (head ++ (message ++ (47 ∷ (name ++ (47 ∷ id)))))
  fields-Lacks head message name id h m n i =
      All-append (λ c. c ≢ 0) head _ h
        (All-append (λ c. c ≢ 0) message _ m.1
          (omega arith, All-append (λ c. c ≢ 0) name _ n.1 (omega arith, i.1)))

  -- What any peer makes of a packet of type 1.
  pub handle_control :
      (c : ChatNetwork) (address : ℕ) (message name id : Bytes)
      → IsField message
      → IsField name
      → IsField id
      → handle_packet q c address (q.from_utf8 (packet q (codes "1/") message name id))
        ≡ control q c (record { address = address; nikname = name; program_id = id }) message
  unfolding handle_packet
  handle_control c address message name id m n i =
      let fields = message ∷ name ∷ id ∷ [] in
      let h : All (Lacks 47) (codes "1" ∷ fields) = ((omega arith, tt), (m.0, (n.0, (i.0, tt)))) in
      rw (
        packet_decoded 49 (codes "/") message name id (omega arith)
            (fields-Lacks (codes "1/") message name id (omega arith) m n i),
        L.section-join 47 (codes "1") fields 0 h,
        L.section-join 47 (codes "1") fields 1 h,
        L.section-join 47 (codes "1") fields 2 h,
        L.section-join 47 (codes "1") fields 3 h,
        L.to_int_one,
      )

  -- What any peer makes of a packet of type 2: its own is ignored.
  pub handle_message :
      (c : ChatNetwork) (address : ℕ) (message name id : Bytes)
      → IsField message
      → IsField name
      → IsField id
      → handle_packet q c address (q.from_utf8 (packet q (codes "2/") message name id))
        ≡ (if text_eq id c.id_program then ok c [] else show_message c message name id)
  unfolding handle_packet
  handle_message c address message name id m n i =
      let fields = message ∷ name ∷ id ∷ [] in
      let h : All (Lacks 47) (codes "2" ∷ fields) = ((omega arith, tt), (m.0, (n.0, (i.0, tt)))) in
      rw (
        packet_decoded 50 (codes "/") message name id (omega arith)
            (fields-Lacks (codes "2/") message name id (omega arith) m n i),
        L.section-join 47 (codes "2") fields 0 h,
        L.section-join 47 (codes "2") fields 1 h,
        L.section-join 47 (codes "2") fields 2 h,
        L.section-join 47 (codes "2") fields 3 h,
        L.to_int_two,
      )

  -- A message without slashes and zero characters, sent by a peer whose name and id have none either:
  -- a peer with another id that reads it behind any datagrams that are pending earlier appends a line
  -- with its sender's name and id and a line with its text to those that are shown, tells the window so,
  -- and changes nothing else.
  pub message_arrives :
      (s r : ChatNetwork) (from to : ℕ) (message : Bytes) (earlier : List (ℕ × Bytes))
      → IsField message
      → IsField s.user_name
      → IsField s.id_program
      → text_eq s.id_program r.id_program ≡ false
      → (bytes : Bytes) × (send_message q s 2 message s.id_program to ≡ datagram to bytes ∷ [])
        × (slot_read_messages q r (earlier ++ (from, bytes) ∷ [])
            ≡ ok
                (record r {
                  list_messages = r.list_messages ++ shown_lines message s.user_name s.id_program;
                })
                (new_message ∷ []))
  unfolding send_message show_message
  message_arrives s r from to message earlier m n i other = (
    packet q (codes "2/") message s.user_name s.id_program,
    refl,
    slot_read_messages_last q r earlier
          (from, packet q (codes "2/") message s.user_name s.id_program)
        ∙ read_packet r from 50 (codes "/") message s.user_name s.id_program message s.user_name
            s.id_program [] (omega arith)
            (fields-Lacks (codes "2/") message s.user_name s.id_program (omega arith) m n i) refl
            ((omega arith, tt), (m.0, (n.0, (i.0, tt)))) other,
  )

  -- A slash in the message moves the fields: the part before it is shown as the text, the part up to
  -- the next slash as the sender's name, and the sender's name as the id.
  message_cut :
      (s r : ChatNetwork) (from to : ℕ) (before after : Bytes)
      → IsField before
      → IsField after
      → IsField s.user_name
      → IsField s.id_program
      → text_eq s.user_name r.id_program ≡ false
      → (bytes : Bytes) × (send_message q s 2 (before ++ (47 ∷ after)) s.id_program to
          ≡ datagram to bytes ∷ [])
        × (slot_read_messages q r ((from, bytes) ∷ []) ≡ show_message r before after s.user_name)
  unfolding send_message
  message_cut s r from to before after b a n i other = (
    packet q (codes "2/") (before ++ (47 ∷ after)) s.user_name s.id_program,
    refl,
    read_packet r from 50 (codes "/") (before ++ (47 ∷ after)) s.user_name s.id_program before after
        s.user_name (s.id_program ∷ []) (omega arith)
        (
          omega arith,
          (
            omega arith,
            All-append (λ c. c ≢ 0) (before ++ (47 ∷ after)) _
                (All-append (λ c. c ≢ 0) before (47 ∷ after) b.1 (omega arith, a.1))
                (omega arith, All-append (λ c. c ≢ 0) s.user_name _ n.1 (omega arith, i.1)),
          ),
        )
        (rw (append_assoc before (47 ∷ after) (47 ∷ (s.user_name ++ (47 ∷ s.id_program)))))
        ((omega arith, tt), (b.0, (a.0, (n.0, (i.0, tt))))) other,
  )
