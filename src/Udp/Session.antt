-- ===== src/Udp/Session.antt =====
-- The exchange of lesson1/udp_client/main.cpp with lesson1/udp_server/main.cpp, word after word.
use gb_cpp_network_programmi.Base.{
  ℕ, stoi, leb, ◌<◌, ◌≡◌, refl, ap, ◌∙◌, sym, true, false, List, [], ◌∷◌, ◌++◌, Bytes, length, map,
  codes, text_eq, IsNonzero, some, append_assoc, append-nil, arith,
}
use gb_cpp_network_programmi.Base.Fields.{All}
use gb_cpp_network_programmi.Posix.{got}
use gb_cpp_network_programmi.Udp.{
  turned, udp_turn, running, udp_loop, type_word, show_reply, Round, asking, client_loop, ask_port,
  port_typed, is_port,
}
use gb_cpp_network_programmi.Udp.Echo.{echo_arrives}

-- What can be typed: a word that fits the client's array, and is not the command.
abbrev pub IsTyped : Bytes → Type 0
IsTyped word =
    (length word < 255) × (0 < length word) × IsNonzero word × (text_eq word (codes "exit") ≡ false)

-- A word that `stoi` reads as a positive number, and that fits the array.
pub record IsPort (port : Bytes) : Type 0 where
  pub number : ℕ
  pub parses : stoi port ≡ some number
  pub positive : is_port number ≡ true
  pub fits : length port < 255

-- What is typed: for each word the port, the word, and the answer to the question whether to go on.
abbrev pub typed_words : Bytes → Bytes → List Bytes → List Bytes
typed_words port answer [] = []
typed_words port answer (word ∷ words) = port ∷ word ∷ answer ∷ typed_words port answer words

-- The rounds of a client that is sent these datagrams.
abbrev pub rounds : List Bytes → List Round
rounds [] = []
rounds (d ∷ ds) = record { has_socket = true; reply = got d } ∷ rounds ds

-- The datagrams have the size of the client's array, and each one is shown as the word that was typed, if it comes back.
abbrev pub Carry : List Bytes → List Bytes → Type 0
Carry [] [] = Unit
Carry [] (d ∷ ds) = ⊥
Carry (word ∷ words) [] = ⊥
Carry (word ∷ words) (d ∷ ds) =
    (length d ≡ 255) × ((show_reply d (got d)).1 ≡ some (some word)) × Carry words ds

ask_port_first :
    (port : Bytes) (typed : List Bytes) → IsPort port → ask_port (port ∷ typed) ≡ port_typed typed
unfolding ask_port
ask_port_first port typed p =
    let f : leb 255 (length port) ≡ false = ground (arith, p.fits) in rw (f, p.parses, p.positive)

client_step :
    (port answer : Bytes)
    → IsPort port
    → length answer < 255
    → (mine sent mine' word : Bytes) (typed sents : List Bytes) (rs : List Round) (shown : Bytes)
    → type_word mine word ≡ some sent
    → show_reply sent (got sent) ≡ (mine', some (some shown))
    → client_loop mine
        (port ∷ word ∷ answer ∷ typed)
        sents
        (record { has_socket = true; reply = got sent } ∷ rs)
      ≡ client_loop mine' typed (sents ++ (sent ∷ [])) rs
unfolding client_loop
client_step port answer p h mine sent mine' word typed sents rs shown t s =
    let fits : leb 255 (length answer) ≡ false = ground arith in
    rw (ask_port_first port (word ∷ answer ∷ typed) p, t, fits)
      (ap (λ r. client_loop r.0 typed (sents ++ (sent ∷ [])) rs) s)

server_step :
    (theirs sent theirs' : Bytes) (sents : List Bytes) (ds : List Bytes)
    → udp_turn theirs (got sent) ≡ turned theirs' (some sent) false
    → udp_loop theirs sents (map got (sent ∷ ds))
      ≡ udp_loop theirs' (sents ++ (sent ∷ [])) (map got ds)
unfolding udp_loop
server_step theirs sent theirs' sents ds t = rw t refl

module _ (port answer : Bytes) (p : IsPort port) (a : length answer < 255) where
  -- The exchange behind earlier words.
  exchanged :
      (mine theirs : Bytes) (sents backs : List Bytes) (words : List Bytes)
      → length mine ≡ 255
      → length theirs ≡ 256
      → All IsTyped words
      → (ds : List Bytes) × (mine' theirs' : Bytes) × Carry words ds
        × (client_loop mine (typed_words port answer words) sents (rounds ds)
            ≡ asking mine' (sents ++ ds))
        × (udp_loop theirs backs (map got ds) ≡ running theirs' (backs ++ ds))
  unfolding client_loop udp_loop
  exchanged mine theirs sents backs [] m t h = (
    [],
    mine,
    theirs,
    tt,
    ap (asking mine) (sym (append-nil sents)),
    ap (running theirs) (sym (append-nil backs)),
  )
  exchanged mine theirs sents backs ([] ∷ words) m t h = absurd (omega (arith, h.0.1))
  exchanged mine theirs sents backs ((c ∷ word) ∷ words) m t
        ((fits, some_bytes, nonzero, other), more) =
      let (sent, mine', theirs', typed, size, back, shown, m', t') =
        echo_arrives mine theirs c word m t nonzero fits in
      let (ds, mine'', theirs'', carry, asks, runs) =
        exchanged mine' theirs' (sents ++ (sent ∷ [])) (backs ++ (sent ∷ [])) words m' t' more in
      (
        sent ∷ ds,
        mine'',
        theirs'',
        (size, ap (λ r. r.1) shown, carry),
        client_step port answer p a mine sent mine' (c ∷ word) (typed_words port answer words) sents
              (rounds ds) (c ∷ word) typed shown
            ∙ asks
            ∙ ap (asking mine'') (append_assoc sents (sent ∷ []) ds),
        server_step theirs sent theirs' backs ds (back ∙ ap (turned theirs' (some sent)) other)
            ∙ runs
            ∙ ap (running theirs'') (append_assoc backs (sent ∷ []) ds),
      )

  -- A client that types words which fit its array, have no zeros and are not the command, each behind a
  -- port, and a server: the client sends a datagram of 255 bytes for each word, the server answers each
  -- with itself and stays in its loop, and the client shows each word as it was typed and goes on asking,
  -- whatever answer of less than 255 bytes it is given to the question whether it should.
  pub words_return :
      (mine theirs : Bytes) (words : List Bytes)
      → length mine ≡ 255
      → length theirs ≡ 256
      → All IsTyped words
      → (ds : List Bytes) × (mine' theirs' : Bytes) × Carry words ds
        × (client_loop mine (typed_words port answer words) [] (rounds ds) ≡ asking mine' ds)
        × (udp_loop theirs [] (map got ds) ≡ running theirs' ds)
  words_return mine theirs words m t h = exchanged mine theirs [] [] words m t h
