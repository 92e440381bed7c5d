-- ===== src/SslSession/Turns.antt =====
-- Whose turn it is between lesson6/qssl_client/main.cpp and lesson6/qssl_server/main.cpp, and that its turn
-- ends.
use gb_cpp_network_programmi.Base.{
  ℕ, zero, suc, ◌≡◌, refl, ap, ◌∙◌, ◌⊎◌, inl, inr, Bool-cases, List, [], ◌∷◌, ◌++◌, Bytes, length,
  codes, ltb, ◌||◌, Option, some, arith,
}
use gb_cpp_network_programmi.Base.Fallible.{bind-eq}
use gb_cpp_network_programmi.Qt.{Qt, IsQt, All}
use gb_cpp_network_programmi.SslServer.{ThisServer, handled, reply, slot_ready_request}
use gb_cpp_network_programmi.SslServer.Fields.{IsValue}
use gb_cpp_network_programmi.SslServer.Login.{login_answered}
use gb_cpp_network_programmi.SslClient.{
  Client, ask_login, ask_message, send_message, slot_new_connection, slot_read_responce, read_again,
  ready_times, ready_read,
}
use gb_cpp_network_programmi.SslClient.Replies.{answered, answers_understood, ready_twice}
use gb_cpp_network_programmi.SslSession.{System}
use gb_cpp_network_programmi.SslSession.Packets.{InSession}
use gb_cpp_network_programmi.SslSession.Serving.{
  Phase, login_sent, login_refused, admitted, message_sent, message_read,
}

-- Three words that can be a login, a password and a message.
abbrev pub words : List Bytes
words = codes "word" ∷ codes "word" ∷ codes "word" ∷ []

pub words-IsValue : All IsValue words
words-IsValue = omega arith

-- Whatever was typed before, these words end the loops that ask.
ask_login_ends :
    (typed : List Bytes)
    → (login password : Bytes) × (rest : List Bytes) × (ask_login (typed ++ words)
        ≡ some ((login, password), rest))
unfolding ask_login
ask_login_ends [] = (_, _, _, refl)
ask_login_ends (l ∷ []) = elim (Bool-cases (ltb 4 4 || ltb (length l) 4)) [
  | inl again ↦ (codes "word", codes "word", [], rw again refl)
  | inr taken ↦ (l, codes "word", codes "word" ∷ codes "word" ∷ [], rw taken refl)
]
ask_login_ends (l ∷ p ∷ typed) = elim (Bool-cases (ltb (length p) 4 || ltb (length l) 4)) [
  | inl again ↦
      let (login, password, rest, e) = ask_login_ends typed in (login, password, rest, rw again e)
  | inr taken ↦ (l, p, typed ++ words, rw taken refl)
]

ask_message_ends :
    (typed : List Bytes)
    → (message : Bytes) × (rest : List Bytes) × (ask_message (typed ++ words)
        ≡ some (message, rest))
unfolding ask_message
ask_message_ends [] = (_, _, refl)
ask_message_ends (m ∷ typed) = elim (Bool-cases (ltb (length m) 1)) [
  | inl again ↦ let (message, rest, e) = ask_message_ends typed in (message, rest, rw again e)
  | inr taken ↦ (m, typed ++ words, rw taken refl)
]

abbrev pub types : Client → Client
types c = record c { typed = c.typed ++ words }

module _ (q : Qt) (L : IsQt q) (md5_hex : Bytes → Bytes) where
  -- A step of the client that returns and leaves its socket open or closed as it was.
  abbrev pub Returns : Client → Option Client → Type 0
  Returns c o = (c' : Client) × (o ≡ some c') × (c'.is_open ≡ c.is_open)

  login-Returns : (c : Client) → Returns c (slot_new_connection q md5_hex (types c))
  unfolding slot_new_connection
  login-Returns c =
      let (login, password, rest, e) = ask_login_ends c.typed in (_, bind-eq _ _ _ e, refl)

  message-Returns : (c : Client) → Returns c (send_message q (types c))
  unfolding send_message
  message-Returns c =
      let (message, rest, e) = ask_message_ends c.typed in (_, bind-eq _ _ _ e, refl)

  times-Returns :
      (c d : Client) (n : ℕ) (input : Bytes)
      → Returns c (slot_read_responce q md5_hex d input)
      → Returns c (ready_times q md5_hex (suc n) d input)
  unfolding ready_times read_again
  times-Returns c d zero input (r, h, o) = (r, rw h refl, o)
  times-Returns c d (suc n) input (r, h, o) = (answered r, ready_twice q L md5_hex d r n input h, o)

  answer-Returns :
      (c : Client) (input : Bytes)
      → (input ≡ reply q 200) ⊎ (input ≡ reply q 401)
      → Returns c (slot_read_responce q md5_hex (types c) input)
  answer-Returns c input (inl e) =
      let (c', h, o) = message-Returns (answered c) in
      (
        c',
        ap (slot_read_responce q md5_hex (types c)) e
            ∙ (answers_understood q L md5_hex (types c)).0
            ∙ h,
        o,
      )
  answer-Returns c input (inr e) =
      let (c', h, o) = login-Returns (answered c) in
      (
        c',
        ap (slot_read_responce q md5_hex (types c)) e
            ∙ (answers_understood q L md5_hex (types c)).1
            ∙ h,
        o,
      )

  pub read-Returns :
      (c : Client) (input : Bytes)
      → InSession c
      → (input ≡ reply q 200) ⊎ (input ≡ reply q 401)
      → Returns c (ready_read q md5_hex (types c) input)
  unfolding ready_read
  read-Returns c input (typed, (n, e)) known =
      let (c', h, o) = times-Returns c (types c) n input (answer-Returns c input known) in
      (c', ap (λ k. ready_times q md5_hex k (types c) input) e ∙ h, o)

  -- Where the packet is, and that its reader answers it.
  abbrev pub AtServer : System → Type 0
  AtServer sys =
      (input packet : Bytes) × (s : ThisServer) × (sys.to_server ≡ input ∷ [])
      × (sys.to_client ≡ [])
      × (slot_ready_request q sys.server input ≡ handled s (packet ∷ []))
      × (s.ssl_client.is_open ≡ sys.server.ssl_client.is_open)

  abbrev pub AtClient : System → Type 0
  AtClient sys =
      (input : Bytes) × (sys.to_server ≡ [])
      × (sys.to_client ≡ input ∷ [])
      × ((input ≡ reply q 200) ⊎ (input ≡ reply q 401))

  pub Phase-turn : (sys : System) → Phase q sys → AtServer sys ⊎ AtClient sys
  Phase-turn sys (login_sent host login secret l k out back fresh) =
      elim (login_answered q L sys.server host login secret l k fresh) [
        | inl (listed, r) ↦ inl (_, _, _, out, back, r, refl)
        | inr (unlisted, r) ↦ inl (_, _, _, out, back, r, refl)
      ]
  Phase-turn sys (login_refused out back fresh) = inr (_, out, back, inr refl)
  Phase-turn sys (admitted out back known) = inr (_, out, back, inl refl)
  Phase-turn sys (message_sent host message m out back known) =
      inl (_, _, _, out, back, message_read q L sys.server host message m known, refl)
