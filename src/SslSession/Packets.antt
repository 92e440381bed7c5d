-- ===== src/SslSession/Packets.antt =====
-- What the user of lesson6/qssl_client/main.cpp types, and what the client sends of it.
use gb_cpp_network_programmi.Base.{
  ℕ, suc, ◌≡◌, sym, subst, ap, ◌∙◌, inl, inr, List, [], ◌∷◌, ◌++◌, Bytes, length, codes, text_eq,
  some, Bool-cases, ltb, ◌||◌,
}
use gb_cpp_network_programmi.Base.Fallible.{bind-some, some-injective}
use gb_cpp_network_programmi.Qt.{Qt, IsQt, All}
use gb_cpp_network_programmi.SslServer.Fields.{IsValue}
use gb_cpp_network_programmi.SslClient.{
  Client, ask_login, ask_message, ask_exit, login_request, message_request, send_message,
  slot_new_connection, slot_repeat_request,
}

-- What is left to type behind a login, a message or an exit was typed.
ask_login-typed :
    (typed rest : List Bytes) (login password : Bytes)
    → All IsValue typed
    → ask_login typed ≡ some ((login, password), rest)
    → IsValue login × All IsValue rest
unfolding ask_login
ask_login-typed [] rest login password h e = cc
ask_login-typed (l ∷ []) rest login password h e = cc
ask_login-typed (l ∷ p ∷ typed) rest login password h e =
    elim (Bool-cases (ltb (length p) 4 || ltb (length l) 4)) [
      | inl again ↦ ask_login-typed typed rest login password h.1.1 (rw again at e)
      | inr taken ↦
          let x = some-injective ((l, p), typed) ((login, password), rest) (rw taken at e) in
          (subst IsValue (ap (λ r. r.0.0) x) h.0, subst (All IsValue) (ap (λ r. r.1) x) h.1.1)
    ]

ask_message-typed :
    (typed rest : List Bytes) (message : Bytes)
    → All IsValue typed
    → ask_message typed ≡ some (message, rest)
    → IsValue message × All IsValue rest
unfolding ask_message
ask_message-typed [] rest message h e = cc
ask_message-typed (m ∷ typed) rest message h e = elim (Bool-cases (ltb (length m) 1)) [
  | inl again ↦ ask_message-typed typed rest message h.1 (rw again at e)
  | inr taken ↦
      let x = some-injective (m, typed) (message, rest) (rw taken at e) in
      (subst IsValue (ap (λ r. r.0) x) h.0, subst (All IsValue) (ap (λ r. r.1) x) h.1)
]

pub ask_exit-typed :
    (typed rest : List Bytes) → All IsValue typed → ask_exit typed ≡ some rest → All IsValue rest
unfolding ask_exit
ask_exit-typed [] rest h e = cc
ask_exit-typed (w ∷ typed) rest h e = elim (Bool-cases (text_eq w (codes "exit"))) [
  | inl taken ↦ subst (All IsValue) (some-injective typed rest (rw taken at e)) h.1
  | inr again ↦ ask_exit-typed typed rest h.1 (rw again at e)
]

-- A client in its session: what is left to type are values, the socket has been given nothing more, and
-- the slot that reads answers is connected.
abbrev pub InSession : Client → Type 0
InSession c = All IsValue c.typed × ((n : ℕ) × (c.connections ≡ suc n))

-- A client that has just sent a login, or a message.
abbrev pub SendsLogin : Qt → Client → Type 0
SendsLogin q c =
    (host login secret : Bytes) × IsValue login
    × IsValue secret
    × (c.sent ≡ login_request q host login secret ∷ [])

abbrev pub SendsMessage : Qt → Client → Type 0
SendsMessage q c =
    (host message : Bytes) × IsValue message × (c.sent ≡ message_request q host message ∷ [])

-- A socket that was given nothing, given a request that was empty.
only_one :
    (sent : List Bytes) (request text : Bytes)
    → sent ≡ []
    → request ≡ []
    → sent ++ ((request ++ text) ∷ []) ≡ text ∷ []
only_one sent request text s r = rw (s, r)

module _ (q : Qt) (L : IsQt q) (md5_hex : Bytes → Bytes)
    (hex : (s : Bytes) → IsValue (md5_hex s)) where
  abbrev login_made : Client → Bytes → Bytes → List Bytes → Client
  login_made c login secret rest = slot_repeat_request (record c {
    typed = rest;
    connections = suc c.connections;
    request = c.request ++ login_request q c.host_name login secret;
  })

  abbrev message_made : Client → Bytes → List Bytes → Client
  message_made c message rest =
      slot_repeat_request
        (record c { typed = rest; request = c.request ++ message_request q c.host_name message })

  pub login-Sends :
      (c c' : Client)
      → All IsValue c.typed
      → c.request ≡ []
      → c.sent ≡ []
      → slot_new_connection q md5_hex c ≡ some c'
      → InSession c' × SendsLogin q c'
  unfolding slot_new_connection
  login-Sends c c' typed request sent e =
      let (((login, password), rest), asked, made) = bind-some (ask_login c.typed) _ c' e in
      let (l, r) = ask_login-typed c.typed rest login password typed asked in
      let secret : Bytes = md5_hex (q.to_utf8 password) in
      let m : login_made c login secret rest ≡ c' = cc in
      (
        (
          subst (All IsValue) (ap (λ k. k.typed) m) r,
          (c.connections, ap (λ k. k.connections) (sym m)),
        ),
        (
          c.host_name,
          login,
          secret,
          l,
          hex (q.to_utf8 password),
          ap (λ k. k.sent) (sym m)
              ∙ only_one c.sent c.request (login_request q c.host_name login secret) sent request,
        ),
      )

  pub message-Sends :
      (c c' : Client)
      → All IsValue c.typed
      → c.request ≡ []
      → c.sent ≡ []
      → send_message q c ≡ some c'
      → All IsValue c'.typed × (c'.connections ≡ c.connections) × SendsMessage q c'
  unfolding send_message
  message-Sends c c' typed request sent e =
      let ((message, rest), asked, made) = bind-some (ask_message c.typed) _ c' e in
      let (m, r) = ask_message-typed c.typed rest message typed asked in
      let k : message_made c message rest ≡ c' = cc in
      (
        subst (All IsValue) (ap (λ k. k.typed) k) r,
        ap (λ k. k.connections) (sym k),
        (
          c.host_name,
          message,
          m,
          ap (λ k. k.sent) (sym k)
              ∙ only_one c.sent c.request (message_request q c.host_name message) sent request,
        ),
      )
