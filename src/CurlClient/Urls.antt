-- ===== src/CurlClient/Urls.antt =====
-- What lesson7/libcurl_client/main.cpp asks the server for.
use gb_cpp_network_programmi.Base.{
  ◌≡◌, ◌≤◌, refl, inl, inr, Bool, true, false, ◌&&◌, List, [], ◌∷◌, ◌++◌, Bytes, length, ltb,
  text_eq, codes, Option, none, some, if◌then◌else◌, Bool-cases, arith,
}
use gb_cpp_network_programmi.Base.Fallible.{◌>>=◌}
use gb_cpp_network_programmi.CurlClient.{
  Transfer, Session, ask_user, ask_message, ask_exit, write_all, perform, auth_url,
  client_autorization_request, send_message, after_authorization, exits, run_session,
}

-- A session in which the user types a login, a password, a message and `exit`.
abbrev pub session : Bytes → Bytes → Bytes → List Transfer → Session
session login password message transfers = record {
  typed = login ∷ password ∷ message ∷ codes "exit" ∷ [];
  transfers = transfers;
  buffer = [];
  requested = [];
  printed = [];
}

-- The URLs asked for, `none` while the program waits.
abbrev pub urls : Option Session → Option (List Bytes)
urls none = none
urls (some s) = some s.requested

module _ (address login password message : Bytes) (t u : Transfer) (long_login : 4 ≤ length login)
    (long_password : 4 ≤ length password) (some_message : 1 ≤ length message) where
  -- The session behind the first transfer.
  abbrev asked : Session
  asked = record {
    typed = message ∷ codes "exit" ∷ [];
    transfers = u ∷ [];
    buffer = write_all [] t.chunks;
    requested = auth_url address login password ∷ [];
    printed = [];
  }

  authorization_asked :
      client_autorization_request (session login password message (t ∷ u ∷ [])) address
      ≡ some (t.is_ok, asked)
  unfolding client_autorization_request ask_user perform
  authorization_asked =
      let p : ltb (length login) 4 ≡ false = ground arith in
      let q : ltb (length password) 4 ≡ false = ground arith in rw (p, q) refl

  -- What is left to type, whatever the message is.
  exit_typed :
      (s : Session) → s.typed ≡ message ∷ codes "exit" ∷ [] → urls (exits s) ≡ some s.requested
  unfolding exits ask_exit text_eq
  exit_typed s e =
      rw e (elim (Bool-cases (text_eq message (codes "exit"))) [
        | inl k ↦ rw k refl
        | inr k ↦ rw k refl
      ])

  exit_last : (s : Session) → s.typed ≡ codes "exit" ∷ [] → urls (exits s) ≡ some s.requested
  unfolding exits ask_exit text_eq
  exit_last s e = rw e refl

  behind_answer :
      (b : Bool)
      → urls (after_authorization asked address b >>= exits)
        ≡ some (
            if b && text_eq (write_all [] t.chunks) (codes "Ok")
            then auth_url address login password
              ∷ ((address ++ codes "message?body=") ++ message)
              ∷ []
            else auth_url address login password ∷ [])
  unfolding after_authorization send_message ask_message perform
  behind_answer false = exit_typed _ refl
  behind_answer true = elim (Bool-cases (text_eq (write_all [] t.chunks) (codes "Ok"))) [
    | inl e ↦ let m : ltb (length message) 1 ≡ false = ground arith in rw (e, m) (exit_last _ refl)
    | inr e ↦ rw e (exit_typed _ refl)
  ]

  -- With words that are long enough, the client asks for an authorization, and for the message only
  -- if that transfer succeeds with the text `Ok`.
  pub run_session-urls :
      urls (run_session (session login password message (t ∷ u ∷ [])) address true)
      ≡ some (
          if t.is_ok && text_eq (write_all [] t.chunks) (codes "Ok")
          then auth_url address login password
            ∷ ((address ++ codes "message?body=") ++ message)
            ∷ []
          else auth_url address login password ∷ [])
  unfolding run_session
  run_session-urls = rw authorization_asked (behind_answer t.is_ok)
