-- ===== src/CurlClient.antt =====
-- lesson7/libcurl_client/main.cpp. What is typed is a list of words, without zero bytes; libcurl is
-- the list of what it answers to each `curl_easy_perform`.
use gb_cpp_network_programmi.Base.{
  ℕ, ◌*◌, Bool, true, false, ◌||◌, List, [], ◌∷◌, ◌++◌, Bytes, length, ltb, take, text_eq, codes,
  Option, none, some, if◌then◌else◌,
}
use gb_cpp_network_programmi.Base.Fallible.{◌>>=◌}
pub mod Urls

-- The chunks that the transfer delivers, and whether the result is CURLE_OK.
pub record Transfer : Type 0 where
  pub chunks : List Bytes
  pub is_ok : Bool

pub record Session : Type 0 where
  pub typed : List Bytes
  pub transfers : List Transfer
  pub buffer : Bytes
  pub requested : List Bytes
  pub printed : List Bytes

-- `Response_Writer`: the new buffer and the count that it returns; no buffer takes nothing.
unfoldable pub response_writer : Bytes → ℕ → ℕ → Option Bytes → Option Bytes × ℕ
response_writer text size nmember none = (none, 0)
response_writer text size nmember (some buffer) =
    (some (buffer ++ take (size * nmember) text), size * nmember)

-- The do loops, `none` while they wait for words.
unfoldable pub ask_user : List Bytes → Option ((Bytes × Bytes) × List Bytes)
ask_user [] = none
ask_user (login ∷ []) = none
ask_user (login ∷ password ∷ typed) =
    let again = ask_user typed in
    if ltb (length login) 4 || ltb (length password) 4
    then again
    else some ((login, password), typed)

unfoldable pub ask_message : List Bytes → Option (Bytes × List Bytes)
ask_message [] = none
ask_message (message ∷ typed) =
    let again = ask_message typed in if ltb (length message) 1 then again else some (message, typed)

unfoldable pub ask_exit : List Bytes → Option (List Bytes)
ask_exit [] = none
ask_exit (answer ∷ typed) =
    let again = ask_exit typed in if text_eq answer (codes "exit") then some typed else again

abbrev kept : Bytes → Option Bytes → Bytes
kept buffer none = buffer
kept buffer (some buffer') = buffer'

-- All chunks go through the writer, as members of one byte.
unfoldable pub write_all : Bytes → List Bytes → Bytes
write_all buffer [] = buffer
write_all buffer (chunk ∷ chunks) =
    write_all (kept buffer (response_writer chunk 1 (length chunk) (some buffer)).0) chunks

-- `curl_easy_perform` of the URL that was set: `none` while it does not return.
unfoldable pub perform : Session → Bytes → Option (Bool × Session)
perform s url = elim s.transfers [
  | [] ↦ none
  | t ∷ ts ↦ some (
    t.is_ok,
    record s {
      transfers = ts;
      buffer = write_all s.buffer t.chunks;
      requested = s.requested ++ (url ∷ []);
    },
  )
]

-- The URL of an authorization.
abbrev pub auth_url : Bytes → Bytes → Bytes → Bytes
auth_url address login password =
    address ++ (codes "?login=" ++ (login ++ (codes "&pass=" ++ password)))

unfoldable pub client_autorization_request : Session → Bytes → Option (Bool × Session)
client_autorization_request s address = do
  ((login, password), typed) ← ask_user s.typed
  perform (record s { typed = typed }) (auth_url address login password)

-- `Send_Message`: the option that names the buffer is still set.
unfoldable pub send_message : Session → Bytes → Option (Bool × Session)
send_message s address = do
  (message, typed) ← ask_message s.typed
  perform (record s { typed = typed }) (address ++ message)

abbrev print : Session → Bytes → Session
print s line = record s { printed = s.printed ++ (line ∷ []) }

-- What follows the answer to the authorization.
unfoldable pub after_authorization : Session → Bytes → Bool → Option Session
after_authorization s address false = some (print s (codes "Error sending the request!"))
after_authorization s address true =
    if text_eq s.buffer (codes "Ok")
    then (do
      (sent, s') ← send_message s (address ++ codes "message?body=")
      some (
          print s' (
            if sent
            then codes "The message was sent successfully!"
            else codes "Error sending the message!")))
    else some (print s (codes "Authorization failed with an error!"))

abbrev pub server_address : Bytes → Bytes → Bytes
server_address host port = codes "http://" ++ (host ++ (codes ":" ++ (port ++ codes "/")))

-- The last loop of `main`.
unfoldable pub exits : Session → Option Session
exits s = do typed ← ask_exit s.typed; some (record s { typed = typed })

-- `main` behind its arguments: whether libcurl gave a handle.
unfoldable pub run_session : Session → Bytes → Bool → Option Session
run_session s address false = exits s
run_session s address true = do
  (result, s') ← client_autorization_request s address
  s'' ← after_authorization s' address result
  exits s''

-- How `main` ends: a missing argument is a null pointer to `append`.
pub data Ending : Type 0 where
  undefined waits : Ending
  returned : Session → Ending

-- `main` of its arguments behind the program's name.
unfoldable pub curl_main : List Bytes → Session → Bool → Ending
curl_main [] s has_curl = undefined
curl_main (host ∷ []) s has_curl = undefined
curl_main (host ∷ port ∷ more) s has_curl =
    elim (run_session s (server_address host port) has_curl) [
      | none ↦ waits
      | some s' ↦ returned s'
    ]
