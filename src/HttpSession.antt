-- ===== src/HttpSession.antt =====
-- lesson7: what lesson7/libcurl_client/main.cpp does with the answers of
-- lesson7/libhttpserver_server/main.cpp.
use gb_cpp_network_programmi.Base.{
  ◌*◌, ◌≡◌, ◌≤◌, refl, sym, ap, ◌∙◌, ◌⊎◌, inl, inr, true, List, [], ◌∷◌, ◌++◌, append_assoc,
  append-nil, Bytes, length, take, take_all, text_eq, codes, Option, some, arith,
}
use gb_cpp_network_programmi.HttpServer.{Response, not_found, auth_render, load_users, serve}
use gb_cpp_network_programmi.HttpServer.Query.{IsArgument, IsQuery}
use gb_cpp_network_programmi.HttpServer.Auth.{HasEither, Answers, password_ignored}
use gb_cpp_network_programmi.CurlClient.{
  Transfer, response_writer, write_all, auth_url, run_session,
}
use gb_cpp_network_programmi.CurlClient.Urls.{session, urls, run_session-urls}

-- The data of a transfer, in whatever pieces it comes.
abbrev pub joined : List Bytes → Bytes
joined [] = []
joined (chunk ∷ chunks) = chunk ++ joined chunks

write_all-joined :
    (chunks : List Bytes) (buffer : Bytes) → write_all buffer chunks ≡ buffer ++ joined chunks
unfolding write_all response_writer
write_all-joined [] buffer = sym (append-nil buffer)
write_all-joined (chunk ∷ chunks) buffer =
    let whole : take (1 * length chunk) chunk ≡ chunk =
      take_all (1 * length chunk) chunk (omega arith) in
    rw whole (write_all-joined chunks (buffer ++ chunk)) ∙ append_assoc buffer chunk (joined chunks)

-- A transfer that brings a response.
pub record Brings (t : Transfer) (r : Response) : Type 0 where
  pub is_ok : t.is_ok ≡ true
  pub content : joined t.chunks ≡ r.content

module _ (address login password message : Bytes) where
  abbrev pub auth_request : Bytes
  auth_request = auth_url address login password

  abbrev pub message_url : Bytes
  message_url = (address ++ codes "message?body=") ++ message

  -- The requests of a client whose login is known, and of one whose login is not.
  abbrev pub Asks : List (Bytes × Bytes) → Option (List Bytes) → Type 0
  Asks users asked =
      (HasEither login [] users × (asked ≡ some (auth_request ∷ message_url ∷ [])))
      ⊎ ((¬ HasEither login [] users) × (asked ≡ some (auth_request ∷ [])))

  answered :
      (users : List (Bytes × Bytes)) (t u : Transfer) (r : Response)
      → Answers login [] users r
      → Brings t r
      → 4 ≤ length login
      → 4 ≤ length password
      → 1 ≤ length message
      → Asks users (urls (run_session (session login password message (t ∷ u ∷ [])) address true))
  unfolding not_found text_eq
  answered users t u r (inl (has, e)) b l p m =
      let w : write_all [] t.chunks ≡ codes "Ok" =
        write_all-joined t.chunks [] ∙ b.content ∙ ap (λ r. r.content) e in
      inl (has, run_session-urls address login password message t u l p m ∙ rw (b.is_ok, w) refl)
  answered users t u r (inr (lacks, e)) b l p m =
      let w : write_all [] t.chunks ≡ codes "Not found" =
        write_all-joined t.chunks [] ∙ b.content ∙ ap (λ r. r.content) e in
      inr (lacks, run_session-urls address login password message t u l p m ∙ rw (b.is_ok, w) refl)

  -- A client and its server, over a library that reads two arguments as it should: with words that are long
  -- enough and need no escape, and a transfer that brings the server's answer in whatever pieces, the
  -- client sends its message just if some user has its login or some user has the empty password, whatever
  -- its own password is.
  pub session_by_login :
      (args : Bytes → Bytes → Bytes) (file : Option (List Bytes)) (t u : Transfer)
      → IsQuery args
      → IsArgument address
      → IsArgument login
      → IsArgument password
      → Brings t (serve file (codes "/") (args auth_request))
      → 4 ≤ length login
      → 4 ≤ length password
      → 1 ≤ length message
      → Asks
          (load_users file)
          (urls (run_session (session login password message (t ∷ u ∷ [])) address true))
  unfolding serve text_eq
  session_by_login args file t u law a l p b ll lp lm =
      answered (load_users file) t u (auth_render file (args auth_request))
        (password_ignored args file address login password law a l p) b ll lp lm
