-- ===== src/SslServer/Fields.antt =====
-- The text of a login request of lesson6/qssl_client/main.cpp, and its parts.
use gb_cpp_network_programmi.Base.{
  ℕ, ◌≡◌, ◌≢◌, ◌<◌, sym, ap, ◌∙◌, [], ◌∷◌, ◌++◌, Bytes, append_assoc, codes, get_or, arith,
}
use gb_cpp_network_programmi.Qt.{Qt, IsQt, All, All-append, Lacks, IsWord, join}
use gb_cpp_network_programmi.SslClient.{headers, login_request, message_request}

-- An ASCII text that can be a value of the path: it holds none of the characters that divide a request.
abbrev pub IsValue : Bytes → Type 0
IsValue s =
    All (λ c. c < 128) s
    × Lacks 32 s
    × Lacks 13 s
    × Lacks 10 s
    × Lacks 47 s
    × Lacks 61 s
    × Lacks 38 s

abbrev pub command : Bytes → Bytes → Bytes
command login secret = codes "login=" ++ (login ++ (codes "&password=" ++ secret))

abbrev pub path : Bytes → Bytes → Bytes
path login secret = codes "/authorization/" ++ command login secret

module _ (q : Qt) (L : IsQt q) where
  -- The path of the request line, with nothing in it that divides the line.
  path-Lacks :
      (c : ℕ) (login secret : Bytes)
      → Lacks c (codes "/authorization/login=")
      → Lacks c (codes "&password=")
      → Lacks c login
      → Lacks c secret
      → Lacks c (path login secret)
  path-Lacks c login secret a b l s =
      All-append (λ x. x ≢ c) (codes "/authorization/login=") _ a
        (All-append (λ x. x ≢ c) login _ l
          (All-append (λ x. x ≢ c) (codes "&password=") secret b s))

  path_ascii :
      (login secret : Bytes)
      → All (λ c. c < 128) login
      → All (λ c. c < 128) secret
      → All (λ c. c < 128) (path login secret)
  path_ascii login secret l s =
      All-append (λ c. c < 128) (codes "/authorization/login=") _ (omega arith)
        (All-append (λ c. c < 128) login _ l
          (All-append (λ c. c < 128) (codes "&password=") secret (omega arith) s))

  -- The login and the secret that the server cuts out of the command.
  pub command_fields :
      (login secret : Bytes)
      → IsValue login
      → IsValue secret
      → (q.section (q.section (command login secret) 61 1) 38 0 ≡ login)
        × (q.section (command login secret) 61 2 ≡ secret)
  command_fields login secret (a, b, c, d, e, l61, l38) (a', b', c', d', e', k61, k38) = (
    ap (λ s. q.section s 38 0) (field 1)
        ∙ L.section-join 38 login (codes "password" ∷ []) 0 (l38, (omega arith, tt)),
    field 2,
  )
    where
      whole :
          command login secret
          ≡ join 61 (codes "login" ∷ (login ++ codes "&password") ∷ secret ∷ [])
      whole =
          ap (λ s. codes "login=" ++ s) (sym (append_assoc login (codes "&password") (61 ∷ secret)))

      field :
          (i : ℕ)
          → q.section (command login secret) 61 i
            ≡ get_or (codes "login" ∷ (login ++ codes "&password") ∷ secret ∷ []) i []
      field i = rw whole (
          L.section-join 61 (codes "login") ((login ++ codes "&password") ∷ secret ∷ []) i (
            omega arith,
            (All-append (λ x. x ≢ 61) login (codes "&password") l61 (omega arith), (k61, tt)),
          ))

  -- The first line of a request of the client, in words.
  pub get_tokens :
      (host target : Bytes)
      → All (λ c. c < 128) target
      → IsWord target
      → q.split_blank (q.first_line (codes "GET " ++ (target ++ headers q host)))
        ≡ codes "GET" ∷ target ∷ codes "HTTP/1.1" ∷ []
  get_tokens host target ascii (n, l32, l13, l10) =
      ap (λ s. q.split_blank (q.first_line s)) whole
      ∙ ap q.split_blank (
          L.first_line_crlf first rest all_ascii (line 10 (omega arith) (omega arith) l10)
            (line 13 (omega arith) (omega arith) l13))
      ∙ L.split_blank-join (codes "GET") (target ∷ codes "HTTP/1.1" ∷ []) (
        ((λ e. cc), omega arith, omega arith, omega arith),
        ((n, l32, l13, l10), (((λ e. cc), omega arith, omega arith, omega arith), tt)),
      )
    where
      first : Bytes
      first = codes "GET " ++ (target ++ codes " HTTP/1.1")

      rest : Bytes
      rest =
          codes "Host: "
          ++ (q.to_utf8 host
              ++ codes
                  "\r\nAccept: text/html\r\nAccept-Language: ru-RU\r\nConnection: Keep-Alive\r\n\r\n")

      all_ascii : All (λ c. c < 128) first
      all_ascii =
          All-append (λ c. c < 128) (codes "GET ") _ (omega arith)
            (All-append (λ c. c < 128) target _ ascii (omega arith))

      line :
          (c : ℕ)
          → Lacks c (codes "GET ")
          → Lacks c (codes " HTTP/1.1")
          → Lacks c target
          → Lacks c first
      line c x y l =
          All-append (λ x. x ≢ c) (codes "GET ") _ x (All-append (λ x. x ≢ c) target _ l y)

      whole : codes "GET " ++ (target ++ headers q host) ≡ first ++ (13 ∷ 10 ∷ rest)
      whole =
          ap (λ s. codes "GET " ++ s)
            (sym (append_assoc target (codes " HTTP/1.1") (13 ∷ 10 ∷ rest)))

  pub login_tokens :
      (host login secret : Bytes)
      → IsValue login
      → IsValue secret
      → q.split_blank (q.first_line (login_request q host login secret))
        ≡ codes "GET" ∷ path login secret ∷ codes "HTTP/1.1" ∷ []
  login_tokens host login secret (a, l32, l13, l10, l47, l61, l38)
        (a', k32, k13, k10, k47, k61, k38) =
      rw (L.to_utf8_ascii login a, L.to_utf8_ascii secret a')
        (ap (λ s. q.split_blank (q.first_line (codes "GET /authorization/login=" ++ s)))
            (ap (λ s. login ++ s) (sym (append_assoc (codes "&password=") secret (headers q host)))
              ∙ sym (append_assoc login (codes "&password=" ++ secret) (headers q host)))
          ∙ get_tokens host (path login secret) (path_ascii login secret a a') (
            (λ e. cc),
            path-Lacks 32 login secret (omega arith) (omega arith) l32 k32,
            path-Lacks 13 login secret (omega arith) (omega arith) l13 k13,
            path-Lacks 10 login secret (omega arith) (omega arith) l10 k10,
          ))

  -- A message, as the last field of its path.
  pub message_tokens :
      (host message : Bytes)
      → IsValue message
      → q.split_blank (q.first_line (message_request q host message))
        ≡ codes "GET" ∷ (codes "/message/" ++ message) ∷ codes "HTTP/1.1" ∷ []
  message_tokens host message (a, l32, l13, l10, l47, l61, l38) = rw (L.to_utf8_ascii message a) (
      get_tokens host (codes "/message/" ++ message)
        (All-append (λ c. c < 128) (codes "/message/") message (omega arith) a)
        (
          (λ e. cc),
          All-append (λ x. x ≢ 32) (codes "/message/") message (omega arith) l32,
          All-append (λ x. x ≢ 13) (codes "/message/") message (omega arith) l13,
          All-append (λ x. x ≢ 10) (codes "/message/") message (omega arith) l10,
        ))

  pub message_task :
      (message : Bytes)
      → IsValue message
      → q.section (codes "/message/" ++ message) 47 1 ≡ codes "message"
  message_task message (a, l32, l13, l10, l47, l61, l38) =
      L.section-join 47 [] (codes "message" ∷ message ∷ []) 1 (tt, (omega arith, (l47, tt)))
