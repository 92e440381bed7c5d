-- ===== src/Qnet/Routing.antt =====
-- How lesson5/qnet_tcp_server/main.cpp takes a request line apart.
use gb_cpp_network_programmi.Base.{
  ◌==◌, leb, ◌&&◌, ◌||◌, Bool, true, ◌≤◌, ◌<◌, ◌⊎◌, inl, inr, refl, ℕ, ◌≡◌, ◌≢◌, ap, ◌∙◌, [], ◌∷◌,
  ◌++◌, Bytes, get_or, text_eq, codes, arith,
}
use gb_cpp_network_programmi.Qt.{Qt, IsQt, All, All-append, Lacks}
use gb_cpp_network_programmi.Qnet.{ThisServer, route, by_tokens, slot_read_client}

-- A letter, a digit, a hyphen or an underscore.
abbrev pub is_plain : ℕ → Bool
is_plain c =
    (leb 48 c && leb c 57)
    || ((leb 65 c && leb c 90) || ((leb 97 c && leb c 122) || (c == 45 || c == 95)))

-- A part of a path that is written as it is.
abbrev pub IsSegment : Bytes → Type 0
IsSegment s = All (λ c. is_plain c ≡ true) s

plain_bounds : (c : ℕ) → is_plain c ≡ true → (44 < c) × (c < 123) × (c ≢ 47)
plain_bounds c h = ground arith

-- What a segment lacks.
segment-Lacks : (x : ℕ) (s : Bytes) → (x ≤ 44) ⊎ (x ≡ 47) → IsSegment s → Lacks x s
segment-Lacks x [] u h = tt
segment-Lacks x (c ∷ s) (inl low) h =
    ((λ e. omega (arith, (plain_bounds c h.0).0, low)), segment-Lacks x s (inl low) h.1)
segment-Lacks x (c ∷ s) (inr slash) h =
    ((λ e. (plain_bounds c h.0).2 (e ∙ slash)), segment-Lacks x s (inr slash) h.1)

segment-ascii : (s : Bytes) → IsSegment s → All (λ c. c < 128) s
segment-ascii [] h = tt
segment-ascii (c ∷ s) h = (omega (arith, plain_bounds c h.0), segment-ascii s h.1)

abbrev pub request_path : Bytes → Bytes → Bytes
request_path task command = codes "/" ++ (task ++ (codes "/" ++ command))

abbrev pub get_line : Bytes → Bytes → Bytes
get_line task command = codes "GET " ++ (request_path task command ++ codes " HTTP/1.1")

path-Lacks :
    (c : ℕ) (task command : Bytes)
    → 47 ≢ c
    → Lacks c task
    → Lacks c command
    → Lacks c (request_path task command)
path-Lacks c task command h t k = (h, All-append (λ x. x ≢ c) task (codes "/" ++ command) t (h, k))

line-Lacks :
    (c : ℕ) (task command : Bytes)
    → Lacks c (codes "GET ")
    → Lacks c (codes " HTTP/1.1")
    → Lacks c (request_path task command)
    → Lacks c (get_line task command)
line-Lacks c task command a b h =
    All-append (λ x. x ≢ c) (codes "GET ") (request_path task command ++ codes " HTTP/1.1") a
      (All-append (λ x. x ≢ c) (request_path task command) (codes " HTTP/1.1") h b)

-- Everything in the path but its slashes lies behind the blanks, line ends and escapes.
segments-Lacks :
    (x : ℕ) (task command : Bytes)
    → x ≤ 44
    → IsSegment task
    → IsSegment command
    → Lacks x (request_path task command)
segments-Lacks x task command low t k =
    path-Lacks x task command (λ e. omega (arith, low, e)) (segment-Lacks x task (inl low) t)
      (segment-Lacks x command (inl low) k)

line-ascii :
    (task command : Bytes)
    → IsSegment task
    → IsSegment command
    → All (λ c. c < 128) (get_line task command ++ (13 ∷ 10 ∷ []))
line-ascii task command t k =
    All-append (λ c. c < 128) (get_line task command) (13 ∷ 10 ∷ [])
      (All-append (λ c. c < 128) (codes "GET ") (request_path task command ++ codes " HTTP/1.1")
        (omega arith)
        (All-append (λ c. c < 128) (request_path task command) (codes " HTTP/1.1")
          (
            omega arith,
            All-append (λ c. c < 128) task (codes "/" ++ command) (segment-ascii task t)
                (omega arith, segment-ascii command k),
          )
          (omega arith)))
      (omega arith)

module _ (q : Qt) (L : IsQt q) where
  -- The line as words.
  line_words :
      (task command rest : Bytes)
      → IsSegment task
      → IsSegment command
      → q.split_blank (q.from_percent (q.socket_line (get_line task command ++ (13 ∷ 10 ∷ rest))))
        ≡ codes "GET" ∷ request_path task command ∷ codes "HTTP/1.1" ∷ [] ∷ []
  line_words task command rest t k =
      ap (λ l. q.split_blank (q.from_percent l))
        (L.socket_line_crlf (get_line task command) rest (
          line-Lacks 10 task command (omega arith) (omega arith)
            (segments-Lacks 10 task command (omega arith) t k)))
      ∙ ap q.split_blank (
          L.from_percent_plain (get_line task command ++ (13 ∷ 10 ∷ []))
            (line-ascii task command t k)
            (All-append (λ x. x ≢ 37) (get_line task command) (13 ∷ 10 ∷ [])
              (line-Lacks 37 task command (omega arith) (omega arith)
                (segments-Lacks 37 task command (omega arith) t k))
              (omega arith)))
      ∙ L.split_blank-join_crlf (codes "GET") (request_path task command ∷ codes "HTTP/1.1" ∷ []) (
        ((λ e. cc), omega arith, omega arith, omega arith),
        (
          (
            (λ e. cc),
            segments-Lacks 32 task command (omega arith) t k,
            segments-Lacks 13 task command (omega arith) t k,
            segments-Lacks 10 task command (omega arith) t k,
          ),
          (((λ e. cc), omega arith, omega arith, omega arith), tt),
        ),
      )

  -- Over a lawful Qt, a GET request whose path has a task and a command of letters, digits, hyphens and
  -- underscores is handled by these, whatever headers and data follow the request line.
  pub request_routed :
      (s : ThisServer) (task command rest : Bytes)
      → IsSegment task
      → IsSegment command
      → slot_read_client q s (get_line task command ++ (13 ∷ 10 ∷ rest)) ≡ route q s task command
  unfolding slot_read_client by_tokens text_eq
  request_routed s task command rest t k = rw (line_words task command rest t k, field 1, field 2)
    where
      field :
          (i : ℕ)
          → q.section (request_path task command) 47 i ≡ get_or ([] ∷ task ∷ command ∷ []) i []
      field i =
          L.section-join 47 [] (task ∷ command ∷ []) i
            (tt, (segment-Lacks 47 task (inr refl) t, (segment-Lacks 47 command (inr refl) k, tt)))
