-- ===== src/HttpServer.antt =====
-- lesson7/libhttpserver_server/main.cpp: the users, the authorization and the other answers. A
-- request is the function that gives the value of an argument.
use gb_cpp_network_programmi.Base.{
  ℕ, ◌-◌, ◌%◌, Bool, true, false, ◌||◌, ◌&&◌, List, [], ◌∷◌, Bytes, leb, text_eq, codes, digits,
  ◌==◌, Option, none, some, if◌then◌else◌,
}
use gb_cpp_network_programmi.Base.Fallible.{◌>>=◌}
pub mod Query
pub mod Simple
pub mod Auth

pub record Response : Type 0 where
  pub content : Bytes
  pub response_code : ℕ

abbrev pub ok_response : Response
ok_response = record { content = codes "Ok"; response_code = 200 }

-- `isspace`
abbrev pub is_space : ℕ → Bool
is_space c = c == 32 || (leb 9 c && leb c 13)

-- `>>` into a string: the word behind the blanks, and the rest; none at the end of the stream, where
-- the string is left as it was.
unfoldable pub skip_blanks : Bytes → Bytes
skip_blanks [] = []
skip_blanks (c ∷ s) = let rest = skip_blanks s in if is_space c then rest else c ∷ s

unfoldable pub cut_word : Bytes → Bytes × Bytes
cut_word [] = ([], [])
cut_word (c ∷ s) = let rest = cut_word s in if is_space c then ([], c ∷ s) else (c ∷ rest.0, rest.1)

unfoldable pub extract : Bytes → Bytes → Bytes × Bytes
unfolding skip_blanks
extract old s = elim (skip_blanks s) [ [] ↦ (old, []) | c ∷ rest ↦ cut_word (c ∷ rest) ]

-- One line of the file, over the user of the line before.
unfoldable pub parse_user : Bytes × Bytes → Bytes → Bytes × Bytes
unfolding extract
parse_user (login, password) line =
    let (first, rest) = extract login line in
    let (second, rest') = extract password rest in (first, second)

-- `load_users` (loop)
unfoldable pub load_loop : Bytes × Bytes → List Bytes → List (Bytes × Bytes)
load_loop user [] = []
load_loop user (line ∷ lines) = let user' = parse_user user line in user' ∷ load_loop user' lines

-- `load_users` of the lines of the file, `none` if it is not open.
unfoldable pub load_users : Option (List Bytes) → List (Bytes × Bytes)
load_users none = []
load_users (some lines) = load_loop ([], []) lines

unfoldable pub not_found : Response
not_found = record { content = codes "Not found"; response_code = 404 }

-- `auth_resource::render` (loop)
unfoldable pub auth_loop : (Bytes → Bytes) → List (Bytes × Bytes) → Response
unfolding not_found
auth_loop get_arg [] = not_found
auth_loop get_arg ((login, password) ∷ users) =
    let rest = auth_loop get_arg users in
    if text_eq login (get_arg (codes "login")) || text_eq password (get_arg (codes "password"))
    then ok_response
    else rest

unfoldable pub auth_render : Option (List Bytes) → (Bytes → Bytes) → Response
auth_render file get_arg = auth_loop get_arg (load_users file)

-- `message_responce::render`: what it prints, and its answer.
unfoldable pub message_render : (Bytes → Bytes) → Bytes × Response
message_render get_arg =
    (get_arg (codes "body"), record { content = codes "GET: Ok"; response_code = 200 })

-- The resources that `main` registers.
unfoldable pub serve : Option (List Bytes) → Bytes → (Bytes → Bytes) → Response
serve file path get_arg =
    if text_eq path (codes "/message")
    then (message_render get_arg).1
    else if text_eq path (codes "/")
    then auth_render file get_arg
    else not_found

-- `atoi`: what is no number is 0, and one that is no `int` is undefined.
abbrev negated : ℕ → ℕ
negated n = (4294967296 - n) % 4294967296

unfoldable pub atoi : Bytes → Option ℕ
unfolding skip_blanks
atoi text = elim (skip_blanks text) [
  | [] ↦ some 0
  | c ∷ s ↦
      if c == 45
      then if leb (digits 0 s) 2147483648 then some (negated (digits 0 s)) else none
      else (let n = if c == 43 then digits 0 s else digits 0 (c ∷ s) in
          if leb n 2147483647 then some n else none)
]

-- `main` of its arguments behind the program's name, up to the port, which is 16 bits wide: without an
-- argument a null pointer is read, since the test for that never holds.
unfoldable pub http_main : List Bytes → Option ℕ
http_main [] = none
http_main (port ∷ more) = do n ← atoi port; some (n % 65536)
