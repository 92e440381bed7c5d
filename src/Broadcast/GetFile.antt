-- ===== src/Broadcast/GetFile.antt =====
-- What lesson3/broadcast_server/main.cpp makes of the command getfile.
use gb_cpp_network_programmi.Base.{
  set-append, ℕ, ◌+◌, ◌<◌, ◌≤◌, ◌≡◌, refl, ap, ◌∙◌, true, false, List, [], ◌∷◌, ◌++◌, Bytes, length,
  length-append, length-drop, drop, take-append, set, leb, codes, contains, starts_with, ◌==◌, zero,
  suc, if_both, c_string, c_string-append, IsNonzero, Option, none, some, arith,
}
use gb_cpp_network_programmi.Posix.{got, SendReply, room}
use gb_cpp_network_programmi.Request.{size_mod}
use gb_cpp_network_programmi.Request.Delivery.{send_request_at_once}
use gb_cpp_network_programmi.Broadcast.Buffer.{first_line-le}
use gb_cpp_network_programmi.Broadcast.{
  first_line, read_line, buffer_size, fpath_size, served, receive, path_len, opened_path, answer,
  execute, serve,
}

IsNonzero-append : (s t : Bytes) → IsNonzero s → IsNonzero t → IsNonzero (s ++ t)
IsNonzero-append [] t h k = k
IsNonzero-append (c ∷ s) t h k = (h.0, IsNonzero-append s t h.1 k)

-- The command with a path, as a client sends it.
abbrev pub getfile : Bytes → Bytes
getfile path = codes "getfile " ++ (path ++ (13 ∷ 10 ∷ []))

-- The path that is opened for it: without its first character.
opened_path_tail :
    (p : ℕ) (path junk : Bytes)
    → IsNonzero path
    → length path < 58
    → opened_path (getfile (p ∷ path) ++ (0 ∷ junk)) (length (getfile (p ∷ path))) ≡ some path
unfolding opened_path
opened_path_tail p path junk h w =
    let l : length (path ++ (13 ∷ 10 ∷ [])) ≡ length path + 2 = length-append path (13 ∷ 10 ∷ []) in
    let n : path_len (length (getfile (p ∷ path))) ≡ length path = ground (arith, l) in
    let s : c_string (drop 9 (getfile (p ∷ path) ++ (0 ∷ junk))) ≡ some (path ++ (13 ∷ 10 ∷ [])) =
      c_string-append (path ++ (13 ∷ 10 ∷ [])) junk
        (IsNonzero-append path (13 ∷ 10 ∷ []) h (omega arith)) in
    let a : leb fpath_size (length (path ++ (13 ∷ 10 ∷ []))) ≡ false = ground (arith, l) in
    let b : leb fpath_size (length path) ≡ false = ground arith in
    rw (s, n, a, b, take-append path (13 ∷ 10 ∷ []))

-- The buffer behind a request that leaves room for the zero.
receive-got :
    (buffer text : Bytes)
    → 0 < length text
    → length text < length buffer
    → (junk : Bytes) × ((receive buffer (got text)).0 ≡ text ++ (0 ∷ junk))
      × ((receive buffer (got text)).1 ≡ length text)
unfolding receive
receive-got buffer [] h w = absurd (omega arith)
receive-got buffer (b ∷ bs) h w = behind (drop (length (b ∷ bs)) buffer) refl
  where
    behind :
        (rest : Bytes)
        → drop (length (b ∷ bs)) buffer ≡ rest
        → (junk : Bytes) × (set ((b ∷ bs) ++ drop (length (b ∷ bs)) buffer) (length (b ∷ bs)) 0
            ≡ (b ∷ bs) ++ (0 ∷ junk))
          × (length (b ∷ bs) ≡ length (b ∷ bs))
    behind [] e = absurd (omega (arith, length-drop (length (b ∷ bs)) buffer, ap length e))
    behind (y ∷ junk) e = (
      junk,
      ap (λ r. set ((b ∷ bs) ++ r) (length (b ∷ bs)) 0) e ∙ set-append (b ∷ bs) junk y 0,
      refl,
    )

-- Both sends of the answer to a missing file.
answer_twice :
    (text junk : Bytes) (m n : ℕ) (rs : List SendReply)
    → IsNonzero text
    → 0 < length text
    → length text < size_mod
    → length text ≤ m
    → length text ≤ n
    → answer (text ++ (0 ∷ junk)) none (room m ∷ room n ∷ rs)
      ≡ served (text ++ (0 ∷ junk)) (text ++ text) rs
unfolding answer
answer_twice text junk m n rs z h w k k' = rw (
  c_string-append text junk z,
  send_request_at_once text [] m (room n ∷ rs) h w k,
  send_request_at_once text text n rs h w k',
)

-- The command is found in its own text.
getfile-contains : (path : Bytes) → contains (codes "getfile") (getfile path) ≡ true
unfolding contains starts_with
getfile-contains path = refl

getfile-IsNonzero : (path : Bytes) → IsNonzero path → IsNonzero (getfile path)
getfile-IsNonzero path z =
    IsNonzero-append (codes "getfile ") (path ++ (13 ∷ 10 ∷ [])) (omega arith)
      (IsNonzero-append path (13 ∷ 10 ∷ []) z (omega arith))

-- What `main` makes of the command is the answer to the path without its first character.
serve-getfile :
    (files : Bytes → Option Bytes) (buffer : Bytes) (p : ℕ) (path : Bytes) (rs : List SendReply)
    → length buffer ≡ buffer_size
    → IsNonzero (p ∷ path)
    → length path < 58
    → (junk : Bytes) × (serve files buffer (got (getfile (p ∷ path))) rs
        ≡ answer (getfile (p ∷ path) ++ (0 ∷ junk)) (files path) rs)
unfolding serve execute
serve-getfile files buffer p path rs b z w =
    let l : length (path ++ (13 ∷ 10 ∷ [])) ≡ length path + 2 = length-append path (13 ∷ 10 ∷ []) in
    let (junk, e, e') =
      receive-got buffer (getfile (p ∷ path)) (omega arith) (omega (arith, l, b)) in
    (
      junk,
      rw
          (
            e,
            e',
            c_string-append (getfile (p ∷ path)) junk (getfile-IsNonzero (p ∷ path) z),
            getfile-contains (p ∷ path),
            opened_path_tail p path junk z.1 w,
          )
          refl,
    )

-- The command `getfile <path>` opens the path without its first character: if there is no such file,
-- the client is sent its own command, twice. The path has no zero byte and at most 58 bytes, and the
-- kernel takes each of the two at once.
pub serve_missing :
    (files : Bytes → Option Bytes) (buffer : Bytes) (p : ℕ) (path : Bytes) (m n : ℕ)
    (rs : List SendReply)
    → length buffer ≡ buffer_size
    → IsNonzero (p ∷ path)
    → length path < 58
    → files path ≡ none
    → length (getfile (p ∷ path)) ≤ m
    → length (getfile (p ∷ path)) ≤ n
    → (buffer' : Bytes) × (serve files buffer (got (getfile (p ∷ path))) (room m ∷ room n ∷ rs)
        ≡ served buffer' (getfile (p ∷ path) ++ getfile (p ∷ path)) rs)
serve_missing files buffer p path m n rs b z w f k k' =
    let l : length (path ++ (13 ∷ 10 ∷ [])) ≡ length path + 2 = length-append path (13 ∷ 10 ∷ []) in
    let (junk, e) = serve-getfile files buffer p path (room m ∷ room n ∷ rs) b z w in
    (
      getfile (p ∷ path) ++ (0 ∷ junk),
      e
          ∙ ap (λ o. answer (getfile (p ∷ path) ++ (0 ∷ junk)) o (room m ∷ room n ∷ rs)) f
          ∙ answer_twice (getfile (p ∷ path)) junk m n rs (getfile-IsNonzero (p ∷ path) z)
              (omega arith) (omega (arith, l)) k k',
    )

first_line-IsNonzero :
    (n : ℕ) (content : Bytes) → IsNonzero content → IsNonzero (first_line n content)
unfolding first_line
first_line-IsNonzero zero content z = tt
first_line-IsNonzero (suc n) [] z = tt
first_line-IsNonzero (suc n) (c ∷ content) z =
    if_both IsNonzero (c == 10) _ _ (λ _. (z.0, tt))
      (λ _. (z.0, first_line-IsNonzero n content z.1))

pub first_line_some : (n c : ℕ) (content : Bytes) → 0 < length (first_line (suc n) (c ∷ content))
unfolding first_line
first_line_some n c content =
    if_both (λ l. 0 < length l) (c == 10) (c ∷ []) (c ∷ first_line n content) (λ _. omega arith)
      (λ _. omega arith)

-- A file that is there, is not empty and has no zero byte is answered with its first line, up to 254 bytes
-- of it, if the kernel takes these at once.
pub serve_found :
    (files : Bytes → Option Bytes) (buffer : Bytes) (p : ℕ) (path : Bytes) (c : ℕ) (content : Bytes)
    (m : ℕ) (rs : List SendReply)
    → length buffer ≡ buffer_size
    → IsNonzero (p ∷ path)
    → length path < 58
    → files path ≡ some (c ∷ content)
    → IsNonzero (c ∷ content)
    → length (first_line 254 (c ∷ content)) ≤ m
    → (buffer' : Bytes) × (serve files buffer (got (getfile (p ∷ path))) (room m ∷ rs)
        ≡ served buffer' (first_line 254 (c ∷ content)) rs)
unfolding answer read_line
serve_found files buffer p path c content m rs b z w f nz k =
    let line : Bytes = first_line 254 (c ∷ content) in
    let (junk, e) = serve-getfile files buffer p path (room m ∷ rs) b z w in
    let old : Bytes = getfile (p ∷ path) ++ (0 ∷ junk) in
    (
      line ++ (0 ∷ drop (length line + 1) old),
      e
          ∙ ap (λ o. answer old o (room m ∷ rs)) f
          ∙ rw
              (
                c_string-append line (drop (length line + 1) old)
                    (first_line-IsNonzero 254 (c ∷ content) nz),
                send_request_at_once line [] m rs (first_line_some 253 c content)
                    (omega (arith, first_line-le 254 (c ∷ content))) k,
              )
              refl,
    )
