-- ===== src/TcpClient.antt =====
-- lesson3/tcp_client/main.cpp: the dialogue at the start, the requests and the reading of answers,
-- with `send_request` in Request. What is typed is a list of words, then a list of lines.
use gb_cpp_network_programmi.Base.{
  not, stoi, ◌-◌, ℕ, ◌%◌, ◌^◌, zero, suc, ◌+◌, Bool, true, false, ◌||◌, ◌&&◌, List, [], ◌∷◌, ◌++◌,
  Bytes, length, drop, set, ltb, ◌==◌, codes, contains, c_string, Option, none, some, if◌then◌else◌,
}
use gb_cpp_network_programmi.Base.Fallible.{◌>>=◌}
use gb_cpp_network_programmi.Posix.{
  Errno, no_error, eintr, eagain, other_error, RecvReply, got, lost, SendReply, Sent, done, waiting,
}
use gb_cpp_network_programmi.Request.{send_request}
pub mod Replies

abbrev pub max_recv_buffer_size : ℕ
max_recv_buffer_size = 256

-- The pair that `RecvFile` returns, and the file that it has written.
pub record FileResult : Type 0 where
  pub first : Bool
  pub second : Bytes
  pub written : Option (Bytes × Bytes)

-- `RecvFile` returns with the replies it left, goes wrong outside its array, or is inside `recv`.
pub data Received : Type 0 where
  returned : FileResult → List RecvReply → Received
  undefined : Received
  receiving : Received

-- `errno == EINTR`
abbrev pub is_eintr : Errno → Bool
is_eintr eintr = true
is_eintr e = false

-- The file `name` is written with the fragment, unless the text in the buffer tells that there is
-- none. `can_open` is whether `fopen` gives a file; a null pointer is written to otherwise.
unfoldable pub keep_fragment : Bytes → Bool → Bytes → Option Bytes → List RecvReply → Received
keep_fragment name can_open fragment none rs = undefined
keep_fragment name can_open fragment (some text) rs =
    if contains (codes "FILE NOT FOUND!") text
    then returned (record { first = false; second = codes "FILE NOT FOUND!"; written = none }) rs
    else if can_open
    then returned (record { first = true; second = name; written = some (name, fragment) }) rs
    else undefined

-- `RecvFile` over the uninitialised array; a fragment that fills it has its line end written behind it.
unfoldable pub recv_file : Bytes → Bool → Bytes → List RecvReply → Received
unfolding keep_fragment
recv_file name can_open array [] = receiving
recv_file name can_open array (got [] ∷ rs) =
    returned (record { first = false; second = []; written = none }) rs
recv_file name can_open array (got (b ∷ bs) ∷ rs) =
    let n = length (b ∷ bs) in
    if n == max_recv_buffer_size
    then undefined
    else keep_fragment name can_open (b ∷ bs) (c_string (set ((b ∷ bs) ++ drop n array) n 10)) rs
recv_file name can_open array (lost e ∷ rs) =
    let again = recv_file name can_open array rs in
    if is_eintr e
    then again
    else returned
        (record { first = false; second = codes "FILE ACCEPTANCE ERROR!"; written = none }) rs

-- The loop that reads an answer: what it prints, and the replies it left; `none` inside `recv`.
unfoldable pub read_answer : List RecvReply → Option (List Bytes × List RecvReply)
read_answer [] = none
read_answer (got [] ∷ rs) = some ([], rs)
read_answer (got (b ∷ bs) ∷ rs) = do
  (printed, left) ← read_answer rs
  some ((b ∷ bs) ∷ printed, left)
read_answer (lost e ∷ rs) =
    let again = read_answer rs in if is_eintr e then again else some ([], rs)

-- The client in its loop: the bytes sent, what it printed, the files it wrote, and the answers left.
pub record Talk : Type 0 where
  pub wire : Bytes
  pub printed : List Bytes
  pub files : List (Bytes × Bytes)
  pub sending : List SendReply
  pub receiving : List RecvReply

-- How the program ends, if it does.
pub data Ending : Type 0 where
  exit_success : Talk → Ending
  exit_failure : Ending
  inside_call : Ending
  broken : Ending

pub record Files : Type 0 where
  pub name : Bytes
  pub can_open : Bool
  pub array : Bytes

abbrev pub add_file : Talk → FileResult → List RecvReply → Talk
add_file t r rs = record t {
  printed = t.printed ++ (r.second ∷ []);
  files = t.files ++ (elim r.written [ none ↦ [] | some file ↦ file ∷ [] ]);
  receiving = rs;
}

-- After a request for a file: the rest of the loop is `k`.
abbrev pub after_file : Talk → Received → (Talk → Ending) → Ending
after_file t (returned r rs) k = k (add_file t r rs)
after_file t undefined k = broken
after_file t receiving k = inside_call

abbrev pub after_answer : Talk → Option (List Bytes × List RecvReply) → (Talk → Ending) → Ending
after_answer t none k = inside_call
after_answer t (some (lines, rs)) k = k (record t { printed = t.printed ++ lines; receiving = rs })

-- The part of the loop behind the request.
unfoldable pub read_reply : Files → Bytes → Talk → (Talk → Ending) → Ending
read_reply f request t k =
    if contains (codes "getfile") request
    then after_file t (recv_file f.name f.can_open f.array t.receiving) k
    else after_answer t (read_answer t.receiving) k

abbrev pub after_request : Talk → Sent → (Talk → Ending) → Ending
after_request t (waiting wire) k = inside_call
after_request t (done true wire rs) k = k (record t { wire = wire; sending = rs })
after_request t (done false wire rs) k = exit_failure

-- The loop of `main` over the lines that are typed.
unfoldable pub talk : Files → List Bytes → Talk → Ending
talk f [] t = exit_success t
talk f (line ∷ lines) t =
    let request = line ++ codes "\r\n" in
    after_request t (send_request request t.sending t.wire)
      (λ t'. read_reply f request t' (λ t''. talk f lines t''))

-- An `int` as a `size_t`.
abbrev pub to_size : ℕ → ℕ
to_size n = if ltb n 2147483648 then n else n + (2 ^ 64 - 2 ^ 32)

-- The dialogue: `none` where it waits for words or `stoi` throws.
unfoldable pub ask_kind : List Bytes → Option (ℕ × List Bytes)
ask_kind [] = none
ask_kind (answer ∷ typed) = do
  n ← stoi answer
  let again = ask_kind typed
  if to_size n == 0 || ltb 3 (to_size n) then again else some (to_size n, typed)

-- A word of at least so many characters.
unfoldable pub ask_word : ℕ → List Bytes → Option (Bytes × List Bytes)
ask_word least [] = none
ask_word least (answer ∷ typed) =
    let again = ask_word least typed in
    if ltb (length answer) least then again else some (answer, typed)

-- The kind of address, the port (as `htons` takes it) and the address, and what was left typed.
unfoldable pub dialogue : List Bytes → Option ((ℕ × ℕ × Bytes) × List Bytes)
dialogue typed = do
  (kind, typed') ← ask_kind typed
  (port_server, typed'') ← ask_word 1 typed'
  port ← stoi port_server
  (addr_server, left) ← ask_word (if kind == 1 then 1 else 7) typed''
  some ((kind, port % 2 ^ 16, addr_server), left)

-- What the calls before the loop answer: `gethostbyname` finds a host or returns a null pointer.
pub record Calls : Type 0 where
  pub finds_host : Bytes → Bool
  pub is_connected : Bool
  pub is_non_blocking : Bool
  pub is_no_delay : Bool

-- `main`: a socket of -1 is found by `connect`, and a null pointer for the host is read. `none` while
-- the dialogue waits, or where it throws.
unfoldable pub client_main : Calls → Files → List Bytes → List Bytes → Talk → Option Ending
client_main c f typed lines t = do
  ((kind, port, addr_server), left) ← dialogue typed
  some (
      if kind == 1 && not (c.finds_host addr_server)
      then broken
      else if c.is_connected && (c.is_non_blocking && c.is_no_delay)
      then talk f lines t
      else exit_failure)
