-- ===== src/FileServer.antt =====
-- lesson4/mt_server/main.cpp without its Transceiver: the class Client, and the server's start and
-- loop. The file system is a parameter whose calls do not throw, and paths are texts.
use gb_cpp_network_programmi.Base.{
  starts_with, ℕ, zero, suc, ◌+◌, Bool, true, false, List, [], ◌∷◌, ◌++◌, Bytes, length, drop, ◌==◌,
  ◌&&◌, Option, none, some, if◌then◌else◌,
}
use gb_cpp_network_programmi.Base.Fallible.{◌>>=◌}
use gb_cpp_network_programmi.Posix.{RecvReply, SendReply, Sent, done, waiting}
use gb_cpp_network_programmi.Transceiver.{
  Requested, request, socket_reading_error, reading, get_request, send_file,
}
pub mod Failure
pub mod FilePath
pub mod Paths
pub mod Processing
pub mod Tasks
pub mod Traversal

pub record FileSystem : Type 0 where
  pub current_path : Bytes
  pub weakly_canonical : Bytes → Bytes
  -- the wide character that is read from the address of `preferred_separator`
  pub separ : ℕ
  pub exists : Bytes → Bool
  pub is_regular_file : Bytes → Bool
  -- the content that a stream reads, `none` if it does not open
  pub content : Bytes → Option Bytes

-- The text behind the text of the server's directory, or all of it.
unfoldable pub cut_path : Bytes → Bytes → Bytes
cut_path cur_path file_path =
    if starts_with cur_path file_path then drop (length cur_path) file_path else file_path

-- The path of a file that a request names, from the request's text.
unfoldable pub path_of : FileSystem → Bytes → Bytes
path_of fs request_data =
    fs.weakly_canonical
      (fs.current_path ++ (fs.separ ∷ cut_path fs.current_path (fs.weakly_canonical request_data)))

-- `recv_file_path`, behind `get_request`.
unfoldable pub recv_file_path : FileSystem → Bytes → Option Bytes
recv_file_path fs [] = none
recv_file_path fs (c ∷ request_data) = some (path_of fs (c ∷ request_data))

-- `Client::send_file`; an inner `none` is the loop's fuel.
unfoldable pub client_send_file : FileSystem → Bytes → List SendReply → Option Sent
client_send_file fs file_path rs =
    if fs.exists file_path && fs.is_regular_file file_path
    then send_file (fs.content file_path) rs []
    else some (done false [] rs)

-- What `process` has done: returned a result with these bytes sent, thrown, or it waits in a call.
pub data Processed : Type 0 where
  processed : Bool → Bytes → Processed
  threw : Processed
  inside : Bytes → Processed
  out_of_fuel : Processed

-- The end of `process`: its result is true whether the file was sent or not.
unfoldable pub after_sending : Option Sent → Processed
after_sending none = out_of_fuel
after_sending (some (waiting wire)) = inside wire
after_sending (some (done result wire rs)) = processed true wire

unfoldable pub with_path : FileSystem → Option Bytes → List SendReply → Processed
with_path fs none rs = processed false []
with_path fs (some file_path) rs = after_sending (client_send_file fs file_path rs)

unfoldable pub with_request : FileSystem → Requested → List SendReply → Processed
with_request fs reading rs = inside []
with_request fs socket_reading_error rs = threw
with_request fs (request text left) rs = with_path fs (recv_file_path fs text) rs

-- `process`, over the uninitialised buffer of `get_request`.
unfoldable pub process : FileSystem → Bytes → List RecvReply → List SendReply → Processed
process fs buffer received rs = with_request fs (get_request buffer received) rs

-- A future after `wait_for`: not ready, ready with a result, or ready with an exception that `get`
-- throws again.
pub data Polled : Type 0 where
  not_ready : Polled
  ready : Bool → Polled
  ready_throws : Polled

-- What a task's future holds once the task is where `process` is.
unfoldable pub future_of : Processed → Polled
future_of (processed result wire) = ready result
future_of threw = ready_throws
future_of (inside wire) = not_ready
future_of out_of_fuel = not_ready

-- The list of pending tasks behind the loop that cleans it, or where `get` has thrown. The future that threw
-- holds no task any more.
pub data Cleaned : Type 0 where
  kept : List ℕ → Cleaned
  rethrown : List ℕ → Cleaned

-- The body of that loop for a task, with the tasks behind it and what the loop makes of them.
abbrev pub clean_task : Polled → ℕ → List ℕ → Cleaned → Cleaned
clean_task not_ready task tasks (kept rest) = kept (task ∷ rest)
clean_task not_ready task tasks (rethrown rest) = rethrown (task ∷ rest)
clean_task (ready result) task tasks rest = rest
clean_task ready_throws task tasks rest = rethrown tasks

unfoldable pub clean_tasks : (ℕ → Polled) → List ℕ → Cleaned
clean_tasks poll [] = kept []
clean_tasks poll (task ∷ tasks) = clean_task (poll task) task tasks (clean_tasks poll tasks)

-- `accept`: a descriptor, or -1.
pub data Accepted : Type 0 where
  accepted : ℕ → Accepted
  accept_failed : Accepted

-- `accept_client`: a client's descriptor; its exception, for 0; or its assert, which fails for -1, since
-- `accept` has not written the length of an address then. An address that it writes has the length asserted.
pub data Acceptance : Type 0 where
  client : ℕ → Acceptance
  accept_throws : Acceptance
  accept_aborts : Acceptance

unfoldable pub accept_client : Accepted → Acceptance
accept_client accept_failed = accept_aborts
accept_client (accepted zero) = accept_throws
accept_client (accepted (suc sock)) = client (suc sock)

-- The server: in its loop with the pending tasks and the number of tasks that it has started; behind an
-- exception, in the destructors of the futures, which wait for these tasks; ended with EXIT_FAILURE; or
-- aborted.
pub data Server : Type 0 where
  looping : List ℕ → ℕ → Server
  leaving : List ℕ → Server
  exit_failure : Server
  aborted : Server

abbrev pub cleaned : Cleaned → ℕ → Server
cleaned (rethrown tasks) started = leaving tasks
cleaned (kept tasks) started = looping tasks started

-- Behind `accept_client`, with the tasks before it, and what cleaning makes of the list with the new one.
abbrev pub start_task : Acceptance → List ℕ → Cleaned → ℕ → Server
start_task accept_throws tasks rest started = leaving tasks
start_task accept_aborts tasks rest started = aborted
start_task (client sock) tasks rest started = cleaned rest started

-- The destructors of the futures, in their order: each waits until its task has ended.
abbrev pub leave_task : Polled → ℕ → List ℕ → Server → Server
leave_task not_ready task tasks rest = leaving (task ∷ tasks)
leave_task (ready result) task tasks rest = rest
leave_task ready_throws task tasks rest = rest

unfoldable pub leave : (ℕ → Polled) → List ℕ → Server
leave poll [] = exit_failure
leave poll (task ∷ tasks) = leave_task (poll task) task tasks (leave poll tasks)

-- One turn of the loop: a client is accepted, its task started, and the list cleaned. A server that has left
-- the loop accepts nobody.
unfoldable pub turn : Server → Accepted → (ℕ → Polled) → Server
unfolding leave
turn exit_failure reply poll = exit_failure
turn aborted reply poll = aborted
turn (leaving tasks) reply poll = leave poll tasks
turn (looping tasks started) reply poll =
    start_task (accept_client reply) tasks (clean_tasks poll (tasks ++ (started ∷ [])))
      (suc started)

unfoldable pub turns : Server → List (Accepted × (ℕ → Polled)) → Server
turns s [] = s
turns s ((reply, poll) ∷ more) = turns (turn s reply poll) more

-- What the calls of the start answer: `none` is -1 or no list of addresses.
pub record StartReplies : Type 0 where
  pub servinfo : Bool
  pub socket : Option ℕ
  pub reuse_addr : Bool
  pub bind : Bool
  pub listen : Bool

-- `set_reuse_addr`: whether it returns; a socket of -1 it cannot set.
unfoldable pub set_reuse_addr : Option ℕ → Bool → Bool
set_reuse_addr none reuse_addr = false
set_reuse_addr (some sock) reuse_addr = reuse_addr

-- `!server_sock` in `main`, which -1 does not meet.
abbrev is_zero : Option ℕ → Bool
is_zero none = false
is_zero (some sock) = sock == 0

-- `main` up to its loop, of the number of its arguments.
unfoldable pub start_server : ℕ → StartReplies → Server
unfolding set_reuse_addr
start_server argc r =
    if argc == 2
    then (if r.servinfo
        then (if is_zero r.socket
            then exit_failure
            else if set_reuse_addr r.socket r.reuse_addr && (r.bind && r.listen)
            then looping [] 0
            else exit_failure)
        else exit_failure)
    else exit_failure
