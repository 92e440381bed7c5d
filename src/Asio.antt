-- ===== src/Asio.antt =====
-- lesson4/asio_server/main.cpp: the daytime server over the handlers of boost::asio. The library is not in
-- the repository: which operation completes next, and how, is the step that it takes.
use gb_cpp_network_programmi.Base.{
  ℕ, suc, ◌≤◌, ◌≡◌, Bool, true, false, List, [], ◌∷◌, ◌++◌, Bytes, length, Option, none, some,
  if◌then◌else◌,
}
pub mod Handlers

-- An accepted connection: its message, and what handle_write was told of the bytes that went out.
pub record TcpConnection : Type 0 where
  pub message : Bytes
  pub transferred : Option ℕ

-- The operations that the io_context has: the accepts, and a write for each connection that has not been
-- told of its end.
pub record TcpServer : Type 0 where
  pub accepts : ℕ
  pub connections : List TcpConnection
  pub printed : List ℕ

-- `start_accept`
abbrev pub start_accept : TcpServer → TcpServer
start_accept s = record s { accepts = suc s.accepts }

-- The constructor, over the acceptor: none if it throws.
unfoldable pub tcp_server : Bool → Option TcpServer
tcp_server can_listen =
    if can_listen
    then some (start_accept (record { accepts = 0; connections = []; printed = [] }))
    else none

-- What ends in the io_context: an accept, with an error or with the time and whether a thread can be made;
-- or a write, with the bytes that went out.
pub data Completion : Type 0 where
  accepted : Option (ℕ × Bool) → Completion
  wrote : ℕ → Completion

module _ (ctime : ℕ → Bytes) where
  -- `make_daytime_string`
  abbrev pub make_daytime_string : ℕ → Bytes
  make_daytime_string now = ctime now

  -- `TcpConnection::start`: the write of the whole message begins.
  unfoldable pub start : ℕ → TcpServer → TcpServer
  start now s = record s {
    connections =
        s.connections ++ (record { message = make_daytime_string now; transferred = none } ∷ []);
  }

  -- `handle_accept` of an error, or of the time and whether a thread can be made: the thread is joined at
  -- once. `none` is the exception that leaves the handler, and io_context::run.
  unfoldable pub handle_accept : Option (ℕ × Bool) → TcpServer → Option TcpServer
  handle_accept none s = some (start_accept s)
  handle_accept (some (now, true)) s = some (start_accept (start now s))
  handle_accept (some (now, false)) s = none

  -- `handle_write`, of the connection between the others.
  unfoldable pub handle_write :
      List TcpConnection → TcpConnection → List TcpConnection → ℕ → TcpServer → TcpServer
  handle_write front c rest bytes s = record s {
    connections = front ++ (record c { transferred = some bytes } ∷ rest);
    printed = s.printed ++ (bytes ∷ []);
  }

  -- A completion that io_context::run hands to its handler. `async_write` ends once, with all the bytes or
  -- with an error and no more than those.
  pub data Step (s : TcpServer) : Completion → TcpServer → Type 0 where
    accept_ends :
        {n : ℕ} {s' : TcpServer} (result : Option (ℕ × Bool))
        → s.accepts ≡ suc n
        → handle_accept result (record s { accepts = n }) ≡ some s'
        → Step s (accepted result) s'
    write_ends :
        (front rest : List TcpConnection) (c : TcpConnection) (failed : Bool) (bytes : ℕ)
        → s.connections ≡ front ++ (c ∷ rest)
        → c.transferred ≡ none
        → bytes ≤ length c.message
        → (failed ≡ false → bytes ≡ length c.message)
        → Step s (wrote bytes) (handle_write front c rest bytes s)

  -- What is reached by these completions.
  pub data Reach : List Completion → TcpServer → Type 0 where
    started : {s : TcpServer} → tcp_server true ≡ some s → Reach [] s
    next :
        {s s' : TcpServer} {past : List Completion} {done : Completion}
        → Reach past s
        → Step s done s'
        → Reach (past ++ (done ∷ [])) s'
