-- ===== src/Chat/Sockets.antt =====
-- lesson8/f2f_chat/chatnetwork.cpp: the sockets of the peer, which open with it and are deleted at its end.
use gb_cpp_network_programmi.Base.{Bool, List, [], ◌∷◌, Bytes, Option, none, some, if◌then◌else◌}
use gb_cpp_network_programmi.Base.Fallible.{◌>>=◌}
use gb_cpp_network_programmi.Chat.{
  Socket, shut, opened, deleted, ChatNetwork, Effect, close_connections,
}

-- The constructor, at the time that the id spells.
abbrev pub new_network : Bytes → ChatNetwork
new_network id_program = record {
  vec_user = [];
  capacity = 0;
  list_users = [];
  list_messages = [];
  user_name = [];
  list_del_users = [];
  id_program = id_program;
  listen_socket = shut;
  send_socket = shut;
}

-- A socket behind a call that may open it.
abbrev pub after_call : Bool → Socket
after_call opens = if opens then opened else shut

-- `Listen`, by whether the socket is open behind `bind`.
abbrev pub listen : Bool → ChatNetwork → ChatNetwork
listen opens c = record c { listen_socket = after_call opens }

-- `if(socket->isOpen()){ socket->close(); delete socket; }`: `none` reads a socket that was deleted.
unfoldable pub delete_if_open : Socket → Option Socket
delete_if_open shut = some shut
delete_if_open opened = some deleted
delete_if_open deleted = none

-- `CloseSockets`, up to its signal.
unfoldable pub close_sockets : ChatNetwork → Option (ChatNetwork × List Effect)
close_sockets c = do
  listen ← delete_if_open c.listen_socket
  send ← delete_if_open c.send_socket
  some (record c { listen_socket = listen; send_socket = send }, close_connections ∷ [])

-- The destructor.
unfoldable pub destroy : ChatNetwork → Option ChatNetwork
destroy c = do
  send ← delete_if_open c.send_socket
  listen ← delete_if_open c.listen_socket
  some (record c { listen_socket = listen; send_socket = send })
