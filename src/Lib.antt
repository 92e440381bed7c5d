-- ===== src/Lib.antt =====
-- Verification of the network programs of this repository.
--
-- The repository holds separate programs, one or two to a lesson. They share no code but the habits
-- of the socket interface, so each has its own module here:
--
-- - Transceiver: lesson4/mt_server/main.cpp, class Transceiver (send_buffer, send_file, get_request,
--   need_to_repeat), which serves one client of the file server.
-- - FileServer: the rest of that file: class Client, accept_client, set_reuse_addr and main, over a
--   file system as a parameter (Paths, Processing, Tasks, Failure); Traversal has its paths over a tree of
--   directories, for which FilePath is std::filesystem. The asserts are those of a build that has them.
-- - Request: send_request of lesson3/broadcast_server/main.cpp and lesson3/tcp_client/main.cpp.
-- - Broadcast: main of lesson3/broadcast_server/main.cpp, with its command getfile (GetFile) and its
--   arrays (Buffer, Serving, Bounds).
-- - TcpClient: the rest of lesson3/tcp_client/main.cpp: RecvFile and main.
-- - Udp: lesson1/udp_server/main.cpp and lesson1/udp_client/main.cpp, the echo server and its client:
--   the way of a word (Echo), the exchange of many (Session) and the server without its array (Exit).
-- - Sniffer: lesson2/pcap_sniffer/packet_printer.h and packet_printer.cpp, the class PacketPrinter.
-- - Capture: lesson2/pcap_sniffer/main.cpp, the capture whose packets go to the printer of Sniffer.
-- - PcppSniffer: lesson2/PcapPlPl_snifer/main.cpp, the menu, the capture and the sending.
-- - Asio: lesson4/asio_server/main.cpp, the daytime server, as steps of its event loop.
-- - Chat: lesson8/f2f_chat/chatnetwork.h and chatnetwork.cpp, the class ChatNetwork, with its sockets
--   in Sockets.
-- - ChatSession: peers of Chat that exchange datagrams in any order, and hosts at which only answers
--   are still on their way (Settling).
-- - Qnet: lesson5/qnet_tcp_server/tcp_server.h and main.cpp, the HTTP server with its commands;
--   Lifetime: the runs of main.
-- - QnetClient: lesson5/qnet_tcp_client/tcp_client.h and main.cpp, its client with nested event
--   loops, and its requests at the server (Served).
-- - SslServer: lesson6/qssl_server/ssl_server.h and main.cpp, the HTTPS server ThisServer, with what it
--   promises as an automaton of two states (Automaton, Contract) and its users as a set (Users).
-- - SslClient: lesson6/qssl_client/qssl_client.h and main.cpp, its client.
-- - SslSession: the two programs of lesson6 as one system with packets on their way.
-- - HttpServer and CurlClient: lesson7/libhttpserver_server/main.cpp and
--   lesson7/libcurl_client/main.cpp, with the law of libhttpserver's arguments in HttpServer/Query.
-- - HttpSession: the two programs of lesson7 together.
-- - Window: lesson8/f2f_chat/mainwindow.h and mainwindow.cpp, the window over the peer of Chat (Contacts
--   joins the two).
--
-- Posix has the replies of the socket calls, Qt the interface to the part of Qt that is used, with
-- its documented laws and a small instance in Qt/Simple, Base the shared lists, texts and tests, and
-- Tests the runs on concrete inputs.
--
-- The operating system is a script: a list of the replies of `send` or `recv`, one for each call. A
-- run that uses up its script is still inside a call. `send` is offered bytes and takes at most as
-- many as its reply has room for. Bytes are numbers, texts lists of code points, `size_t` is a number
-- below 2 ^ 64 with its wrap-around written out.
--
-- Loops over a script or a list recur on it. The loops of send_file, of print_payload and of the
-- contact list take fuel: the file's length and two, the payload's length, the number of clients and
-- two. That these suffice is part of the theorems about them: running out is a value of its own
-- there, which the theorems exclude.
--
-- What a user types is a list of words; a program that waits for more of them is `none`, or a value
-- of its own. The loops of SslClient, CurlClient, QnetClient and PcppSniffer recur on that list. Runs
-- of SslServer, QnetClient and Window are lists of events, those of SslSession, ChatSession and Asio
-- are step relations, and the loop of FileServer is a list of turns, each with the states of the tasks
-- it finds.
--
-- Undefined behaviour that the code can reach is a value too: an iterator used after the vector moved
-- or past its end in Chat, a byte read past the captured ones in Sniffer, a list indexed out of range in
-- SslServer, a null pointer in CurlClient and TcpClient, an array left in Broadcast, TcpClient and Udp, a deleted socket in
-- Window.
--
-- Not modelled: console output but for the packet printers'; Qt, libpcap, libcurl, libhttpserver,
-- boost::asio and PcapPlusPlus themselves, which are records of operations, answers and laws here; and
-- the copies of other projects under lesson2 (the sources of PcapPlusPlus, the Npcap SDK with its
-- examples).
pub mod Asio
pub mod Base
pub mod Broadcast
pub mod Capture
pub mod Chat
pub mod ChatSession
pub mod CurlClient
pub mod FileServer
pub mod HttpServer
pub mod HttpSession
pub mod PcppSniffer
pub mod Posix
pub mod Qnet
pub mod QnetClient
pub mod Qt
pub mod Request
pub mod Sniffer
pub mod SslClient
pub mod SslServer
pub mod SslSession
pub mod TcpClient
pub mod Tests
pub mod Transceiver
pub mod Udp
pub mod Window
