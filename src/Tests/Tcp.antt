-- ===== src/Tests/Tcp.antt =====
-- lesson3: the server and the client on a request for a file.
use gb_cpp_network_programmi.Base.{
  ◌≡◌, refl, true, List, [], ◌∷◌, ◌++◌, Bytes, replicate, contains, starts_with, c_string, codes,
  some, none, arith,
}
use gb_cpp_network_programmi.Posix.{got, room}
use gb_cpp_network_programmi.Request.{send_request, request_loop}
use gb_cpp_network_programmi.Broadcast.{
  served, opened_path, serve, first_line, Connection, main_loop,
}
use gb_cpp_network_programmi.Broadcast.Bounds.{KeepsEnd, main_loop-KeepsEnd}
use gb_cpp_network_programmi.Broadcast.GetFile.{getfile}
use gb_cpp_network_programmi.TcpClient.{
  returned, recv_file, read_answer, read_reply, Talk, Files, exit_success, talk,
}
use gb_cpp_network_programmi.TcpClient.Replies.{first_line_saved, missing_file_saved}

abbrev empty : Bytes
empty = replicate 256 0

-- The path is opened without its first character.
opens_tail : opened_path (codes "getfile a.txt\r\n" ++ (0 ∷ [])) 15 ≡ some (codes ".txt")
unfolding opened_path c_string
opens_tail = refl

abbrev two_connections : List Connection
two_connections =
    record { is_accepted = true; received = got (codes "hello\r\n"); sending = [] }
    ∷ record {
      is_accepted = true;
      received = got (getfile (codes "a.txt"));
      sending = room 20 ∷ room 20 ∷ [];
    }
    ∷ []

main_loop-KeepsEnd_example :
    KeepsEnd
      (λ path. none)
      empty
      0
      two_connections
      (main_loop (λ path. none) empty 0 two_connections)
main_loop-KeepsEnd_example =
    main_loop-KeepsEnd (λ path. none) empty 0 two_connections (refl, refl)
      (omega arith, (omega arith, tt))

first_line_saved_example :
    (buffer' sent : Bytes) × (serve
        (λ path. some (codes "ab\ncd"))
        empty
        (got (getfile (codes "a.txt")))
        (room 20 ∷ [])
      ≡ served buffer' sent [])
    × (sent ≡ codes "ab\n")
    × (recv_file (codes "in_7.txt") true empty (got sent ∷ [])
        ≡ returned
            (record {
              first = true;
              second = codes "in_7.txt";
              written = some (codes "in_7.txt", sent);
            })
            [])
unfolding c_string contains starts_with first_line
first_line_saved_example =
    first_line_saved (λ path. some (codes "ab\ncd")) empty 97 (codes ".txt") 97 (codes "b\ncd") 20
      (codes "in_7.txt") empty (codes "ab\n\n") refl (omega arith) (omega arith) refl (omega arith)
      (omega arith) refl refl

missing_file_saved_example :
    (buffer' sent : Bytes) × (serve
        (λ path. none)
        empty
        (got (getfile (codes "a.txt")))
        (room 20 ∷ room 20 ∷ [])
      ≡ served buffer' sent [])
    × (sent ≡ codes "getfile a.txt\r\ngetfile a.txt\r\n")
    × (recv_file (codes "in_7.txt") true empty (got sent ∷ [])
        ≡ returned
            (record {
              first = true;
              second = codes "in_7.txt";
              written = some (codes "in_7.txt", sent);
            })
            [])
unfolding c_string contains starts_with
missing_file_saved_example =
    missing_file_saved (λ path. none) empty 97 (codes ".txt") 20 20 (codes "in_7.txt") empty
      (codes "getfile a.txt\r\ngetfile a.txt\r\n\n") refl (omega arith) (omega arith) refl
      (omega arith) (omega arith) refl refl

abbrev files : Files
files = record { name = codes "in_7.txt"; can_open = true; array = empty }

abbrev first_talk : Talk
first_talk = record {
  wire = [];
  printed = [];
  files = [];
  sending = room 20 ∷ room 20 ∷ [];
  receiving = got (codes "ok") ∷ got [] ∷ got [] ∷ [];
}

abbrev last_talk : Talk
last_talk = record {
  wire = codes "hi\r\nho\r\n";
  printed = codes "ok" ∷ [];
  files = [];
  sending = [];
  receiving = [];
}

two_lines_are_sent : talk files (codes "hi" ∷ codes "ho" ∷ []) first_talk ≡ exit_success last_talk
unfolding talk send_request request_loop read_reply read_answer contains starts_with
two_lines_are_sent = refl
