-- ===== src/Tests/Sending.antt =====
-- lesson3 and lesson4/mt_server: the sending and receiving routines on small scripts.
use gb_cpp_network_programmi.Base.{
  ◌≡◌, refl, true, false, List, [], ◌∷◌, Bytes, take, replicate, codes, some, arith,
}
use gb_cpp_network_programmi.Posix.{
  eintr, other_error, SendReply, room, failed, RecvReply, got, lost, done,
}
use gb_cpp_network_programmi.Transceiver.{
  send_buffer, send_loop, need_to_repeat, get_request, recv_loop, find_line_end, request,
  buffer_size, send_file,
}
use gb_cpp_network_programmi.Transceiver.Buffer.{Sends, send_buffer-Sends, send_buffer_total}
use gb_cpp_network_programmi.Transceiver.GetRequest.{first_reply, get_request-first_reply}
use gb_cpp_network_programmi.Transceiver.SendFile.{padded, Delivers, send_file-Delivers}
use gb_cpp_network_programmi.Request.{send_request, request_loop}
use gb_cpp_network_programmi.Request.Delivery.{send_request_delivers}

abbrev abc : Bytes
abc = 97 ∷ 98 ∷ 99 ∷ []

abbrev partial : List SendReply
partial = room 1 ∷ failed eintr ∷ room 1 ∷ room 5 ∷ []

sends_in_parts : send_buffer abc partial [] ≡ done true abc []
unfolding send_buffer send_loop need_to_repeat
sends_in_parts = refl

stops_at_an_error : send_buffer abc (room 1 ∷ failed other_error ∷ []) [] ≡ done false (97 ∷ []) []
unfolding send_buffer send_loop need_to_repeat
stops_at_an_error = refl

send_buffer-Sends_example : Sends abc [] (send_buffer abc partial [])
send_buffer-Sends_example = send_buffer-Sends abc [] partial

send_buffer_total_example :
    (rest : List SendReply) × (send_buffer abc partial [] ≡ done true abc rest)
unfolding need_to_repeat
send_buffer_total_example = send_buffer_total abc [] partial (omega arith) (refl, tt)

abbrev array : Bytes
array = replicate 257 7

abbrev split_request : List RecvReply
split_request = lost eintr ∷ got (codes "read") ∷ got (codes "me.txt\r\n") ∷ []

reads_one_fragment :
    get_request array split_request ≡ request (codes "read") (got (codes "me.txt\r\n") ∷ [])
unfolding get_request recv_loop find_line_end need_to_repeat
reads_one_fragment = refl

get_request-first_reply_example :
    get_request array split_request
    ≡ request (take (find_line_end (codes "read")) (codes "read")) (got (codes "me.txt\r\n") ∷ [])
unfolding first_reply need_to_repeat
get_request-first_reply_example = get_request-first_reply array split_request refl (omega arith)

large_file : Bytes
large_file = replicate 4097 1

send_file-Delivers_example :
    Delivers (padded large_file) [] (send_file (some large_file) partial [])
unfolding buffer_size large_file
send_file-Delivers_example = send_file-Delivers large_file [] partial (omega arith)

sends_twice :
    send_request abc (room 2 ∷ failed eintr ∷ room 5 ∷ []) []
    ≡ done true (97 ∷ 98 ∷ 98 ∷ 99 ∷ []) []
unfolding send_request request_loop
sends_twice = refl

send_request_delivers_example :
    (rest : List SendReply) × (send_request abc (room 1 ∷ room 9 ∷ room 1 ∷ []) []
      ≡ done true abc rest)
send_request_delivers_example =
    send_request_delivers abc [] (room 1 ∷ room 9 ∷ room 1 ∷ []) (omega arith) (omega arith)
      (omega arith) (omega arith)
