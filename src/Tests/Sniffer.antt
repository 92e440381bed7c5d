-- ===== src/Tests/Sniffer.antt =====
-- lesson2/pcap_sniffer: the printing of small packets.
use gb_cpp_network_programmi.Base.{◌≡◌, refl, [], ◌∷◌, ◌++◌, Bytes, replicate, codes, some, arith}
use gb_cpp_network_programmi.Sniffer.{
  short_at, dissect, got_packet, show_ip, address_at, protocol_of, offset_of, sniff_ip, sniff_tcp,
  payload_lines, from_to, protocol, udp, packet_number,
}
use gb_cpp_network_programmi.Sniffer.Payload.{IsPrinted, payload_lines-IsPrinted}
use gb_cpp_network_programmi.Sniffer.Bounds.{IsDefined, dissect-IsDefined}

-- An Ethernet frame with an IPv4 header of 20 bytes from 10.0.0.1 to 10.17.0.2, protocol TCP.
abbrev frame : Bytes
frame =
    replicate 14 0
    ++ (69 ∷ 0 ∷ 0 ∷ 28 ∷ 0 ∷ 0 ∷ 0 ∷ 0 ∷ 64 ∷ 6 ∷ 0 ∷ 0 ∷ 10 ∷ 0 ∷ 0 ∷ 1 ∷ 10 ∷ 17 ∷ 0 ∷ 2 ∷ 1 ∷ 2
        ∷ 3 ∷ 4 ∷ 5 ∷ 6 ∷ 7 ∷ 8 ∷ [])

taken_for_udp : got_packet 1 frame ≡ (
  2,
  some (packet_number 1 ∷ from_to (1 ∷ 2 ∷ 3 ∷ 4 ∷ []) (5 ∷ 6 ∷ 7 ∷ 8 ∷ []) ∷ protocol udp ∷ []),
)
unfolding got_packet dissect show_ip address_at protocol_of offset_of
taken_for_udp = refl

members :
    (offset_of 0 sniff_ip 10 ≡ 17) × (offset_of 0 sniff_ip 12 ≡ 20) × (offset_of 0 sniff_tcp 4 ≡ 12)
unfolding offset_of
members = (refl, refl, refl)

abbrev text : Bytes
text = codes "GET / HTTP/1.1 x\r\nHost"

two_lines :
    payload_lines text 22 ≡ some ((0, codes "GET / HTTP/1.1 x") ∷ (16, codes "\r\nHost") ∷ [])
unfolding payload_lines
two_lines = refl

payload_lines-IsPrinted_example : IsPrinted 0 text (payload_lines text 22)
payload_lines-IsPrinted_example = payload_lines-IsPrinted text 22 (omega arith) (omega arith)

-- A frame of 97 bytes; its packet tells a length of 80, and its TCP header starts at byte 34.
abbrev long_frame : Bytes
long_frame =
    replicate 14 0
    ++ (69 ∷ 0 ∷ 0 ∷ 80 ∷ (replicate 13 0 ++ (6 ∷ (replicate 14 0 ++ (80 ∷ replicate 50 65)))))

dissect-IsDefined_example : IsDefined (dissect long_frame)
unfolding short_at offset_of
dissect-IsDefined_example = dissect-IsDefined long_frame 80 (omega arith) refl (omega arith)
