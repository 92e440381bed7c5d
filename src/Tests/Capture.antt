-- ===== src/Tests/Capture.antt =====
-- lesson2: small runs of the two sniffers, and of the menu.
use gb_cpp_network_programmi.Base.{
  stoi, ◌≡◌, refl, take, replicate, length-take, arith, true, false, List, [], ◌∷◌, Bytes, codes,
  none, some, if◌then◌else◌, text_eq, digits,
}
use gb_cpp_network_programmi.Sniffer.{
  packet_number, invalid_ip_header, got_packet, dissect, offset_of,
}
use gb_cpp_network_programmi.Capture.{
  Pcap, IsPcap, complete, pcap_callback, callbacks, listen, pcap_main,
}
use gb_cpp_network_programmi.Capture.Loop.{Captures, pcap_main-Captures}
use gb_cpp_network_programmi.PcppSniffer.{
  LiveDevice, Pcpp, IsPcpp, ask_number, ask_word, returned, send_loop, write_file, finish, capture,
  select_device, choose, pcpp_main,
}
use gb_cpp_network_programmi.PcppSniffer.Replay.{Replays, pcpp_main-Replays}

abbrev packets : List Bytes
packets = replicate 20 0 ∷ replicate 30 1 ∷ []

-- Two packets that no dissection reads past: their headers are too short.
abbrev sniffed : Pcap
sniffed = record {
  all_devs = some (codes "eth0" ∷ codes "lo" ∷ []);
  lookup_net = λ dev. none;
  open_live = λ dev. true;
  is_ethernet = λ dev. true;
  compile = λ filter net. true;
  set_filter = true;
  dump_open = true;
  loop = λ cnt. take cnt packets;
}

sniffed-IsPcap : IsPcap sniffed
sniffed-IsPcap = record { loop_count = λ cnt h. omega (arith, length-take cnt packets) }

two_packets :
    pcap_main sniffed 1
    ≡ complete (record {
      dumped = replicate 20 0 ∷ replicate 30 1 ∷ [];
      printed =
          (packet_number 1 ∷ invalid_ip_header 0 ∷ [])
          ∷ (packet_number 2 ∷ invalid_ip_header 4 ∷ [])
          ∷ [];
      packet_count = 3;
    })
unfolding pcap_main listen callbacks pcap_callback got_packet dissect offset_of
two_packets = refl

pcap_main-Captures_example : Captures sniffed 1 (pcap_main sniffed 1)
pcap_main-Captures_example = pcap_main-Captures sniffed 1 sniffed-IsPcap

abbrev card : LiveDevice
card = record {
  can_open = true;
  captured = (1 ∷ 2 ∷ []) ∷ (3 ∷ []) ∷ [];
  can_send = λ packet. true;
}

abbrev library : Pcpp
library = record {
  live_device_by_name = λ name. if text_eq name (codes "eth0") then some card else none;
  live_device_by_ip = λ ip. none;
  can_write = true;
  write_packets = λ is_open packets. if is_open then (true, packets) else (false, []);
  first_packet = λ path. none;
  to_string = λ packet. packet;
}

library-IsPcpp : IsPcpp library
library-IsPcpp = record { write_packets_closed = λ packets. refl }

-- 258 is taken for 2, as one byte.
abbrev session : List Bytes
session = codes "0" ∷ codes "258" ∷ codes "1" ∷ codes "eth0" ∷ codes "Y" ∷ []

file_is_emptied :
    pcpp_main library ((7 ∷ []) ∷ []) session
    ≡ returned 0
        (record { shown = card.captured; sent = card.captured; file = []; counts = 2 ∷ 2 ∷ [] })
unfolding pcpp_main choose select_device capture finish write_file send_loop ask_word ask_number
    stoi digits text_eq
file_is_emptied = refl

pcpp_main-Replays_example :
    Replays library ((7 ∷ []) ∷ []) (pcpp_main library ((7 ∷ []) ∷ []) session)
pcpp_main-Replays_example = pcpp_main-Replays library library-IsPcpp ((7 ∷ []) ∷ []) session
