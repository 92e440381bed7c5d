-- ===== src/Capture.antt =====
-- lesson2/pcap_sniffer/main.cpp: the start of the capture, and what is done with each packet. libpcap is a
-- parameter.
use gb_cpp_network_programmi.Base.{
  ℕ, ◌+◌, ◌<◌, ◌≤◌, ◌≡◌, Bool, true, false, List, [], ◌∷◌, ◌++◌, Bytes, length, ltb, ◌==◌, codes,
  Option, none, some, if◌then◌else◌,
}
use gb_cpp_network_programmi.Base.Fallible.{◌>>=◌}
use gb_cpp_network_programmi.Sniffer.{Output, got_packet}
pub mod Loop

-- What the calls of libpcap answer.
pub record Pcap : Type 0 where
  -- the names that `pcap_findalldevs` finds, none if it fails
  pub all_devs : Option (List Bytes)
  -- the network that `pcap_lookupnet` finds
  pub lookup_net : Bytes → Option ℕ
  pub open_live : Bytes → Bool
  pub is_ethernet : Bytes → Bool
  pub compile : Bytes → ℕ → Bool
  pub set_filter : Bool
  pub dump_open : Bool
  -- the packets that `pcap_loop` hands to its callback
  pub loop : ℕ → List Bytes

-- "pcap_loop() processes packets until cnt packets are processed".
pub record IsPcap (p : Pcap) : Type 0 where
  pub loop_count : (cnt : ℕ) → 0 < cnt → length (p.loop cnt) ≤ cnt

abbrev pub max_packet_to_capture : ℕ
max_packet_to_capture = 10

-- The file of packets, what is printed of each, and the printer's count.
pub record Captured : Type 0 where
  pub dumped : List Bytes
  pub printed : List (List Output)
  pub packet_count : ℕ

-- `pcap_callback`; a printer that reads past the packet is `none`.
unfoldable pub pcap_callback : Captured → Bytes → Option Captured
pcap_callback c packet = do
  out ← (got_packet c.packet_count packet).1
  some (record {
    dumped = c.dumped ++ (packet ∷ []);
    printed = c.printed ++ (out ∷ []);
    packet_count = (got_packet c.packet_count packet).0;
  })

unfoldable pub callbacks : Captured → List Bytes → Option Captured
callbacks c [] = some c
callbacks c (packet ∷ packets) = do c' ← pcap_callback c packet; callbacks c' packets

-- How `main` ends: a packet for a file that is not open is undefined.
pub data Ending : Type 0 where
  idle : Ending
  exit_failure : Ending
  complete : Captured → Ending
  undefined : Ending

abbrev pub to_file : Bool → List Bytes → Option Captured
to_file is_open [] = some (record { dumped = []; printed = []; packet_count = 1 })
to_file false (packet ∷ packets) = none
to_file true (packet ∷ packets) =
    callbacks (record { dumped = []; printed = []; packet_count = 1 }) (packet ∷ packets)

abbrev pub ended : Option Captured → Ending
ended none = undefined
ended (some c) = complete c

-- The network of the filter, 0 if there is none.
abbrev pub net_of : Option ℕ → ℕ
net_of none = 0
net_of (some net) = net

unfoldable pub listen : Pcap → Bytes → Ending
listen p dev =
    if p.open_live dev
    then if p.is_ethernet dev
      then if p.compile (codes "ip") (net_of (p.lookup_net dev))
        then if p.set_filter
          then ended (to_file p.dump_open (p.loop max_packet_to_capture))
          else exit_failure
        else exit_failure
      else exit_failure
    else exit_failure

abbrev pub default_device : Pcap → Option (List Bytes) → Ending
default_device p none = exit_failure
default_device p (some []) = exit_failure
default_device p (some (dev ∷ devs)) = listen p dev

-- `main`: all of the capture stands in the last branch, behind the search for a device.
unfoldable pub pcap_main : Pcap → ℕ → Ending
pcap_main p argc =
    if argc == 2 then idle else if ltb 2 argc then exit_failure else default_device p p.all_devs
