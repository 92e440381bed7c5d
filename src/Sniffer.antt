-- ===== src/Sniffer.antt =====
-- lesson2/pcap_sniffer/packet_printer.h and packet_printer.cpp: the dissection and the printing of
-- a captured packet.
pub mod Payload
pub mod Bounds
pub mod Header
use gb_cpp_network_programmi.Base.{
  ℕ, zero, suc, ◌+◌, ◌-◌, ◌*◌, ◌/◌, ◌%◌, Bool, true, false, ◌&&◌, List, [], ◌∷◌, ◌++◌, Bytes,
  length, take, drop, map, replicate, get_elem?, get_or, codes, ◌==◌, ltb, leb, Option, none, some,
  if◌then◌else◌,
}
use gb_cpp_network_programmi.Base.Fallible.{◌>>=◌}

abbrev pub size_ethernet : ℕ
size_ethernet = 14

-- Offsets in a C struct of scalar members of these sizes, each aligned to its size.
unfoldable pub offset_of : ℕ → List ℕ → ℕ → ℕ
offset_of at [] i = at
offset_of at (size ∷ sizes) zero = (at + size - 1) / size * size
offset_of at (size ∷ sizes) (suc i) = offset_of ((at + size - 1) / size * size + size) sizes i

-- struct sniff_ip: ip_vhl, ip_tos, ip_len, ip_id, ip_off, the constants ip_rf, ip_df, ip_mf and
-- ip_offmask, which are members like the others, ip_ttl, ip_p, ip_sum, ip_src, ip_dst.
abbrev pub sniff_ip : List ℕ
sniff_ip = 1 ∷ 1 ∷ 2 ∷ 2 ∷ 2 ∷ 2 ∷ 2 ∷ 2 ∷ 2 ∷ 1 ∷ 1 ∷ 2 ∷ 4 ∷ 4 ∷ []

-- struct sniff_tcp: th_sport, th_dport, th_seq, th_ack, th_offx2, th_flags, nine constants, th_win,
-- th_sum, th_urp.
abbrev pub sniff_tcp : List ℕ
sniff_tcp = 2 ∷ 2 ∷ 4 ∷ 4 ∷ 1 ∷ 1 ∷ 1 ∷ 1 ∷ 1 ∷ 1 ∷ 1 ∷ 1 ∷ 1 ∷ 1 ∷ 1 ∷ 2 ∷ 2 ∷ 2 ∷ []

-- `ip_hl(ip)`, the low four bits of ip_vhl.
abbrev pub ip_hl : ℕ → ℕ
ip_hl ip_vhl = ip_vhl % 16

-- `ip_v(ip)`
abbrev pub ip_v : ℕ → ℕ
ip_v ip_vhl = ip_vhl / 16

-- `th_off(th)`, the high four bits of th_offx2.
abbrev pub th_off : ℕ → ℕ
th_off th_offx2 = th_offx2 / 16 % 16

-- `isprint` in the C locale.
abbrev pub is_print : ℕ → Bool
is_print c = leb 32 c && leb c 126

-- The hex loop from index `i`: `std::setw(2)` pads the character, which is not printed as a number.
unfoldable pub hex_column : ℕ → Bytes → Bytes
hex_column i [] = []
hex_column i (c ∷ cs) = 32 ∷ c ∷ 32 ∷ ((if i == 7 then 32 ∷ [] else []) ++ hex_column (i + 1) cs)

-- The ASCII loop of `n` rounds: the pointer moves on only past a printable character.
unfoldable pub ascii_column : ℕ → Bytes → Bytes
ascii_column zero ch = []
ascii_column (suc n) [] = []
ascii_column (suc n) (c ∷ ch) =
    let moved = ascii_column n ch in
    let stays = ascii_column n (c ∷ ch) in if is_print c then c ∷ moved else 46 ∷ stays

pub record Row : Type 0 where
  pub offset : ℕ
  pub text : Bytes

-- `print_hex_ascii_line` of the bytes of a line.
unfoldable pub print_hex_ascii_line : Bytes → ℕ → Row
unfolding hex_column ascii_column
print_hex_ascii_line line offset = record {
  offset = offset;
  text =
      hex_column 0 line
      ++ ((if ltb (length line) 8 then 32 ∷ [] else [])
          ++ (replicate (3 * (16 - length line)) 32
              ++ (codes "   " ++ ascii_column (length line) line)));
}

abbrev pub line_width : ℕ
line_width = 16

-- The lines that the loop of `print_payload` prints, with their offsets; `none` when the fuel runs
-- out.
unfoldable pub payload_loop : ℕ → Bytes → ℕ → ℕ → Option (List (ℕ × Bytes))
payload_loop zero ch len_rem offset = none
payload_loop (suc fuel) ch len_rem offset =
    let line_len = line_width % len_rem in
    let len_rem' = len_rem - line_len in
    let ch' = drop line_len ch in
    let offset' = offset + line_width in
    let more = payload_loop fuel ch' len_rem' offset' in
    if leb len_rem' line_width
    then some ((offset, take line_len ch) ∷ (offset', take len_rem' ch') ∷ [])
    else (more >>= λ lines. some ((offset, take line_len ch) ∷ lines))

-- The lines that `print_payload` prints of `len` bytes from `payload` on.
unfoldable pub payload_lines : Bytes → ℕ → Option (List (ℕ × Bytes))
unfolding payload_loop
payload_lines payload len =
    if len == 0
    then some []
    else if leb len line_width
    then some ((0, take len payload) ∷ [])
    else payload_loop len payload len 0

pub data Protocol : Type 0 where
  tcp udp icmp ip unknown : Protocol

pub data Output : Type 0 where
  packet_number : ℕ → Output
  invalid_ip_header : ℕ → Output
  from_to : Bytes → Bytes → Output
  protocol : Protocol → Output
  invalid_tcp_header : ℕ → Output
  ports : ℕ → ℕ → Output
  payload : ℕ → List Row → Output

-- The `switch` on ip_p.
unfoldable pub protocol_of : ℕ → Protocol
protocol_of p =
    if p == 6
    then tcp
    else if p == 17
    then udp
    else if p == 1
    then icmp
    else if p == 0
    then ip
    else unknown

-- The 16-bit number in network byte order at an offset, by `ntohs`.
unfoldable pub short_at : Bytes → ℕ → Option ℕ
short_at packet at = do
  high ← get_elem? packet at
  low ← get_elem? packet (at + 1)
  some (high * 256 + low)

-- The four bytes of an address.
unfoldable pub address_at : Bytes → ℕ → Option Bytes
address_at packet at = do
  a ← get_elem? packet at
  b ← get_elem? packet (at + 1)
  c ← get_elem? packet (at + 2)
  d ← get_elem? packet (at + 3)
  some (a ∷ b ∷ c ∷ d ∷ [])

-- The offset of a member of the IP header, and of the TCP header, in the packet.
abbrev pub ip_member : ℕ → ℕ
ip_member i = size_ethernet + offset_of 0 sniff_ip i

abbrev pub tcp_member : ℕ → ℕ → ℕ
tcp_member size_ip i = size_ethernet + size_ip + offset_of 0 sniff_tcp i

-- The end of `got_packet`, from the payload's size on. Reading past the captured bytes is `none`.
unfoldable pub show_payload : Bytes → ℕ → Option (List Output)
show_payload rest size_payload =
    if size_payload == 0 then some [] else if ltb (length rest) size_payload then none else (do
      lines ← payload_lines rest size_payload
      some (payload size_payload (map (λ l. print_hex_ascii_line l.1 l.0) lines) ∷ []))

-- The ports and the payload of a TCP header of `size_tcp` bytes. The payload's size is an `int`, and
-- one that is not positive shows nothing.
unfoldable pub show_segment : Bytes → ℕ → ℕ → Option (List Output)
show_segment packet size_ip size_tcp = do
  sport ← short_at packet (tcp_member size_ip 0)
  dport ← short_at packet (tcp_member size_ip 1)
  ip_len ← short_at packet (ip_member 2)
  shown ←
      show_payload (drop (size_ethernet + size_ip + size_tcp) packet)
        (ip_len - (size_ip + size_tcp))
  some (ports sport dport ∷ shown)

unfoldable pub show_tcp : Bytes → ℕ → Option (List Output)
show_tcp packet size_ip = do
  offx2 ← get_elem? packet (tcp_member size_ip 4)
  let size_tcp = th_off offx2 * 4
  if ltb size_tcp 20
      then some (invalid_tcp_header size_tcp ∷ [])
      else show_segment packet size_ip size_tcp

-- The addresses and the protocol; only a TCP packet is looked into.
unfoldable pub show_ip : Bytes → ℕ → Option (List Output)
show_ip packet size_ip = do
  src ← address_at packet (ip_member 12)
  dst ← address_at packet (ip_member 13)
  p ← get_elem? packet (ip_member 10)
  more ← (if p == 6 then show_tcp packet size_ip else some [])
  some (from_to src dst ∷ protocol (protocol_of p) ∷ more)

-- `got_packet`, after the packet's number: what is printed, or `none` if bytes that were not
-- captured are read.
unfoldable pub dissect : Bytes → Option (List Output)
dissect packet = do
  vhl ← get_elem? packet (ip_member 0)
  let size_ip = ip_hl vhl * 4
  if ltb size_ip 20 then some (invalid_ip_header size_ip ∷ []) else show_ip packet size_ip

-- The printer's state is `packet_count_`.
unfoldable pub got_packet : ℕ → Bytes → ℕ × Option (List Output)
got_packet packet_count packet =
    (packet_count + 1, (do out ← dissect packet; some (packet_number packet_count ∷ out)))
