-- ===== src/Sniffer/Header.antt =====
-- Which bytes of a packet `got_packet` of lesson2/pcap_sniffer/packet_printer.cpp looks at. The flag
-- constants of `sniff_ip` are members, so its last members do not lie where the header has them.
use gb_cpp_network_programmi.Base.{
  ℕ, zero, suc, ◌+◌, ◌*◌, ◌≤◌, ◌<◌, ◌≡◌, ◌≢◌, refl, sym, ap, false, [], ◌∷◌, Bytes, drop, set,
  get_elem?, ◌==◌, ltb, some, arith, Bool-cases, inl, inr,
}
use gb_cpp_network_programmi.Base.Fallible.{bind_congr}
use gb_cpp_network_programmi.Sniffer.{
  size_ethernet, offset_of, ip_member, tcp_member, ip_hl, th_off, short_at, address_at,
  show_segment, show_tcp, show_ip, dissect, got_packet, protocol_of, from_to, protocol,
}

-- The protocol field of an IPv4 header stands at its offset 9.
abbrev pub protocol_field : ℕ
protocol_field = size_ethernet + 9

get_elem?-set_ne : (xs : Bytes) (i j v : ℕ) → i ≢ j → get_elem? (set xs i v) j ≡ get_elem? xs j
get_elem?-set_ne [] i j v h = refl
get_elem?-set_ne (x ∷ xs) zero zero v h = absurd (h refl)
get_elem?-set_ne (x ∷ xs) zero (suc j) v h = refl
get_elem?-set_ne (x ∷ xs) (suc i) zero v h = refl
get_elem?-set_ne (x ∷ xs) (suc i) (suc j) v h = get_elem?-set_ne xs i j v (λ e. h (ap suc e))

drop-set_before : (xs : Bytes) (i k v : ℕ) → i < k → drop k (set xs i v) ≡ drop k xs
drop-set_before [] i k v h = refl
drop-set_before (x ∷ xs) i zero v h = absurd (omega arith)
drop-set_before (x ∷ xs) zero (suc k) v h = refl
drop-set_before (x ∷ xs) (suc i) (suc k) v h = drop-set_before xs i k v (omega arith)

module _ (packet : Bytes) (v : ℕ) where
  abbrev changed : Bytes
  changed = set packet protocol_field v

  byte_same : (i : ℕ) → i ≢ protocol_field → get_elem? changed i ≡ get_elem? packet i
  byte_same i h = get_elem?-set_ne packet protocol_field i v (λ e. h (sym e))

  short_same : (i : ℕ) → protocol_field < i → short_at changed i ≡ short_at packet i
  unfolding short_at
  short_same i h = rw (byte_same i (omega arith), byte_same (i + 1) (omega arith))

  short_same_before : (i : ℕ) → i + 1 < protocol_field → short_at changed i ≡ short_at packet i
  unfolding short_at
  short_same_before i h = rw (byte_same i (omega arith), byte_same (i + 1) (omega arith))

  address_same : (i : ℕ) → protocol_field < i → address_at changed i ≡ address_at packet i
  unfolding address_at
  address_same i h = rw (
    byte_same i (omega arith),
    byte_same (i + 1) (omega arith),
    byte_same (i + 2) (omega arith),
    byte_same (i + 3) (omega arith),
  )

  show_segment_same :
      (size_ip size_tcp : ℕ)
      → 20 ≤ size_ip
      → show_segment changed size_ip size_tcp ≡ show_segment packet size_ip size_tcp
  unfolding show_segment offset_of
  show_segment_same size_ip size_tcp h = rw (
    short_same (tcp_member size_ip 0) (omega arith),
    short_same (tcp_member size_ip 1) (omega arith),
    short_same_before (ip_member 2) (omega arith),
    drop-set_before packet protocol_field (size_ethernet + size_ip + size_tcp) v (omega arith),
  )

  show_tcp_same : (size_ip : ℕ) → 20 ≤ size_ip → show_tcp changed size_ip ≡ show_tcp packet size_ip
  unfolding show_tcp offset_of
  show_tcp_same size_ip h =
      bind_congr _ _ _ _ (byte_same (tcp_member size_ip 4) (omega arith))
        λ offx2. rw (show_segment_same size_ip (th_off offx2 * 4) h)

  show_ip_same : (size_ip : ℕ) → 20 ≤ size_ip → show_ip changed size_ip ≡ show_ip packet size_ip
  unfolding show_ip offset_of
  show_ip_same size_ip h = rw (
    address_same (ip_member 12) (omega arith),
    address_same (ip_member 13) (omega arith),
    byte_same (ip_member 10) (omega arith),
    show_tcp_same size_ip h,
  )

  dissect_same : dissect changed ≡ dissect packet
  unfolding dissect offset_of
  dissect_same = bind_congr _ _ _ _ (byte_same (ip_member 0) (omega arith)) λ vhl.
      elim (Bool-cases (ltb (ip_hl vhl * 4) 20)) [
        | inl bad ↦ rw bad
        | inr good ↦ rw (good, show_ip_same (ip_hl vhl * 4) (ground arith))
      ]

  -- What is printed of a packet does not depend on the protocol field of its IP header.
  pub got_packet_ignores_protocol :
      (packet_count : ℕ)
      → got_packet packet_count (set packet protocol_field v) ≡ got_packet packet_count packet
  unfolding got_packet
  got_packet_ignores_protocol packet_count = rw dissect_same

-- The second octet of the destination address of the IP header.
abbrev pub destination_octet : ℕ
destination_octet = size_ethernet + 16 + 1

-- A captured packet with a valid header length is taken for the protocol whose number is the second
-- octet of its destination address; unless that is 6, nothing else of it is shown, and the
-- addresses printed are the eight bytes behind the header's first 20.
dissect_by_destination :
    (packet src dst : Bytes) (vhl p : ℕ)
    → get_elem? packet size_ethernet ≡ some vhl
    → 20 ≤ ip_hl vhl * 4
    → get_elem? packet destination_octet ≡ some p
    → address_at packet (size_ethernet + 20) ≡ some src
    → address_at packet (size_ethernet + 24) ≡ some dst
    → p ≢ 6
    → dissect packet ≡ some (from_to src dst ∷ protocol (protocol_of p) ∷ [])
unfolding dissect show_ip offset_of
dissect_by_destination packet src dst vhl p e h d s t ne =
    let good : ltb (ip_hl vhl * 4) 20 ≡ false = ground arith in
    let other : (p == 6) ≡ false = ground arith in rw (e, good, s, t, d, other)
