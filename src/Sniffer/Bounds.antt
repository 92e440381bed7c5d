-- ===== src/Sniffer/Bounds.antt =====
-- How much of a packet `got_packet` of lesson2/pcap_sniffer/packet_printer.cpp reads.
use gb_cpp_network_programmi.Base.{
  ℕ, ◌+◌, ◌-◌, ◌*◌, ◌≤◌, ◌<◌, ◌≡◌, refl, inl, inr, Bytes, List, [], length, drop, length-drop,
  get_elem?, get_elem?_cases, ◌==◌, ltb, Option, none, some, arith, if_both, false,
}
use gb_cpp_network_programmi.Base.Fallible.{◌>>=◌}
use gb_cpp_network_programmi.Sniffer.{
  size_ethernet, offset_of, ip_member, tcp_member, ip_hl, th_off, short_at, address_at,
  show_payload, show_segment, show_tcp, show_ip, dissect,
}
use gb_cpp_network_programmi.Sniffer.Payload.{IsPrinted, payload_lines-IsPrinted}

-- There is a result.
abbrev pub IsDefined {ℓ} : {A : Type ℓ} → Option A → Type ℓ
IsDefined {A = A} m = (a : A) × (m ≡ some a)

>>=-IsDefined {ℓ κ} :
    {A : Type ℓ} {B : Type κ} (m : Option A) (f : A → Option B)
    → IsDefined m
    → ((a : A) → m ≡ some a → IsDefined (f a))
    → IsDefined (m >>= f)
>>=-IsDefined none f d h = cc
>>=-IsDefined (some a) f d h = h a refl

byte-IsDefined : (packet : Bytes) (i : ℕ) → i < length packet → IsDefined (get_elem? packet i)
byte-IsDefined packet i h = elim (get_elem?_cases packet i) [
  | inl (le, e) ↦ absurd (omega arith)
  | inr (lt, a, e) ↦ (a, e)
]

short-IsDefined : (packet : Bytes) (i : ℕ) → i + 1 < length packet → IsDefined (short_at packet i)
unfolding short_at
short-IsDefined packet i h =
    >>=-IsDefined _ _ (byte-IsDefined packet i (omega arith))
      λ high _. >>=-IsDefined _ _ (byte-IsDefined packet (i + 1) h) λ low _. (_, refl)

address-IsDefined :
    (packet : Bytes) (i : ℕ) → i + 3 < length packet → IsDefined (address_at packet i)
unfolding address_at
address-IsDefined packet i h = >>=-IsDefined _ _ (byte-IsDefined packet i (omega arith)) λ a _.
    >>=-IsDefined _ _ (byte-IsDefined packet (i + 1) (omega arith)) λ b _.
      >>=-IsDefined _ _ (byte-IsDefined packet (i + 2) (omega arith))
        λ c _. >>=-IsDefined _ _ (byte-IsDefined packet (i + 3) h) λ d _. (_, refl)

lines-IsDefined :
    (payload : Bytes) (lines : Option (List (ℕ × Bytes)))
    → IsPrinted 0 payload lines
    → IsDefined lines
lines-IsDefined payload none p = absurd p
lines-IsDefined payload (some lines) p = (lines, refl)

payload-IsDefined :
    (rest : Bytes) (size : ℕ) → size ≤ length rest → IsDefined (show_payload rest size)
unfolding show_payload
payload-IsDefined rest size h =
    if_both IsDefined (size == 0) _ _ (λ _. (_, refl))
      λ some_bytes.
        if_both IsDefined (ltb (length rest) size) _ _ (λ short. absurd (ground arith))
          λ long.
            >>=-IsDefined _ _
              (lines-IsDefined _ _ (payload_lines-IsPrinted rest size (ground arith) h))
              λ lines _. (_, refl)

module _ (packet : Bytes) (ip_len : ℕ) (headers : 87 ≤ length packet)
    (total : short_at packet (ip_member 2) ≡ some ip_len)
    (whole : size_ethernet + ip_len ≤ length packet) where
  segment-IsDefined :
      (size_ip size_tcp : ℕ) → size_ip ≤ 60 → IsDefined (show_segment packet size_ip size_tcp)
  unfolding show_segment offset_of
  segment-IsDefined size_ip size_tcp h =
      >>=-IsDefined _ _ (short-IsDefined packet (tcp_member size_ip 0) (omega arith)) λ sport _.
        >>=-IsDefined _ _ (short-IsDefined packet (tcp_member size_ip 1) (omega arith)) λ dport _.
          >>=-IsDefined _ _ (ip_len, total)
            λ l e.
              >>=-IsDefined _ _
                (payload-IsDefined (drop (size_ethernet + size_ip + size_tcp) packet)
                  (l - (size_ip + size_tcp))
                  (let same : l ≡ ip_len = cc in
                    omega (arith, length-drop (size_ethernet + size_ip + size_tcp) packet)))
                λ shown _. (_, refl)

  tcp-IsDefined : (size_ip : ℕ) → size_ip ≤ 60 → IsDefined (show_tcp packet size_ip)
  unfolding show_tcp offset_of
  tcp-IsDefined size_ip h =
      >>=-IsDefined _ _ (byte-IsDefined packet (tcp_member size_ip 4) (omega arith)) λ offx2 _.
        if_both IsDefined (ltb (th_off offx2 * 4) 20) _ _ (λ _. (_, refl))
          λ _. segment-IsDefined size_ip (th_off offx2 * 4) h

  ip-IsDefined : (size_ip : ℕ) → size_ip ≤ 60 → IsDefined (show_ip packet size_ip)
  unfolding show_ip offset_of
  ip-IsDefined size_ip h =
      >>=-IsDefined _ _ (address-IsDefined packet (ip_member 12) (omega arith)) λ src _.
        >>=-IsDefined _ _ (address-IsDefined packet (ip_member 13) (omega arith)) λ dst _.
          >>=-IsDefined _ _ (byte-IsDefined packet (ip_member 10) (omega arith)) λ p _.
            >>=-IsDefined _ _
              (if_both IsDefined (p == 6) _ _ (λ _. tcp-IsDefined size_ip h) (λ _. ([], refl)))
              λ more _. (_, refl)

  -- A frame of at least 87 bytes that holds all of the packet whose length its header tells is dissected
  -- without a look behind its end.
  pub dissect-IsDefined : IsDefined (dissect packet)
  unfolding dissect offset_of
  dissect-IsDefined = >>=-IsDefined _ _ (byte-IsDefined packet (ip_member 0) (omega arith)) λ vhl _.
      if_both IsDefined (ltb (ip_hl vhl * 4) 20) _ _ (λ _. (_, refl))
        λ _. ip-IsDefined (ip_hl vhl * 4) (omega arith)

>>=-none {ℓ κ} :
    {A : Type ℓ} {B : Type κ} (m : Option A) (f : A → Option B)
    → ((a : A) → m ≡ some a → f a ≡ none)
    → (m >>= f) ≡ none
>>=-none none f h = refl
>>=-none (some a) f h = h a refl

no_result {ℓ κ} :
    {A : Type ℓ} {B : Type κ} (m : Option A) (f : A → Option B) → m ≡ none → (m >>= f) ≡ none
no_result m f e = rw e

byte_missing : (packet : Bytes) (i : ℕ) → length packet ≤ i → get_elem? packet i ≡ none
byte_missing packet i h = elim (get_elem?_cases packet i) [
  | inl (le, e) ↦ e
  | inr (lt, a, e) ↦ absurd (omega arith)
]

address_missing : (packet : Bytes) (i : ℕ) → length packet ≤ i + 3 → address_at packet i ≡ none
unfolding address_at
address_missing packet i h = >>=-none (get_elem? packet i) _ λ a _.
    >>=-none (get_elem? packet (i + 1)) _ λ b _.
      >>=-none (get_elem? packet (i + 2)) _
        λ c _. no_result (get_elem? packet (i + 3)) _ (byte_missing packet (i + 3) h)

-- A frame of less than 42 bytes with a valid header length is read behind its end: the destination
-- address is taken from its 39th to its 42nd byte.
dissect_short :
    (packet : Bytes) (vhl : ℕ)
    → length packet < 42
    → get_elem? packet size_ethernet ≡ some vhl
    → 20 ≤ ip_hl vhl * 4
    → dissect packet ≡ none
unfolding dissect show_ip offset_of
dissect_short packet vhl h e good =
    let valid : ltb (ip_hl vhl * 4) 20 ≡ false = ground arith in
    rw (e, valid)
      (>>=-none (address_at packet (ip_member 12)) _ λ src _.
        no_result (address_at packet (ip_member 13)) _ (address_missing packet 38 (omega arith)))
