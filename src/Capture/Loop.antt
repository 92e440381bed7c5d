-- ===== src/Capture/Loop.antt =====
-- The capture of lesson2/pcap_sniffer/main.cpp, for all that libpcap answers.
use gb_cpp_network_programmi.Base.{
  ℕ, ◌+◌, ◌<◌, ◌≤◌, ◌≡◌, ◌≢◌, ◌⊎◌, inl, inr, refl, sym, ap, ◌∙◌, subst, Bool, true, false, if_both,
  List, [], ◌∷◌, ◌++◌, append-nil, append_assoc, Bytes, length, ltb, ◌==◌, codes, Option, none,
  some, arith,
}
use gb_cpp_network_programmi.Sniffer.{Output, packet_number, dissect, got_packet}
use gb_cpp_network_programmi.Capture.{
  Pcap, IsPcap, Captured, pcap_callback, callbacks, Ending, idle, exit_failure, complete, undefined,
  to_file, ended, net_of, listen, default_device, pcap_main,
}

-- Each packet is printed with its number and its dissection.
abbrev pub Numbered : ℕ → List Bytes → List (List Output) → Type 0
Numbered n [] printed = printed ≡ []
Numbered n (packet ∷ packets) [] = ⊥
Numbered n (packet ∷ packets) (out ∷ printed) =
    ((body : List Output) × (dissect packet ≡ some body) × (out ≡ packet_number n ∷ body))
    × Numbered (n + 1) packets printed

-- Some packet is read past its end.
abbrev pub Overread : List Bytes → Type 0
Overread [] = ⊥
Overread (packet ∷ packets) = (dissect packet ≡ none) ⊎ Overread packets

-- What the callbacks add to what there is.
abbrev Adds : Captured → List Bytes → Option Captured → Type 0
Adds c packets none = Overread packets
Adds c packets (some c') =
    (c'.dumped ≡ c.dumped ++ packets)
    × (printed : List (List Output)) × (c'.printed ≡ c.printed ++ printed)
    × Numbered c.packet_count packets printed

after_packet :
    (c : Captured) (packet : Bytes) (packets : List Bytes) (out : List Output) (r : Option Captured)
    → dissect packet ≡ some out
    → Adds
        (record {
          dumped = c.dumped ++ (packet ∷ []);
          printed = c.printed ++ ((packet_number c.packet_count ∷ out) ∷ []);
          packet_count = c.packet_count + 1;
        })
        packets
        r
    → Adds c (packet ∷ packets) r
after_packet c packet packets out none e h = inr h
after_packet c packet packets out (some c') e (d, printed, p, n) = (
  d ∙ append_assoc c.dumped (packet ∷ []) packets,
  (packet_number c.packet_count ∷ out) ∷ printed,
  p ∙ append_assoc c.printed ((packet_number c.packet_count ∷ out) ∷ []) printed,
  ((out, e, refl), n),
)

one_callback :
    (c : Captured) (packet : Bytes) (packets : List Bytes) (o : Option (List Output))
    → dissect packet ≡ o
    → ((c' : Captured) → Adds c' packets (callbacks c' packets))
    → Adds c (packet ∷ packets) (callbacks c (packet ∷ packets))
unfolding callbacks pcap_callback got_packet
one_callback c packet packets none e h = rw e (inl e)
one_callback c packet packets (some out) e h = rw e (after_packet c packet packets out _ e (h _))

callbacks-Adds : (c : Captured) (packets : List Bytes) → Adds c packets (callbacks c packets)
unfolding callbacks
callbacks-Adds c [] = (sym (append-nil c.dumped), [], sym (append-nil c.printed), refl)
callbacks-Adds c (packet ∷ packets) =
    one_callback c packet packets (dissect packet) refl (λ c'. callbacks-Adds c' packets)

module _ (p : Pcap) (argc : ℕ) where
  -- What an end says: a capture has the packets in the file, and each printed under its number from 1.
  abbrev pub Captures : Ending → Type 0
  Captures idle = argc ≡ 2
  Captures exit_failure = argc ≢ 2
  Captures (complete c) =
      (argc < 2)
      × (length c.dumped ≤ 10)
      × (c.dumped ≡ p.loop 10)
      × Numbered 1 (p.loop 10) c.printed
  Captures undefined = (argc < 2) × ((p.dump_open ≡ false) ⊎ Overread (p.loop 10))

  added :
      (packets : List Bytes) (r : Option Captured)
      → argc < 2
      → packets ≡ p.loop 10
      → length packets ≤ 10
      → Adds (record { dumped = []; printed = []; packet_count = 1 }) packets r
      → Captures (ended r)
  added packets none a e l h = (a, inr (subst Overread e h))
  added packets (some c) a e l (d, printed, q, n) = (
    a,
    omega (arith, l, ap length d),
    d ∙ e,
    subst (λ ps. Numbered 1 ps c.printed) e (subst (Numbered 1 packets) (sym q) n),
  )

  to_file-Captures :
      (is_open : Bool) (packets : List Bytes)
      → p.dump_open ≡ is_open
      → argc < 2
      → packets ≡ p.loop 10
      → length packets ≤ 10
      → Captures (ended (to_file is_open packets))
  to_file-Captures is_open [] o a e l = added [] (to_file is_open []) a e l (refl, [], refl, refl)
  to_file-Captures false (packet ∷ packets) o a e l = (a, inl o)
  to_file-Captures true (packet ∷ packets) o a e l =
      added (packet ∷ packets) _ a e l (callbacks-Adds _ (packet ∷ packets))

  listen-Captures : (dev : Bytes) → IsPcap p → argc < 2 → argc ≢ 2 → Captures (listen p dev)
  unfolding listen
  listen-Captures dev law a n =
      if_both Captures (p.open_live dev) _ _
        (λ _.
          if_both Captures (p.is_ethernet dev) _ _
            (λ _.
              if_both Captures (p.compile (codes "ip") (net_of (p.lookup_net dev))) _ _
                (λ _.
                  if_both Captures p.set_filter _ _
                    (λ _.
                      to_file-Captures p.dump_open (p.loop 10) refl a refl
                        (law.loop_count 10 (omega arith)))
                    (λ _. n))
                (λ _. n))
            (λ _. n))
        (λ _. n)

  found :
      (devs : Option (List Bytes))
      → IsPcap p
      → argc < 2
      → argc ≢ 2
      → Captures (default_device p devs)
  found none law a n = n
  found (some []) law a n = n
  found (some (dev ∷ devs)) law a n = listen-Captures dev law a n

  -- Over a libpcap that hands over no more packets than asked for: with one argument nothing is captured at
  -- all; without one, a capture that completes has put the packets, at most ten, into the file in their
  -- order, and printed the dissection of each, under its number from 1. It is undefined only if a packet
  -- is read past its end, or the file for the packets could not be opened.
  pub pcap_main-Captures : IsPcap p → Captures (pcap_main p argc)
  unfolding pcap_main
  pcap_main-Captures law =
      if_both Captures (argc == 2) _ _ (λ e. ground arith)
        (λ f.
          let n : argc ≢ 2 = ground arith in
          if_both Captures (ltb 2 argc) _ _ (λ _. n) (λ g. found p.all_devs law (ground arith) n))
