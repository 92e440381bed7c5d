-- ===== src/PcppSniffer/Replay.antt =====
-- What lesson2/PcapPlPl_snifer/main.cpp makes of the packets that it captures.
use gb_cpp_network_programmi.Base.{
  ℕ, ◌≡◌, ◌∙◌, ◌≤◌, ◌⊎◌, inl, inr, refl, ap, Bool, true, false, ◌||◌, ◌%◌, if_both, Bool-cases,
  List, [], ◌∷◌, Bytes, length, map, replicate, ltb, ◌==◌, codes, text_eq, stoi, Option, none, some,
  if◌then◌else◌, arith,
}
use gb_cpp_network_programmi.PcppSniffer.{
  LiveDevice, Pcpp, IsPcpp, write_file, Opened, returned_false, no_return, open_file, Asked, answer,
  waits, throws, choice, ask_number, ask_word, Trace, Ending, returned, terminated, asking,
  undefined, after, send_loop, nothing, finish, capture, select_device, after_file, choose,
  pcpp_main,
}

-- The answer is a number of the menu, and that of some word, taken as one byte.
abbrev pub IsChoice : ℕ → Asked ℕ → Type 0
IsChoice most (answer c typed) =
    (1 ≤ c) × (c ≤ most) × (word : Bytes) × (n : ℕ) × (stoi word ≡ some n) × (c ≡ n % 256)
IsChoice most waits = Unit
IsChoice most throws = Unit

choice-IsChoice :
    (most : ℕ) (word : Bytes) (o : Option ℕ) (typed : List Bytes) (again : Asked ℕ)
    → stoi word ≡ o
    → IsChoice most again
    → IsChoice most (choice most o typed again)
choice-IsChoice most word none typed again e h = tt
choice-IsChoice most word (some n) typed again e h =
    if_both (IsChoice most) (n % 256 == 0 || ltb most (n % 256)) again _ (λ t. h)
      (λ f. (ground arith, ground arith, word, n, e, refl))

-- Whatever is typed: a number that the menu takes is one of its entries, and it is some word's value modulo
-- 256.
pub ask_number-IsChoice : (most : ℕ) (typed : List Bytes) → IsChoice most (ask_number most typed)
unfolding ask_number
ask_number-IsChoice most [] = tt
ask_number-IsChoice most (word ∷ typed) =
    choice-IsChoice most word (stoi word) typed (ask_number most typed) refl
      (ask_number-IsChoice most typed)

-- The packets that can be sent, in their order.
abbrev pub sendable : (Bytes → Bool) → List Bytes → List Bytes
sendable can_send [] = []
sendable can_send (packet ∷ packets) =
    let rest = sendable can_send packets in if can_send packet then packet ∷ rest else rest

send_loop-sends :
    (can_send : Bytes → Bool) (size : ℕ) (packets : List Bytes)
    → send_loop can_send size packets ≡ (sendable can_send packets, replicate (length packets) size)
unfolding send_loop
send_loop-sends can_send size [] = refl
send_loop-sends can_send size (packet ∷ packets) = rw (send_loop-sends can_send size packets) refl

module _ (p : Pcpp) (file : List Bytes) where
  -- A trace without packets, and one of those that an interface has captured.
  abbrev pub IsIdle : Trace → Type 0
  IsIdle t = (t.shown ≡ []) × (t.sent ≡ []) × (t.file ≡ file)

  abbrev pub IsReplay : LiveDevice → Trace → Type 0
  IsReplay d t =
      (t.shown ≡ map p.to_string d.captured)
      × (t.sent ≡ sendable d.can_send d.captured)
      × (t.counts ≡ replicate (length d.captured) (length d.captured))
      × ((t.file ≡ file) ⊎ (t.file ≡ []))

  abbrev pub IsFound : LiveDevice → Type 0
  IsFound d =
      (name : Bytes) × ((p.live_device_by_name name ≡ some d) ⊎ (p.live_device_by_ip name ≡ some d))

  abbrev pub Replays : Ending → Type 0
  Replays (returned code t) =
      IsIdle t ⊎ ((d : LiveDevice) × IsFound d × (d.can_open ≡ true) × (code ≡ 0) × IsReplay d t)
  Replays terminated = Unit
  Replays asking = Unit
  Replays undefined = Unit

  after-Replays {ℓ} :
      {A : Type ℓ} (a : Asked A) (k : A → List Bytes → Ending)
      → ((x : A) (typed : List Bytes) → Replays (k x typed))
      → Replays (after a k)
  after-Replays (answer x typed) k h = h x typed
  after-Replays waits k h = tt
  after-Replays throws k h = tt

  idle : Replays (returned 0 (nothing p file))
  idle = inl (refl, refl, refl)

module _ (p : Pcpp) (law : IsPcpp p) (file : List Bytes) where
  write_file-fails :
      (packets : List Bytes) → write_file p file packets ≡ (false, if p.can_write then [] else file)
  unfolding write_file
  write_file-fails packets =
      if_both (λ r. r ≡ (false, if p.can_write then [] else file)) p.can_write _ _
        (λ e. rw (e, law.write_packets_closed packets) refl) (λ e. rw e refl)

  kept :
      (save : Bool) (packets : List Bytes)
      → ((if save then (write_file p file packets).1 else file) ≡ file)
        ⊎ ((if save then (write_file p file packets).1 else file) ≡ [])
  kept false packets = inl refl
  kept true packets = elim (Bool-cases p.can_write) [
    | inl e ↦ inr (ap (λ r. r.1) (write_file-fails packets) ∙ rw e refl)
    | inr e ↦ inl (ap (λ r. r.1) (write_file-fails packets) ∙ rw e refl)
  ]

  finish-Replays :
      (d : LiveDevice) (reply : Bytes)
      → IsFound p file d
      → d.can_open ≡ true
      → Replays p file (finish p file d reply)
  unfolding finish
  finish-Replays d reply f o = inr (
    d,
    f,
    o,
    refl,
    (
      refl,
      ap (λ r. r.0) (send_loop-sends d.can_send (length d.captured) d.captured),
      ap (λ r. r.1) (send_loop-sends d.can_send (length d.captured) d.captured),
      kept (text_eq reply (codes "Y") || text_eq reply (codes "y")) d.captured,
    ),
  )

  capture-Replays :
      (found : Option LiveDevice) (typed : List Bytes)
      → ((d : LiveDevice) → found ≡ some d → IsFound p file d)
      → Replays p file (capture p file found typed)
  unfolding capture
  capture-Replays none typed f = inl (refl, refl, refl)
  capture-Replays (some d) typed f =
      if_both (Replays p file) d.can_open _ _
        (λ o.
          after-Replays p file (ask_word _ typed) _
            (λ reply typed'. finish-Replays d reply (f d refl) o))
        (λ c. inl (refl, refl, refl))

  select_device-Replays :
      (n : ℕ) (typed : List Bytes) → Replays p file (select_device p file n typed)
  unfolding select_device
  select_device-Replays n typed =
      if_both (Replays p file) (n == 1) _ _
        (λ a. after-Replays p file (ask_word _ typed) _ (λ name typed'.
          capture-Replays (p.live_device_by_name name) typed' (λ d e. (name, inl e))))
        (λ b.
          after-Replays p file (ask_word _ typed) _
            (λ ip typed'. capture-Replays (p.live_device_by_ip ip) typed' (λ d e. (ip, inr e))))

  after_file-Replays :
      (o : Opened) (typed : List Bytes) → Replays p file (after_file p file o typed)
  after_file-Replays no_return typed = tt
  after_file-Replays returned_false typed =
      after-Replays p file (ask_word _ typed) _ (λ w typed'. idle p file)

  choose-Replays : (n : ℕ) (typed : List Bytes) → Replays p file (choose p file n typed)
  unfolding choose
  choose-Replays n typed =
      if_both (Replays p file) (n == 1) _ _
        (λ a.
          after-Replays p file (ask_word _ typed) _
            (λ path typed'. after_file-Replays (open_file (p.first_packet path)) typed'))
        (λ b.
          if_both (Replays p file) (n == 3) _ _ (λ c. idle p file)
            (λ d.
              after-Replays p file (ask_number 2 typed) (select_device p file)
                (λ m typed'. select_device-Replays m typed')))

  -- Whatever is typed, over a library that does not write to a device that is not open: a run that returns has
  -- sent nothing and left the file alone; or it has captured the packets of an interface that
  -- was found and opened, shown them all, and sent back those that can be sent, in order and each
  -- once, with the number of all of them printed each time. The file is as it was or empty: no packet is
  -- ever saved.
  pub pcpp_main-Replays : (typed : List Bytes) → Replays p file (pcpp_main p file typed)
  unfolding pcpp_main
  pcpp_main-Replays typed = after-Replays p file (ask_number 3 typed) (choose p file) choose-Replays
