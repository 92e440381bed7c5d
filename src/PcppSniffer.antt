-- ===== src/PcppSniffer.antt =====
-- lesson2/PcapPlPl_snifer/main.cpp: the menu, the capture and what becomes of the packets. PcapPlusPlus is a
-- parameter; what is typed is a list of words.
use gb_cpp_network_programmi.Base.{
  ◌≡◌, ℕ, zero, suc, ◌+◌, ◌-◌, ◌*◌, ◌%◌, Bool, true, false, ◌&&◌, ◌||◌, List, [], ◌∷◌, Bytes,
  length, map, leb, ltb, ◌==◌, codes, text_eq, stoi, Option, none, some, if◌then◌else◌,
}
use gb_cpp_network_programmi.Base.Fallible.{◌>>=◌}
pub mod Replay

-- An interface: whether it opens, what it captures in the five seconds, and which packets it can send.
pub record LiveDevice : Type 0 where
  pub can_open : Bool
  pub captured : List Bytes
  pub can_send : Bytes → Bool

-- A file device is open or not. `open` of a writer empties the file.
pub record Pcpp : Type 0 where
  pub live_device_by_name : Bytes → Option LiveDevice
  pub live_device_by_ip : Bytes → Option LiveDevice
  pub can_write : Bool
  -- the result of `writePackets`, and what it adds to the file
  pub write_packets : Bool → List Bytes → Bool × List Bytes
  -- of a file: the first packet, if it opens and if it has one
  pub first_packet : Bytes → Option (Option Bytes)
  -- `Packet::toString`
  pub to_string : Bytes → Bytes

-- "False will be returned if the file isn't opened".
pub record IsPcpp (p : Pcpp) : Type 0 where
  pub write_packets_closed : (packets : List Bytes) → p.write_packets false packets ≡ (false, [])

-- A device that was constructed, and not opened yet.
abbrev pub is_open_writer : Bool
is_open_writer = false

-- `WriteFile`: each line has a device of its own. Its result, and the packets in the file.
unfoldable pub write_file : Pcpp → List Bytes → List Bytes → Bool × List Bytes
write_file p file packets =
    if p.can_write then p.write_packets is_open_writer packets else (false, file)

-- `OpenFile`: it returns false, or comes to its end, where no value is returned.
pub data Opened : Type 0 where
  returned_false : Opened
  no_return : Opened

unfoldable pub open_file : Option (Option Bytes) → Opened
open_file none = returned_false
open_file (some none) = returned_false
open_file (some (some packet)) = no_return

-- Of a question: the answer and the words behind it; no more words; or an exception that nobody catches.
pub data Asked {ℓ} (A : Type ℓ) : Type ℓ where
  answer : A → List Bytes → Asked A
  waits : Asked A
  throws : Asked A

-- The do loops over a number, which is put into a `uint8_t`.
abbrev pub choice : ℕ → Option ℕ → List Bytes → Asked ℕ → Asked ℕ
choice most none typed again = throws
choice most (some n) typed again =
    if n % 256 == 0 || ltb most (n % 256) then again else answer (n % 256) typed

unfoldable pub ask_number : ℕ → List Bytes → Asked ℕ
ask_number most [] = waits
ask_number most (word ∷ typed) = choice most (stoi word) typed (ask_number most typed)

-- The do loops over a name, an address and the last answer.
unfoldable pub ask_word : (Bytes → Bool) → List Bytes → Asked Bytes
ask_word fits [] = waits
ask_word fits (word ∷ typed) =
    let again = ask_word fits typed in if fits word then answer word typed else again

-- What is shown, what is sent back, the packets in the file, and the counts that are printed.
pub record Trace : Type 0 where
  pub shown : List Bytes
  pub sent : List Bytes
  pub file : List Bytes
  pub counts : List ℕ

pub data Ending : Type 0 where
  returned : ℕ → Trace → Ending
  terminated asking undefined : Ending

abbrev pub after {ℓ} : {A : Type ℓ} → Asked A → (A → List Bytes → Ending) → Ending
after (answer a typed) k = k a typed
after waits k = asking
after throws k = terminated

-- The sending loop: the packets that go out, and the count that each round prints.
unfoldable pub send_loop : (Bytes → Bool) → ℕ → List Bytes → List Bytes × List ℕ
send_loop can_send size [] = ([], [])
send_loop can_send size (packet ∷ packets) =
    let rest = send_loop can_send size packets in
    (if can_send packet then packet ∷ rest.0 else rest.0, size ∷ rest.1)

module _ (p : Pcpp) (file : List Bytes) where
  abbrev pub nothing : Trace
  nothing = record { shown = []; sent = []; file = file; counts = [] }

  -- Behind the question whether to save.
  unfoldable pub finish : LiveDevice → Bytes → Ending
  finish d reply =
      let file' =
        if text_eq reply (codes "Y") || text_eq reply (codes "y")
        then (write_file p file d.captured).1
        else file in
      returned 0 (record {
        shown = map p.to_string d.captured;
        sent = (send_loop d.can_send (length d.captured) d.captured).0;
        file = file';
        counts = (send_loop d.can_send (length d.captured) d.captured).1;
      })

  unfoldable pub capture : Option LiveDevice → List Bytes → Ending
  capture none typed = returned 1 nothing
  capture (some d) typed =
      if d.can_open
      then after (ask_word (λ w. length w == 1) typed) (λ reply typed'. finish d reply)
      else returned 1 nothing

  unfoldable pub select_device : ℕ → List Bytes → Ending
  select_device n typed =
      if n == 1
      then after (ask_word (λ w. leb 2 (length w)) typed)
          (λ name typed'. capture (p.live_device_by_name name) typed')
      else after (ask_word (λ w. leb 6 (length w)) typed)
          (λ ip typed'. capture (p.live_device_by_ip ip) typed')

  abbrev pub after_file : Opened → List Bytes → Ending
  after_file no_return typed = undefined
  after_file returned_false typed =
      after (ask_word (λ w. true) typed) (λ w typed'. returned 0 nothing)

  unfoldable pub choose : ℕ → List Bytes → Ending
  choose n typed =
      if n == 1
      then after (ask_word (λ w. true) typed)
          (λ path typed'. after_file (open_file (p.first_packet path)) typed')
      else if n == 3
      then returned 0 nothing
      else after (ask_number 2 typed) select_device

  unfoldable pub pcpp_main : List Bytes → Ending
  pcpp_main typed = after (ask_number 3 typed) choose
