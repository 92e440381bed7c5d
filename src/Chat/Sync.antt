-- ===== src/Chat/Sync.antt =====
-- The two lists of lesson8/f2f_chat/chatnetwork.cpp stay in step, and every loop ends.
use mathlib.Core.List.{map-append}
use mathlib.Core.Bool.{false≢true}
use native.Mathlib.Decide.{ℕ_discrete}
use gb_cpp_network_programmi.Base.{
  get_elem?_cases, erase_at, ℕ, zero, suc, ◌+◌, ◌≤◌, ◌<◌, ◌≡◌, refl, sym, ap, ◌∙◌, Bool, true,
  false, List, [], ◌∷◌, ◌++◌, Bytes, length, get_elem?, text_eq, text_eq_refl, ◌==◌, ltb, some,
  if_both, arith, inl, inr,
}
use gb_cpp_network_programmi.Qt.{Qt}
use gb_cpp_network_programmi.Chat.{
  ChatUser, ChatNetwork, Effect, Run, ok, undefined, no_fuel, label, push_client, Scan, ran,
  returned, dangling, scan_fuel, scan_users, add_user, user_disconnect, after_scan, leave_loop,
  slot_disconnected, control, handle_packet, slot_read_messages,
}
use gb_cpp_network_programmi.Chat.Leaving.{
  IsSynced, leave_step, get_elem?_at, without, without-IsSynced,
}

-- A run that returns leaves the lists in step; no run ends for want of fuel.
abbrev pub Keeps : Run → Type 0
Keeps (ok c effects) = IsSynced c
Keeps undefined = Unit
Keeps no_fuel = ⊥

abbrev KeepsScan : Scan → Type 0
KeepsScan (ran c) = IsSynced c
KeepsScan (returned c) = IsSynced c
KeepsScan dangling = Unit
KeepsScan scan_fuel = ⊥

get_elem?-append {ℓ} :
    {A : Type ℓ} (xs ys : List A) (i : ℕ) (a : A)
    → get_elem? xs i ≡ some a
    → get_elem? (xs ++ ys) i ≡ some a
get_elem?-append [] ys i a e = cc
get_elem?-append (x ∷ xs) ys zero a e = e
get_elem?-append (x ∷ xs) ys (suc i) a e = get_elem?-append xs ys i a e

length-erase_at {ℓ} :
    {A : Type ℓ} (i : ℕ) (xs : List A) → i < length xs → length (erase_at i xs) + 1 ≡ length xs
length-erase_at i [] h = absurd (omega arith)
length-erase_at zero (x ∷ xs) h = omega arith
length-erase_at (suc i) (x ∷ xs) h = omega (arith, length-erase_at i xs (omega arith))

push_client-IsSynced :
    (q : Qt) (client : ChatUser) (c : ChatNetwork) → IsSynced c → IsSynced (push_client q client c)
unfolding push_client
push_client-IsSynced q client c s =
    ap (λ l. l ++ label client ∷ []) s ∙ sym (map-append label c.vec_user (client ∷ []))

module _ (q : Qt) (client : ChatUser) where
  -- Past the first round the client itself stands at index `n`, where the loop returns at the latest.
  scan_users-Keeps :
      (fuel i n : ℕ) (c : ChatNetwork)
      → IsSynced c
      → get_elem? c.vec_user n ≡ some client
      → i ≤ n
      → n < fuel + i
      → KeepsScan (scan_users q client fuel i c)
  unfolding scan_users
  scan_users-Keeps zero i n c s e h f = absurd (omega arith)
  scan_users-Keeps (suc fuel) i n c s e h f = elim (get_elem?_cases c.vec_user i) [
    | inl (out, none_at) ↦ rw (none_at, scan_users) s
    | inr (inside, u, at) ↦
        rw (at, scan_users)
          (if_both KeepsScan (text_eq u.program_id client.program_id) _ _ (λ same. s)
            λ other.
              if_both KeepsScan (ltb (length c.vec_user) c.capacity) _ _
                (λ room.
                  scan_users-Keeps fuel (i + 1) n (push_client q client c)
                    (push_client-IsSynced q client c s)
                    (get_elem?-append c.vec_user (client ∷ []) n client e) (before u at other)
                    (omega arith))
                (λ full. tt))
  ]
    where
      before :
          (u : ChatUser)
          → get_elem? c.vec_user i ≡ some u
          → text_eq u.program_id client.program_id ≡ false
          → i + 1 ≤ n
      before u at other = elim (ℕ_discrete i n) [
        | yes same ↦ absurd (false≢true (sym other ∙ itself u (cc (at, e, same))))
        | no ne ↦ omega arith
      ]
        where
          itself : (u : ChatUser) → u ≡ client → text_eq u.program_id client.program_id ≡ true
          itself u p = rw p (text_eq_refl client.program_id)

  scan_users_first :
      (fuel : ℕ) (c : ChatNetwork)
      → 0 < length c.vec_user
      → IsSynced c
      → length c.vec_user < fuel
      → KeepsScan (scan_users q client (suc fuel) 0 c)
  unfolding scan_users
  scan_users_first fuel c h s f = elim (get_elem?_cases c.vec_user 0) [
    | inl (out, none_at) ↦ absurd (omega arith)
    | inr (inside, u, at) ↦
        rw (at, scan_users)
          (if_both KeepsScan (text_eq u.program_id client.program_id) _ _ (λ same. s)
            λ other.
              if_both KeepsScan (ltb (length c.vec_user) c.capacity) _ _
                (λ room.
                  scan_users-Keeps fuel 1 (length c.vec_user) (push_client q client c)
                    (push_client-IsSynced q client c s)
                    (get_elem?_at c.vec_user client [] (length c.vec_user) refl) (omega arith)
                    (omega arith))
                (λ full. tt))
  ]

  after_scan-Keeps :
      (back_send : Bool) (r : Scan) → KeepsScan r → Keeps (after_scan q client back_send r)
  after_scan-Keeps back_send (ran c) h = h
  after_scan-Keeps back_send (returned c) h = h
  after_scan-Keeps back_send dangling h = tt
  after_scan-Keeps back_send scan_fuel h = h

  add_user-Keeps :
      (c : ChatNetwork) (back_send : Bool) → IsSynced c → Keeps (add_user q c client back_send)
  unfolding add_user
  add_user-Keeps c back_send s =
      let f : length c.vec_user + 2 ≡ suc (length c.vec_user + 1) = omega arith in
      if_both Keeps (text_eq client.program_id c.id_program) _ _ (λ own. s)
        λ other.
          if_both Keeps (length c.vec_user == 0) _ _ (λ first. push_client-IsSynced q client c s)
            λ later.
              after_scan-Keeps back_send _
                (rw f (scan_users_first (length c.vec_user + 1) c (ground arith) s (omega arith)))

module _ (id : Bytes) where
  leave_loop-Keeps :
      (fuel i : ℕ) (c : ChatNetwork) (effects : List Effect)
      → IsSynced c
      → i ≤ length c.vec_user + 1
      → length c.vec_user + 2 ≤ fuel + i
      → Keeps (leave_loop id fuel c i i effects)
  leave_loop-Keeps zero i c effects s h f = absurd (omega arith)
  leave_loop-Keeps (suc fuel) i c effects s h f = elim (get_elem?_cases c.vec_user i) [
    | inl (out, none_at) ↦
        unfold leave_loop in
        if_both Keeps (i == length c.vec_user) (ok c effects) _ (λ end. s)
          (λ past. rw (none_at, leave_loop) tt)
    | inr (inside, u, at) ↦ rw (leave_step id fuel i c u effects inside at s) (
        if_both Keeps (text_eq u.program_id id) _ _
          (λ here.
            leave_loop-Keeps fuel (i + 1) (without i u c)
              (effects ++ user_disconnect (label u) ∷ []) (without-IsSynced i u c s)
              (omega (arith, length-erase_at i c.vec_user inside))
              (omega (arith, length-erase_at i c.vec_user inside)))
          (λ other. leave_loop-Keeps fuel (i + 1) c effects s (omega arith) (omega arith)))
  ]

  slot_disconnected-Keeps : (c : ChatNetwork) → IsSynced c → Keeps (slot_disconnected c id)
  unfolding slot_disconnected
  slot_disconnected-Keeps c s =
      leave_loop-Keeps (length c.vec_user + 2) 0 c [] s (omega arith) (omega arith)

control-Keeps :
    (q : Qt) (c : ChatNetwork) (client : ChatUser) (message : Bytes)
    → IsSynced c
    → Keeps (control q c client message)
unfolding control
control-Keeps q c client message s = ground (
  arith,
  add_user-Keeps q client c true s,
  add_user-Keeps q client c false s,
  slot_disconnected-Keeps client.program_id c s,
)

handle_packet-Keeps :
    (q : Qt) (c : ChatNetwork) (address : ℕ) (text : Bytes)
    → IsSynced c
    → Keeps (handle_packet q c address text)
unfolding handle_packet
handle_packet-Keeps q c address text s = ground (
  arith,
  control-Keeps q c
      (record {
        address = address;
        nikname = q.section text 47 2;
        program_id = q.section text 47 3;
      })
      (q.section text 47 1) s,
)

-- Reading any pending datagrams keeps the contact list in step with the known clients, unless the
-- run is undefined; and every loop ends within its fuel.
pub slot_read_messages-Keeps :
    (q : Qt) (c : ChatNetwork) (pending : List (ℕ × Bytes))
    → IsSynced c
    → Keeps (slot_read_messages q c pending)
unfolding slot_read_messages
slot_read_messages-Keeps q c pending s = handle_packet-Keeps q c _ _ s
