-- ===== src/ChatSession/Real.antt =====
-- What a peer of lesson8/f2f_chat does to the clients that it knows: they stay those who take part.
use mathlib.Core.List.{Memᴰ}
use gb_cpp_network_programmi.Base.{
  get_elem?_cases, ℕ, zero, suc, ◌+◌, ◌≡◌, sym, subst, Bool, true, false, if_both, inl, inr, List,
  [], ◌∷◌, ◌++◌, Bytes, length, get_elem?, ◌==◌, ltb, text_eq, codes, Option, none, some,
  if◌then◌else◌, arith,
}
use gb_cpp_network_programmi.Qt.{All-erase_at, Qt, All, All-append}
use gb_cpp_network_programmi.Chat.{
  label, ChatUser, ChatNetwork, Effect, datagram, new_user, new_message, user_disconnect,
  close_connections, Run, ok, undefined, no_fuel, packet, send_message, push_client, Scan, ran,
  returned, dangling, scan_fuel, scan_users, announce, after_scan, add_user, leave_loop,
  slot_disconnected, control, show_message,
}
use gb_cpp_network_programmi.Chat.Leaving.{IsSynced, leave_step, without, without-IsSynced}
use gb_cpp_network_programmi.Chat.Wire.{IsField}
use gb_cpp_network_programmi.ChatSession.{written}

pub All-Memᴰ {ℓ κ} :
    {A : Type ℓ} (P : A → Type κ) (x : A) (xs : List A) → All P xs → Memᴰ x xs → P x
All-Memᴰ P x [] h m = elim m [ ]
All-Memᴰ P x (y ∷ ys) h (Memᴰ.head e) = subst P (sym e) h.0
All-Memᴰ P x (y ∷ ys) h (Memᴰ.tail m) = All-Memᴰ P x ys h.1 m

module _ (q : Qt) (Member : Bytes → Bytes → Type 0) where
  -- A contact of a peer: one who takes part, and not the peer itself.
  abbrev pub IsOther : Bytes → ChatUser → Type 0
  IsOther own u = Member u.nikname u.program_id × (text_eq u.program_id own ≡ false)

  pub record IsReal (c : ChatNetwork) : Type 0 where
    pub me : Member c.user_name c.id_program
    pub contacts : All (IsOther c.id_program) c.vec_user

  -- The datagrams of those who take part.
  pub data IsHonest : Bytes → Type 0 where
    control_packet :
        (text name id : Bytes)
        → IsField text
        → Member name id
        → IsHonest (packet q (codes "1/") text name id)
    text_packet :
        (text name id : Bytes)
        → IsField text
        → Member name id
        → IsHonest (packet q (codes "2/") text name id)

  abbrev pub Writes : List Effect → Type 0
  Writes effects = All IsHonest (written effects)

  abbrev pub Stays : Run → Type 0
  Stays (ok c effects) = IsReal c × Writes effects
  Stays undefined = Unit
  Stays no_fuel = Unit

  abbrev StaysScan : Scan → Type 0
  StaysScan (ran c) = IsReal c
  StaysScan (returned c) = IsReal c
  StaysScan dangling = Unit
  StaysScan scan_fuel = Unit

  module _ (client : ChatUser) (m : Member client.nikname client.program_id) where
    push_client-IsReal :
        (c : ChatNetwork)
        → text_eq client.program_id c.id_program ≡ false
        → IsReal c
        → IsReal (push_client q client c)
    unfolding push_client
    push_client-IsReal c o r = record {
      me = r.me;
      contacts = All-append (IsOther c.id_program) c.vec_user (client ∷ []) r.contacts ((m, o), tt);
    }

    scan_users-Stays :
        (fuel i : ℕ) (c : ChatNetwork)
        → text_eq client.program_id c.id_program ≡ false
        → IsReal c
        → StaysScan (scan_users q client fuel i c)
    unfolding scan_users push_client
    scan_users-Stays zero i c o r = tt
    scan_users-Stays (suc fuel) i c o r =
        at (get_elem? c.vec_user i)
          (scan_users-Stays fuel (i + 1) (push_client q client c) o (push_client-IsReal c o r))
      where
        at :
            (u : Option ChatUser)
            → StaysScan (scan_users q client fuel (i + 1) (push_client q client c))
            → StaysScan (elim u [
              | none ↦ ran c
              | some u ↦
                  if text_eq u.program_id client.program_id
                  then returned c
                  else if ltb (length c.vec_user) c.capacity
                  then scan_users q client fuel (i + 1) (push_client q client c)
                  else dangling
            ])
        at none g = r
        at (some u) g =
            if_both StaysScan (text_eq u.program_id client.program_id) _ _ (λ _. r)
              (λ _. if_both StaysScan (ltb (length c.vec_user) c.capacity) _ _ (λ _. g) (λ _. tt))

    -- The answer to a newcomer.
    announce-Writes :
        (back_send : Bool) (c : ChatNetwork) → IsReal c → Writes (announce q client back_send c)
    unfolding announce send_message
    announce-Writes true c r =
        (control_packet (codes "hi") c.user_name c.id_program (omega arith, omega arith) r.me, tt)
    announce-Writes false c r = tt

    after_scan-Stays :
        (back_send : Bool) (s : Scan) → StaysScan s → Stays (after_scan q client back_send s)
    after_scan-Stays back_send (ran c) r = (r, announce-Writes back_send c r)
    after_scan-Stays back_send (returned c) r = (r, tt)
    after_scan-Stays back_send dangling r = tt
    after_scan-Stays back_send scan_fuel r = tt

    add_user-Stays :
        (c : ChatNetwork) (back_send : Bool) → IsReal c → Stays (add_user q c client back_send)
    unfolding add_user
    add_user-Stays c back_send r =
        if_both Stays (text_eq client.program_id c.id_program) _ _ (λ _. (r, tt))
          (λ o.
            if_both Stays (length c.vec_user == 0) _ _
              (λ _. (
                push_client-IsReal c o r,
                announce-Writes back_send (push_client q client c) (push_client-IsReal c o r),
              ))
              (λ _.
                after_scan-Stays back_send (scan_users q client (length c.vec_user + 2) 0 c)
                  (scan_users-Stays (length c.vec_user + 2) 0 c o r)))

  leave_loop-Stays :
      (id : Bytes) (fuel i : ℕ) (c : ChatNetwork) (effects : List Effect)
      → IsSynced c
      → IsReal c
      → Writes effects
      → Stays (leave_loop id fuel c i i effects)
  leave_loop-Stays id zero i c effects s r w = unfold leave_loop in tt
  leave_loop-Stays id (suc fuel) i c effects s r w = elim (get_elem?_cases c.vec_user i) [
    | inl (out, none_at) ↦
        unfold leave_loop in
        if_both Stays (i == length c.vec_user) (ok c effects) _ (λ end. (r, w))
          (λ past. rw (none_at, leave_loop) tt)
    | inr (inside, u, at) ↦ rw (leave_step id fuel i c u effects inside at s) (
        if_both Stays (text_eq u.program_id id) _ _
          (λ here.
            leave_loop-Stays id fuel (i + 1) (without i u c)
              (effects ++ user_disconnect (label u) ∷ []) (without-IsSynced i u c s)
              (record {
                me = r.me;
                contacts = All-erase_at (IsOther c.id_program) i c.vec_user r.contacts;
              })
              (Writes-leave effects _ w))
          (λ other. leave_loop-Stays id fuel (i + 1) c effects s r w))
  ]
    where
      Writes-leave :
          (effects : List Effect) (gone : Bytes)
          → Writes effects
          → Writes (effects ++ (user_disconnect gone ∷ []))
      Writes-leave [] gone w = tt
      Writes-leave (datagram address bytes ∷ effects) gone w = (w.0, Writes-leave effects gone w.1)
      Writes-leave (new_user ∷ effects) gone w = Writes-leave effects gone w
      Writes-leave (new_message ∷ effects) gone w = Writes-leave effects gone w
      Writes-leave (user_disconnect before ∷ effects) gone w = Writes-leave effects gone w
      Writes-leave (close_connections ∷ effects) gone w = Writes-leave effects gone w

  pub control-Stays :
      (c : ChatNetwork) (client : ChatUser) (message : Bytes)
      → Member client.nikname client.program_id
      → IsSynced c
      → IsReal c
      → Stays (control q c client message)
  unfolding control slot_disconnected
  control-Stays c client message m s r =
      if_both Stays (text_eq message (codes "whos here")) _ _
        (λ _. add_user-Stays client m c true r)
        (λ _.
          if_both Stays (text_eq message (codes "hi")) _ _ (λ _. add_user-Stays client m c false r)
            (λ _.
              if_both Stays (text_eq message (codes "bye")) _ _
                (λ _. leave_loop-Stays client.program_id (length c.vec_user + 2) 0 c [] s r tt)
                (λ _. (r, tt))))

  pub show_message-Stays :
      (c : ChatNetwork) (text name id : Bytes) → IsReal c → Stays (show_message c text name id)
  unfolding show_message
  show_message-Stays c text name id r = (record { me = r.me; contacts = r.contacts }, tt)
