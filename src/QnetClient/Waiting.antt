-- ===== src/QnetClient/Waiting.antt =====
-- How lesson5/qnet_tcp_client/main.cpp waits: always with a timer, in one event loop more for each request.
use gb_cpp_network_programmi.Base.{
  ℕ, zero, suc, ◌≡◌, ◌⊎◌, inl, inr, refl, sym, ap, ◌∙◌, subst, true, false, if_both, List, [], ◌∷◌,
  ◌++◌, Bytes, replicate, length, length-append, codes, Option, none, some, ◌==◌, arith,
}
use gb_cpp_network_programmi.Base.Fallible.{◌>>=◌}
use gb_cpp_network_programmi.Qt.{Qt, All, All-append}
use gb_cpp_network_programmi.QnetClient.{
  Client, ask_kind, ask_message, url, quit, request, by_kind, slot_new_connection, go_on,
  slot_timeout_waiting, on_response, slot_server_disconnected, Event, finishes, times_out,
  disconnects, handle, run,
}

-- The client has ended or its timer is on.
abbrev pub Waits : Client → Type 0
Waits c = (c.has_quit ≡ true) ⊎ (c.timer_active ≡ true)

module _ (q : Qt) where
  abbrev pub IsTask : Bytes → Bytes → ℕ → Bytes → Type 0
  IsTask task host port u =
      (message : Bytes) × (u
        ≡ codes "http://" ++ (host ++ (codes ":" ++ (q.number port ++ (task ++ message)))))

  abbrev pub IsUrl : Client → Bytes → Type 0
  IsUrl c u =
      IsTask (codes "/command/") c.host_name c.server_port u
      ⊎ IsTask (codes "/message/") c.host_name c.server_port u

  pub record IsSound (c : Client) : Type 0 where
    pub nested : c.loops ≡ length c.requested
    pub urls : All (IsUrl c) c.requested

  pub record IsWaiting (c : Client) : Type 0 where
    pub waits : Waits c
    pub sound : IsSound c

  abbrev pub Keeps : Option Client → Type 0
  Keeps none = Unit
  Keeps (some c) = IsWaiting c

  request-Keeps :
      (task : Bytes) (c : Client)
      → ((message : Bytes) → IsUrl c (url q c task message))
      → IsSound c
      → Keeps (request q task c)
  unfolding request
  request-Keeps task c u s = asked (ask_message c.typed)
    where
      asked :
          (r : Option (Bytes × List Bytes))
          → Keeps (
              r >>= λ p. some (record c {
                typed = p.1;
                requested = c.requested ++ (url q c task p.0 ∷ []);
                timer_active = true;
                loops = suc c.loops;
              }))
      asked none = tt
      asked (some (message, typed)) = record {
        waits = inr refl;
        sound = record {
          nested = omega (arith, s.nested, length-append c.requested (url q c task message ∷ []));
          urls =
              All-append (IsUrl c) c.requested (url q c task message ∷ []) s.urls (u message, tt);
        };
      }

  by_kind-Keeps : (kind : ℕ) (c : Client) → IsSound c → Keeps (by_kind q kind c)
  by_kind-Keeps kind c s =
      if_both Keeps (kind == 1) _ _
        (λ _. request-Keeps (codes "/command/") c (λ m. inl (m, refl)) s)
        (λ _.
          if_both Keeps (kind == 2) _ _
            (λ _. request-Keeps (codes "/message/") c (λ m. inr (m, refl)) s)
            (λ _. record { waits = inl refl; sound = record { nested = s.nested; urls = s.urls } }))

  slot_new_connection-Keeps : (c : Client) → IsSound c → Keeps (slot_new_connection q c)
  unfolding slot_new_connection
  slot_new_connection-Keeps c s = asked (ask_kind q c.typed)
    where
      asked :
          (r : Option (ℕ × List Bytes))
          → Keeps (r >>= λ p. by_kind q p.0 (record c { typed = p.1 }))
      asked none = tt
      asked (some (kind, typed)) =
          by_kind-Keeps kind (record c { typed = typed })
            (record { nested = s.nested; urls = s.urls })

  go_on-Keeps : (c : Client) → IsSound c → Keeps (go_on q c)
  go_on-Keeps c s =
      if_both Keeps c.is_valid _ _ (λ _. slot_new_connection-Keeps c s)
        (λ _. record { waits = inl refl; sound = record { nested = s.nested; urls = s.urls } })

  handle-Keeps : (c : Client) (e : Event) → IsWaiting c → Keeps (handle q c e)
  unfolding handle on_response slot_timeout_waiting slot_server_disconnected
  handle-Keeps c (finishes has_error) w =
      if_both Keeps has_error _ _ (λ _. w)
        (λ _.
          go_on-Keeps (record c { timer_active = false })
            (record { nested = w.sound.nested; urls = w.sound.urls }))
  handle-Keeps c times_out w =
      if_both Keeps c.timer_active _ _
        (λ _.
          go_on-Keeps (record c { timer_active = false })
            (record { nested = w.sound.nested; urls = w.sound.urls }))
        (λ _. w)
  handle-Keeps c disconnects w = record {
    waits = w.waits;
    sound = record { nested = w.sound.nested; urls = w.sound.urls };
  }

  run-Keeps : (c : Client) (es : List Event) → IsWaiting c → Keeps (run q c es)
  unfolding run
  run-Keeps c [] w = w
  run-Keeps c (e ∷ es) w =
      if_both Keeps c.has_quit _ _ (λ _. w)
        (λ _. onwards (handle q c e) (handle-Keeps c e w) (λ c' w'. run-Keeps c' es w'))
    where
      onwards :
          (o : Option Client)
          → Keeps o
          → ((c' : Client) → IsWaiting c' → Keeps (run q c' es))
          → Keeps (o >>= λ c'. run q c' es)
      onwards none w f = tt
      onwards (some c') w f = f c' w

  -- From the connection on, with no request made before, whatever is typed, answered and refused, and
  -- whatever times out: a client that is not asking for a word has ended or its timer is on; it stands in
  -- as many event loops, one inside the other, as it has sent requests; and each of these names the
  -- server, one of the two tasks, and a word.
  pub session-Keeps :
      (c : Client) (es : List Event)
      → c.requested ≡ []
      → c.loops ≡ 0
      → Keeps (slot_new_connection q c >>= λ c'. run q c' es)
  session-Keeps c es r l = onwards (slot_new_connection q c) (
      slot_new_connection-Keeps c (record {
        nested = omega (arith, l, ap length r);
        urls = subst (All (IsUrl c)) (sym r) tt;
      }))
    where
      onwards : (o : Option Client) → Keeps o → Keeps (o >>= λ c'. run q c' es)
      onwards none w = tt
      onwards (some c') w = run-Keeps c' es w

  still_on : (c : Client) → Waits c → c.has_quit ≡ false → c.timer_active ≡ true
  still_on c (inl e) h = cc
  still_on c (inr e) h = e

  run_quit : (c : Client) (es : List Event) → c.has_quit ≡ true → run q c es ≡ some c
  unfolding run
  run_quit c [] h = refl
  run_quit c (e ∷ es) h = rw h refl

  run_step :
      (c c' : Client) (e : Event) (es : List Event)
      → c.has_quit ≡ false
      → handle q c e ≡ some c'
      → run q c (e ∷ es) ≡ run q c' es
  unfolding run
  run_step c c' e es h s =
      if_both (λ r. r ≡ run q c' es) c.has_quit _ _ (λ t. cc)
        (λ _. ap (λ o. o >>= λ c''. run q c'' es) s)

  timeout_quits :
      (c : Client)
      → c.is_valid ≡ false
      → c.timer_active ≡ true
      → handle q c times_out ≡ some (quit (record c { timer_active = false }))
  unfolding handle slot_timeout_waiting
  timeout_quits c v t =
      if_both (λ r. r ≡ some (quit (record c { timer_active = false }))) c.timer_active _ _
        (λ _.
          if_both (λ r. r ≡ some (quit (record c { timer_active = false }))) c.is_valid _ _
            (λ e. cc) (λ _. refl))
        (λ e. cc)

  closed_quits :
      (c : Client) (failures : ℕ) (es : List Event)
      → c.is_valid ≡ false
      → c.has_quit ≡ false
      → c.timer_active ≡ true
      → run q c (replicate failures (finishes true) ++ (times_out ∷ es))
        ≡ some (quit (record c { timer_active = false }))
  unfolding handle
  closed_quits c zero es v h t =
      run_step c (quit (record c { timer_active = false })) times_out es h (timeout_quits c v t)
      ∙ run_quit (quit (record c { timer_active = false })) es refl
  closed_quits c (suc failures) es v h t =
      run_step c c (finishes true) _ h refl ∙ closed_quits c failures es v h t

  -- A server that closes the connection ends a client that waits: at the latest when its timer runs out,
  -- whatever failures are reported before that, and without another request.
  pub quits_after_close :
      (c : Client) (failures : ℕ) (es : List Event)
      → Waits c
      → c.has_quit ≡ false
      → (c' : Client) × (run q c
            (disconnects ∷ (replicate failures (finishes true) ++ (times_out ∷ es)))
          ≡ some c')
        × (c'.has_quit ≡ true)
        × (c'.requested ≡ c.requested)
  unfolding handle slot_server_disconnected
  quits_after_close c failures es w h =
      let t : c.timer_active ≡ true = still_on c w h in
      (
        quit (record c { is_valid = false; timer_active = false }),
        run_step c (record c { is_valid = false }) disconnects _ h refl
            ∙ closed_quits (record c { is_valid = false }) failures es refl h t,
        refl,
        refl,
      )
