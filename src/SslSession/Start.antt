-- ===== src/SslSession/Start.antt =====
-- lesson6: where a session of the two programs comes from.
use gb_cpp_network_programmi.Base.{
  ◌≡◌, refl, subst, Bool, true, List, ◌∷◌, Bytes, Option, none, some,
}
use gb_cpp_network_programmi.Qt.{Qt, All}
use gb_cpp_network_programmi.SslServer.{ThisServer}
use gb_cpp_network_programmi.SslServer.Fields.{IsValue}
use gb_cpp_network_programmi.SslClient.{Client, connect}
use gb_cpp_network_programmi.SslClient.Start.{
  handle_certificate, Configuration, on_ssl_handshake_failure, configuration, new_client, started,
  constructed, client, client_main,
}
use gb_cpp_network_programmi.SslSession.{meet, Reach, start}

constructed-some : (o : Option Client) (c : Client) → constructed o ≡ started c → o ≡ some c
constructed-some none c e = cc
constructed-some (some c') c e = cc

module _ {ℓ} {Cert : Type ℓ} (q : Qt) (md5_hex : Bytes → Bytes) (parse : Bytes → Cert) where
  -- A client that main has started over a handshake that succeeds, with words that can be values of a path, has
  -- begun a session with the server.
  pub client_main-Reach :
      (ca_file : Option Bytes) (encrypts : Configuration Cert → Bool) (host : Bytes)
      (more typed : List Bytes) (c : Client) (s : ThisServer)
      → All IsValue typed
      → encrypts (on_ssl_handshake_failure (configuration (handle_certificate parse ca_file)))
        ≡ true
      → client_main q md5_hex parse ca_file encrypts (host ∷ more) typed ≡ started c
      → Reach q md5_hex (meet c s)
  unfolding client_main client
  client_main-Reach ca_file encrypts host more typed c s values e h =
      start s (record { typed = values; request = refl; sent = refl })
        (subst (λ b. connect q md5_hex (new_client host typed) b ≡ some c) e
          (constructed-some _ c h))
