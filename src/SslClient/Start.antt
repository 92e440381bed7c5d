-- ===== src/SslClient/Start.antt =====
-- lesson6/qssl_client/main.cpp: the constructor of Client and main, up to the first request.
use gb_cpp_network_programmi.Base.{Bool, true, false, List, [], ◌∷◌, Bytes, Option, none, some}
use gb_cpp_network_programmi.Qt.{Qt}
use gb_cpp_network_programmi.SslClient.{Client, ask_exit, connect}

-- A file that cannot be opened reads as no bytes; what the library makes of them is returned.
unfoldable pub handle_certificate {ℓ} : {Cert : Type ℓ} → (Bytes → Cert) → Option Bytes → Cert
handle_certificate parse none = parse []
handle_certificate parse (some bytes) = parse bytes

unfoldable pub handle_key {ℓ} : {Key : Type ℓ} → (Bytes → Key) → Option Bytes → Key
handle_key parse none = parse []
handle_key parse (some bytes) = parse bytes

-- The configuration of the socket: the authorities, whether the server is verified, and whether the errors of
-- the handshake are ignored, as `OnSslHandshakeFailure` does.
pub record Configuration {ℓ} (Cert : Type ℓ) : Type ℓ where
  pub certificates : List Cert
  pub verifies_peer : Bool
  pub ignores_errors : Bool

unfoldable pub on_ssl_handshake_failure {ℓ} :
    {Cert : Type ℓ} → Configuration Cert → Configuration Cert
on_ssl_handshake_failure c = record c { ignores_errors = true }

abbrev pub configuration {ℓ} : {Cert : Type ℓ} → Cert → Configuration Cert
configuration ca = record { certificates = ca ∷ []; verifies_peer = false; ignores_errors = false }

abbrev pub new_client : Bytes → List Bytes → Client
new_client host typed = record {
  host_name = host;
  request = [];
  timer_active = false;
  is_open = true;
  connections = 0;
  typed = typed;
  sent = [];
  has_exited = false;
}

-- How `main` goes on: in the event loop, in a question, or with a pointer behind the arguments.
pub data Ending : Type 0 where
  started : Client → Ending
  waits undefined : Ending

abbrev pub constructed : Option Client → Ending
constructed none = waits
constructed (some c) = started c

abbrev pub without_host : Option (List Bytes) → Ending
without_host none = waits
without_host (some typed) = undefined

module _ {ℓ} {Cert : Type ℓ} (q : Qt) (md5_hex : Bytes → Bytes) (parse : Bytes → Cert) where
  -- The constructor, over what the handshake comes to with a configuration whose errors are handled.
  unfoldable pub client : Option Bytes → (Configuration Cert → Bool) → Bytes → List Bytes → Ending
  client ca_file encrypts host typed = constructed (
      connect q md5_hex (new_client host typed)
        (encrypts (on_ssl_handshake_failure (configuration (handle_certificate parse ca_file)))))

  -- `main` of its arguments: without them, the question for exit is followed by the client all the same.
  unfoldable pub client_main :
      Option Bytes → (Configuration Cert → Bool) → List Bytes → List Bytes → Ending
  client_main ca_file encrypts [] typed = without_host (ask_exit typed)
  client_main ca_file encrypts (host ∷ more) typed = client ca_file encrypts host typed
