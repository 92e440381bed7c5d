-- ===== src/QnetClient/Simple.antt =====
-- A network manager that writes what follows a URL's host into its request.
use gb_cpp_network_programmi.Base.{
  ◌≡◌, ◌≢◌, refl, sym, ap, ◌∙◌, Bool-cases, inl, inr, [], ◌∷◌, ◌++◌, append_assoc, Bytes, drop,
  codes, ◌==◌, ◌&&◌, not, true, Bool, if◌then◌else◌, arith,
}
use gb_cpp_network_programmi.Qt.{All-append, Lacks}
use gb_cpp_network_programmi.Qt.Words.{split_words}
use gb_cpp_network_programmi.Qt.Simple.{
  simple_qt, split, decimal, until_zero, until_line_end, to_newline,
}
use gb_cpp_network_programmi.QnetClient.Served.{NetworkManager, IsNetworkManager}

-- A text from its first slash on.
unfoldable pub from_slash : Bytes → Bytes
from_slash [] = []
from_slash (c ∷ s) = let rest = from_slash s in if c == 47 then c ∷ s else rest

from_slash-append : (s t : Bytes) → Lacks 47 s → from_slash (s ++ (47 ∷ t)) ≡ 47 ∷ t
unfolding from_slash
from_slash-append [] t h = refl
from_slash-append (c ∷ s) t h = elim (Bool-cases (c == 47)) [
  | inl e ↦ ground (arith, h.0)
  | inr e ↦ rw e (from_slash-append s t h.1)
]

unfoldable pub lacks_slash : Bytes → Bool
lacks_slash [] = true
lacks_slash (c ∷ s) = not (c == 47) && lacks_slash s

lacks_slash-Lacks : (s : Bytes) → lacks_slash s ≡ true → Lacks 47 s
unfolding lacks_slash
lacks_slash-Lacks [] h = tt
lacks_slash-Lacks (c ∷ s) h = ((λ e. ground (arith, e)), lacks_slash-Lacks s (ground arith))

abbrev pub simple_manager : NetworkManager
unfolding from_slash lacks_slash
simple_manager = record {
  is_host = lacks_slash;
  get = λ u. (codes "GET " ++ (from_slash (drop 7 u) ++ codes " HTTP/1.1")) ++ codes "\r\n\r\n";
}

pub simple_manager-IsNetworkManager : IsNetworkManager simple_qt simple_manager
unfolding simple_manager lacks_slash from_slash split decimal until_zero until_line_end to_newline
    split_words
simple_manager-IsNetworkManager = record {
  get-url = λ host port task command h pos small p some_task t k. (
    codes "\r\n",
    ap (λ r. (codes "GET " ++ (r ++ codes " HTTP/1.1")) ++ codes "\r\n\r\n")
        (at host (simple_qt.number port) (task ++ (codes "/" ++ command)) (lacks_slash-Lacks host h)
          p),
  );
}
  where
    at :
        (host port path : Bytes)
        → Lacks 47 host
        → Lacks 47 port
        → from_slash (host ++ (codes ":" ++ (port ++ (47 ∷ path)))) ≡ 47 ∷ path
    at host port path h p =
        ap from_slash (sym (append_assoc host (codes ":" ++ port) (47 ∷ path)))
        ∙ from_slash-append (host ++ (codes ":" ++ port)) path
            (All-append (λ x. x ≢ 47) host (codes ":" ++ port) h (omega arith, p))
