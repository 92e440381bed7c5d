-- ===== src/HttpServer/Simple.antt =====
-- A small reading of a URL's arguments that meets the law.
use gb_cpp_network_programmi.Base.{
  ℕ, ◌≡◌, ◌≢◌, refl, List, [], ◌∷◌, ◌++◌, Bytes, append_assoc, get_or, text_eq, sym, if◌then◌else◌,
  arith,
}
use gb_cpp_network_programmi.Qt.{All-append, Lacks, join}
use gb_cpp_network_programmi.Qt.Simple.{split, split-join}
use gb_cpp_network_programmi.HttpServer.Query.{IsQuery}

-- The value of the first field with the key.
unfoldable pub pick : Bytes → List Bytes → Bytes
pick key [] = []
pick key (f ∷ fs) =
    let rest = pick key fs in
    if text_eq key (get_or (split 61 f) 0 []) then get_or (split 61 f) 1 [] else rest

unfoldable pub simple_args : Bytes → Bytes → Bytes
simple_args url key = pick key (split 38 (get_or (split 63 url) 1 []))

field-Lacks :
    (c : ℕ) (name value : Bytes)
    → (61 ≢ c)
    → Lacks c name
    → Lacks c value
    → Lacks c (name ++ (61 ∷ value))
field-Lacks c name value e n v = All-append (λ x. x ≢ c) name (61 ∷ value) n (e, v)

pick_two :
    (name value name' value' key : Bytes)
    → Lacks 61 name
    → Lacks 61 value
    → Lacks 61 name'
    → Lacks 61 value'
    → pick key ((name ++ (61 ∷ value)) ∷ (name' ++ (61 ∷ value')) ∷ [])
      ≡ (if text_eq key name then value else if text_eq key name' then value' else [])
unfolding pick
pick_two name value name' value' key n v n' v' =
    rw
      (
        split-join 61 name (value ∷ []) (n, (v, tt)),
        split-join 61 name' (value' ∷ []) (n', (v', tt)),
      )
      refl

pub simple_args-IsQuery : IsQuery simple_args
unfolding simple_args
simple_args-IsQuery address name value name' value' key a n v m w =
    rw
      (
        split-join 63 address (query ∷ []) (a.0, (query-Lacks, tt)),
        whole,
        split-join 38 f (g ∷ []) (
          field-Lacks 38 name value (omega arith) n.1 v.1,
          (field-Lacks 38 name' value' (omega arith) m.1 w.1, tt),
        ),
      )
      (pick_two name value name' value' key n.2 v.2 m.2 w.2)
  where
    f : Bytes
    f = name ++ (61 ∷ value)

    g : Bytes
    g = name' ++ (61 ∷ value')

    query : Bytes
    query = name ++ (61 ∷ (value ++ (38 ∷ g)))

    query-Lacks : Lacks 63 query
    query-Lacks = field-Lacks 63 name _ (omega arith) n.0 (
        All-append (λ x. x ≢ 63) value _ v.0
          (omega arith, field-Lacks 63 name' value' (omega arith) m.0 w.0))

    whole : query ≡ join 38 (f ∷ g ∷ [])
    whole = sym (append_assoc name (61 ∷ value) (38 ∷ g))
