-- ===== src/HttpServer/Query.antt =====
-- What lesson7/libhttpserver_server/main.cpp relies on of libhttpserver, which is not in the
-- repository: how `get_arg` reads the arguments of a URL.
use gb_cpp_network_programmi.Base.{◌≡◌, [], ◌∷◌, ◌++◌, Bytes, text_eq, if◌then◌else◌}
use gb_cpp_network_programmi.Qt.{Lacks}

-- A text that needs no escape in a URL and divides none: it lacks `?`, `&`, `=`, `%`, `+`, `#`.
abbrev pub IsArgument : Bytes → Type 0
IsArgument s = Lacks 63 s × Lacks 38 s × Lacks 61 s × Lacks 37 s × Lacks 43 s × Lacks 35 s

-- Of two arguments, the value that the key names; a key that stands nowhere reads as empty.
abbrev pub IsQuery : (Bytes → Bytes → Bytes) → Type 0
IsQuery args =
    (address name value name' value' key : Bytes)
    → IsArgument address
    → IsArgument name
    → IsArgument value
    → IsArgument name'
    → IsArgument value'
    → args (address ++ (63 ∷ (name ++ (61 ∷ (value ++ (38 ∷ (name' ++ (61 ∷ value')))))))) key
      ≡ (if text_eq key name then value else if text_eq key name' then value' else [])
