-- ===== src/FileServer/FilePath.antt =====
-- The paths that lesson4/mt_server/main.cpp computes with: std::filesystem of libstdc++ over a tree of
-- directories and files without symbolic links. The slash behind a path that does not exist is left out.
pub mod Elements
pub mod Walks
pub mod Cuts
use gb_cpp_network_programmi.Base.{
  ℕ, zero, suc, ◌≡◌, refl, sym, ap, ◌∙◌, Bool, true, false, List, [], ◌∷◌, ◌++◌, Bytes, length, map,
  ◌==◌, text_eq, codes, if◌then◌else◌, append-nil, append_assoc, arith,
}
use gb_cpp_network_programmi.Base.Fields.{All, Lacks, join, split, split-join}
use gb_cpp_network_programmi.FileServer.{FileSystem}

-- A place in the tree is the names on the way to it, the deepest first.
pub record Tree : Type 0 where
  pub current : List Bytes
  pub has : List Bytes → Bool

abbrev pub text_of : List Bytes → Bytes
text_of [] = []
text_of (name ∷ above) = text_of above ++ (47 ∷ name)

-- The absolute path of a place.
abbrev pub absolute : List Bytes → Bytes
absolute [] = 47 ∷ []
absolute (name ∷ above) = text_of (name ∷ above)

unfoldable pub nonempty : List Bytes → List Bytes
nonempty [] = []
nonempty ([] ∷ names) = nonempty names
nonempty ((c ∷ name) ∷ names) = (c ∷ name) ∷ nonempty names

-- The names in a path: slashes in a row are one.
unfoldable pub elements : Bytes → List Bytes
unfolding nonempty split
elements path = nonempty (split 47 path)

abbrev pub up : List Bytes → List Bytes
up [] = []
up (name ∷ above) = above

unfoldable pub move : List Bytes → Bytes → List Bytes
unfolding text_eq
move at name =
    if text_eq name (codes ".") then at else if text_eq name (codes "..") then up at else name ∷ at

unfoldable pub walk : List Bytes → List Bytes → List Bytes
unfolding move
walk at [] = at
walk at (name ∷ path) = walk (move at name) path

-- The normal form of a relative path, whose two dots in front stay.
unfoldable pub climb : List Bytes → Bytes → List Bytes
climb [] name = name ∷ []
climb (last ∷ names) name = if text_eq last (codes "..") then name ∷ last ∷ names else names

unfoldable pub settle : List Bytes → Bytes → List Bytes
unfolding climb text_eq
settle names name =
    if text_eq name (codes ".")
    then names
    else if text_eq name (codes "..")
    then climb names name
    else name ∷ names

unfoldable pub simplify : List Bytes → List Bytes → List Bytes
unfolding settle
simplify names [] = names
simplify names (name ∷ path) = simplify (settle names name) path

-- The text of a relative path, its last name first.
abbrev pub relative : List Bytes → Bytes
relative [] = codes "."
relative (name ∷ []) = name
relative (name ∷ n ∷ names) = relative (n ∷ names) ++ (47 ∷ name)

-- `weakly_canonical` of a path with these names: the leading ones that exist make it absolute. Without
-- symbolic links those are simplified as the others are.
unfoldable pub from_current : Tree → List Bytes → Bytes
unfolding walk simplify
from_current t [] = []
from_current t (name ∷ path) =
    if t.has (move t.current name)
    then absolute (walk t.current (name ∷ path))
    else relative (simplify [] (name ∷ path))

unfoldable pub weakly_canonical : Tree → Bytes → Bytes
unfolding elements walk from_current
weakly_canonical t [] = []
weakly_canonical t (c ∷ path) =
    if c == 47
    then absolute (walk [] (elements (c ∷ path)))
    else from_current t (elements (c ∷ path))

-- The server's calls answer for the tree. The separator is read as a wide character from the address of a
-- narrow one; here the bytes behind that are zero.
pub record IsPosix (t : Tree) (fs : FileSystem) : Type 0 where
  pub current_path : fs.current_path ≡ absolute t.current
  pub canonical : (path : Bytes) → fs.weakly_canonical path ≡ weakly_canonical t path
  pub separ : fs.separ ≡ 47
