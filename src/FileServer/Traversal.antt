-- ===== src/FileServer/Traversal.antt =====
-- The paths that `recv_file_path` of lesson4/mt_server/main.cpp makes of requests, over a tree without
-- symbolic links.
use mathlib.Core.List.{reverse}
use gb_cpp_network_programmi.Base.{
  ◌≡◌, refl, ap, ◌∙◌, Bool-cases, inl, inr, false, List, [], ◌∷◌, ◌++◌, Bytes, length, codes,
  append-nil, arith,
}
use gb_cpp_network_programmi.Base.Fields.{All, All-append, join}
use gb_cpp_network_programmi.FileServer.{FileSystem, cut_path, path_of}
use gb_cpp_network_programmi.FileServer.FilePath.{
  Tree, IsPosix, elements, absolute, relative, move, walk, simplify, from_current, weakly_canonical,
}
use gb_cpp_network_programmi.FileServer.FilePath.Elements.{
  IsPart, elements-append, elements-absolute, absolute_head,
}
use gb_cpp_network_programmi.FileServer.FilePath.Cuts.{
  All-parts, dots-IsPart, canonical_slash, cut_path_below, cut_path_up_down, canonical_join,
}
use gb_cpp_network_programmi.FileServer.FilePath.Walks.{
  IsName, dots, move_name, walk-append, walk_names, walk-reverse, walk-dots, simplify_up_down,
  simplify_back,
}

module _ (t : Tree) (fs : FileSystem) (posix : IsPosix t fs) (names : All IsName t.current) where
  -- Behind the server's directory a path is walked from there.
  from_directory :
      (rest : Bytes)
      → fs.weakly_canonical (fs.current_path ++ (fs.separ ∷ rest))
        ≡ absolute (walk t.current (elements rest))
  from_directory rest =
      let (s, e) = absolute_head t.current in
      rw (posix.current_path, posix.separ, posix.canonical)
        (canonical_slash t (absolute t.current ++ (47 ∷ rest)) _ (ap (λ r. r ++ (47 ∷ rest)) e)
          ∙ ap (λ p. absolute (walk [] p))
              (elements-append (absolute t.current) rest
                ∙ ap (λ p. p ++ elements rest)
                    (elements-absolute t.current (All-parts t.current names)))
          ∙ ap absolute (
              walk-append [] (reverse t.current) (elements rest)
              ∙ ap (λ a. walk a (elements rest))
                  (walk-reverse [] t.current names ∙ append-nil t.current)))

  path_from :
      (request_data canonical : Bytes)
      → weakly_canonical t request_data ≡ canonical
      → path_of fs request_data
        ≡ absolute (walk t.current (elements (cut_path (absolute t.current) canonical)))
  unfolding path_of
  path_from request_data canonical e =
      from_directory _ ∙ rw (posix.current_path, posix.canonical, e)

  -- What a relative path of names is made of, whether its first name exists or not.
  cut_path_names :
      (name : Bytes) (more : List Bytes)
      → All IsName (name ∷ more)
      → elements (cut_path (absolute t.current) (weakly_canonical t (join 47 (name ∷ more))))
        ≡ name ∷ more
  unfolding from_current
  cut_path_names name more h =
      let parts : All IsPart (name ∷ more) = All-parts (name ∷ more) h in
      ap (λ p. elements (cut_path (absolute t.current) p)) (canonical_join t name more parts)
      ∙ elim (Bool-cases (t.has (move t.current name))) [
        | inl e ↦ rw e (
            ap (λ p. elements (cut_path (absolute t.current) (absolute p)))
              (walk_names t.current (name ∷ more) h)
            ∙ cut_path_below t.current name more parts)
        | inr e ↦ rw e (
            ap (λ p. elements (cut_path (absolute t.current) (relative p)))
              (simplify_up_down 0 (name ∷ more) h)
            ∙ cut_path_up_down t.current 0 name more parts)
      ]

  -- A request that is a relative path of names is answered with that path under the server's
  -- directory, whether it exists or not.
  pub path_of_names :
      (name : Bytes) (more : List Bytes)
      → All IsName (name ∷ more)
      → path_of fs (join 47 (name ∷ more)) ≡ absolute (reverse (name ∷ more) ++ t.current)
  path_of_names name more h =
      path_from (join 47 (name ∷ more)) _ refl
      ∙ ap (λ p. absolute (walk t.current p)) (cut_path_names name more h)
      ∙ ap absolute (walk_names t.current (name ∷ more) h)

  -- A path whose first name does not exist stays relative.
  stranger_first :
      (stranger : Bytes) (path : List Bytes)
      → IsName stranger
      → t.has (stranger ∷ t.current) ≡ false
      → from_current t (stranger ∷ path) ≡ relative (simplify [] (stranger ∷ path))
  unfolding from_current
  stranger_first stranger path n missing = rw (ap t.has (move_name t.current stranger n) ∙ missing)

  -- Two dots behind a name that the server's directory lacks, and as many more as the directory is deep,
  -- lead to the root: such a request is answered with any path of names that follows, wherever it is.
  pub path_of_any :
      (stranger name : Bytes) (more : List Bytes)
      → IsName stranger
      → t.has (stranger ∷ t.current) ≡ false
      → All IsName (name ∷ more)
      → path_of fs (join 47 (stranger ∷ codes ".." ∷ (dots (length t.current) ++ (name ∷ more))))
        ≡ absolute (reverse (name ∷ more))
  path_of_any stranger name more n missing h =
      let k = length t.current in
      let parts : All IsPart (stranger ∷ codes ".." ∷ (dots k ++ (name ∷ more))) = (
        n.0,
        (
          ((λ e. cc), omega arith),
          All-append IsPart (dots k) (name ∷ more) (dots-IsPart k) (All-parts (name ∷ more) h),
        ),
      ) in
      path_from _ (relative (reverse (name ∷ more) ++ dots k)) (
        canonical_join t stranger (codes ".." ∷ (dots k ++ (name ∷ more))) parts
        ∙ stranger_first stranger (codes ".." ∷ (dots k ++ (name ∷ more))) n missing
        ∙ ap relative (
            simplify_back stranger (dots k ++ (name ∷ more)) n
            ∙ simplify_up_down k (name ∷ more) h))
      ∙ ap (λ p. absolute (walk t.current p))
          (cut_path_up_down t.current k name more (All-parts (name ∷ more) h))
      ∙ ap absolute (
          walk-append t.current (dots k) (name ∷ more)
          ∙ ap (λ a. walk a (name ∷ more)) (walk-dots t.current)
          ∙ walk_names [] (name ∷ more) h
          ∙ append-nil (reverse (name ∷ more)))
