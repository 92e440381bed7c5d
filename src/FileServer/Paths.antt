-- ===== src/FileServer/Paths.antt =====
-- Which file `recv_file_path` of lesson4/mt_server/main.cpp names for a request.
use gb_cpp_network_programmi.Base.{
  starts_with, ◌≡◌, refl, sym, ap, ◌∙◌, true, [], ◌∷◌, ◌++◌, Bytes, drop-append, codes, arith,
}
use gb_cpp_network_programmi.FileServer.{FileSystem, cut_path, path_of}

starts_with-append : (prefix text : Bytes) → starts_with prefix (prefix ++ text) ≡ true
unfolding starts_with
starts_with-append [] text = refl
starts_with-append (p ∷ prefix) text = ground (arith, starts_with-append prefix text)

pub cut_path-append : (prefix text : Bytes) → cut_path prefix (prefix ++ text) ≡ text
unfolding cut_path
cut_path-append prefix text = rw (starts_with-append prefix text) (drop-append prefix text)

-- A request whose canonical text goes on behind the text of the server's directory.
path_behind :
    (fs : FileSystem) (request_data rest : Bytes)
    → fs.weakly_canonical request_data ≡ fs.current_path ++ rest
    → path_of fs request_data ≡ fs.weakly_canonical (fs.current_path ++ (fs.separ ∷ rest))
unfolding path_of
path_behind fs request_data rest e =
    ap (λ p. fs.weakly_canonical (fs.current_path ++ (fs.separ ∷ cut_path fs.current_path p))) e
    ∙ ap (λ p. fs.weakly_canonical (fs.current_path ++ (fs.separ ∷ p)))
        (cut_path-append fs.current_path rest)

-- A request for a path inside the server's directory is answered with that path, if the separator is
-- a slash and a doubled slash counts as one.
path_inside :
    (fs : FileSystem) (request_data rest : Bytes)
    → fs.separ ≡ 47
    → fs.weakly_canonical request_data ≡ fs.current_path ++ (47 ∷ rest)
    → fs.weakly_canonical (fs.current_path ++ (47 ∷ 47 ∷ rest)) ≡ fs.current_path ++ (47 ∷ rest)
    → path_of fs request_data ≡ fs.weakly_canonical request_data
path_inside fs request_data rest s e k =
    path_behind fs request_data (47 ∷ rest) e
    ∙ ap (λ c. fs.weakly_canonical (fs.current_path ++ (c ∷ 47 ∷ rest))) s
    ∙ k
    ∙ sym e

-- The text of the server's directory is cut off although it is not followed by a separator: a request
-- for a name that goes on with two dots, `<directory>../rest`, is answered with the path
-- `<parent>/rest` outside the server's directory, if the separator is a slash.
path_escapes :
    (fs : FileSystem) (request_data parent rest : Bytes)
    → fs.separ ≡ 47
    → fs.weakly_canonical request_data ≡ fs.current_path ++ (codes "../" ++ rest)
    → fs.weakly_canonical (fs.current_path ++ (codes "/../" ++ rest)) ≡ parent ++ (47 ∷ rest)
    → path_of fs request_data ≡ parent ++ (47 ∷ rest)
path_escapes fs request_data parent rest s e k =
    path_behind fs request_data (codes "../" ++ rest) e
    ∙ ap (λ c. fs.weakly_canonical (fs.current_path ++ (c ∷ (codes "../" ++ rest)))) s
    ∙ k
