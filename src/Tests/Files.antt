-- ===== src/Tests/Files.antt =====
-- lesson4/mt_server: a small file system with absolute paths, and the server's tasks.
use gb_cpp_network_programmi.Base.{
  inl, inr, not, starts_with, ℕ, ◌≡◌, refl, true, [], ◌∷◌, Bytes, ◌==◌, if◌then◌else◌, replicate,
  codes, text_eq, none, some, arith,
}
use gb_cpp_network_programmi.Base.Fields.{split}
use gb_cpp_network_programmi.Posix.{room, got, lost, eintr, other_error}
use gb_cpp_network_programmi.Transceiver.{
  get_request, recv_loop, find_line_end, need_to_repeat, buffer_size,
}
use gb_cpp_network_programmi.FileServer.{
  FileSystem, cut_path, path_of, Polled, not_ready, ready, ready_throws, clean_tasks, accepted,
  accept_failed, accept_client, looping, leaving, leave, exit_failure, turn, turns, process,
  future_of, with_request,
}
use gb_cpp_network_programmi.FileServer.FilePath.{Tree, IsPosix, weakly_canonical, elements}
use gb_cpp_network_programmi.FileServer.FilePath.Walks.{IsName}
use gb_cpp_network_programmi.FileServer.Traversal.{path_of_names, path_of_any}
use gb_cpp_network_programmi.FileServer.Processing.{PartOf, outgoing, process-PartOf}
use gb_cpp_network_programmi.FileServer.Failure.{AllEnded, HasLeft, reading_error_ends_server}

-- The server stands in /srv/www; nothing is called x.
abbrev tree : Tree
tree = record {
  current = codes "www" ∷ codes "srv" ∷ [];
  has = λ place. elim place [ [] ↦ true | name ∷ above ↦ not (text_eq name (codes "x")) ];
}

abbrev files : FileSystem
files = record {
  current_path = codes "/srv/www";
  weakly_canonical = weakly_canonical tree;
  separ = 47;
  exists = λ p. true;
  is_regular_file = λ p. text_eq p (codes "/srv/www/a");
  content = λ p. if text_eq p (codes "/srv/www/a") then some (1 ∷ 2 ∷ []) else none;
}

files-IsPosix : IsPosix tree files
files-IsPosix = record { current_path = refl; canonical = λ path. refl; separ = refl }

www-IsName : IsName (codes "www")
www-IsName = (((λ e. cc), omega arith), (λ e. ground arith), (λ e. ground arith))

srv-IsName : IsName (codes "srv")
srv-IsName = (((λ e. cc), omega arith), (λ e. ground arith), (λ e. ground arith))

pub-IsName : IsName (codes "pub")
pub-IsName = (((λ e. cc), omega arith), (λ e. ground arith), (λ e. ground arith))

a-IsName : IsName (codes "a")
a-IsName = (((λ e. cc), omega arith), (λ e. ground arith), (λ e. ground arith))

x-IsName : IsName (codes "x")
x-IsName = (((λ e. cc), omega arith), (λ e. ground arith), (λ e. ground arith))

etc-IsName : IsName (codes "etc")
etc-IsName = (((λ e. cc), omega arith), (λ e. ground arith), (λ e. ground arith))

passwd-IsName : IsName (codes "passwd")
passwd-IsName = (((λ e. cc), omega arith), (λ e. ground arith), (λ e. ground arith))

path_of_names_example : path_of files (codes "pub/a") ≡ codes "/srv/www/pub/a"
path_of_names_example =
    path_of_names tree files files-IsPosix (www-IsName, (srv-IsName, tt)) (codes "pub")
      (codes "a" ∷ []) (pub-IsName, (a-IsName, tt))

path_of_any_example : path_of files (codes "x/../../../etc/passwd") ≡ codes "/etc/passwd"
unfolding text_eq
path_of_any_example =
    path_of_any tree files files-IsPosix (www-IsName, (srv-IsName, tt)) (codes "x") (codes "etc")
      (codes "passwd" ∷ []) x-IsName refl (etc-IsName, (passwd-IsName, tt))

sibling_escapes : path_of files (codes "/srv/www../secret") ≡ codes "/srv/secret"
unfolding path_of cut_path starts_with weakly_canonical elements split text_eq
sibling_escapes = refl

abbrev array : Bytes
array = replicate 257 7

process-PartOf_example :
    PartOf
      (outgoing (1 ∷ 2 ∷ []))
      (process files array (got (codes "/srv/www/a\r\n") ∷ []) (room 5000 ∷ []))
unfolding get_request recv_loop find_line_end path_of starts_with cut_path weakly_canonical elements
    split text_eq buffer_size
process-PartOf_example =
    process-PartOf files array (codes "/srv/www/a") (1 ∷ 2 ∷ []) (got (codes "/srv/www/a\r\n") ∷ [])
      [] (room 5000 ∷ []) refl refl

abbrev states : ℕ → Polled
states task = if task == 0 then not_ready else if task == 1 then ready true else ready_throws

two_turns :
    turns (looping [] 0) ((accepted 5, states) ∷ (accepted 6, states) ∷ []) ≡ looping (0 ∷ []) 2
unfolding turns turn accept_client clean_tasks
two_turns = refl

-- The server waits for the task 0, until that has ended too.
all_ended : AllEnded (λ task. ready true) (0 ∷ 2 ∷ 3 ∷ [])
all_ended task s e = cc

reading_error_ends_server_example :
    HasLeft
      (0 ∷ 2 ∷ 3 ∷ [])
      (turns (looping (0 ∷ 2 ∷ []) 3) ((accepted 7, states) ∷ (accepted 8, states) ∷ []))
    × (turn
          (turns (looping (0 ∷ 2 ∷ []) 3) ((accepted 7, states) ∷ (accepted 8, states) ∷ []))
          accept_failed
          (λ task. ready true)
        ≡ exit_failure)
unfolding process get_request recv_loop need_to_repeat with_request future_of
reading_error_ends_server_example =
    reading_error_ends_server files array (lost eintr ∷ []) other_error [] [] 2 (0 ∷ 2 ∷ []) 3 6
      states ((accepted 8, states) ∷ []) accept_failed (λ task. ready true) (refl, tt) refl
      (inr (inl refl)) refl all_ended

waits_for_a_task :
    turns (looping (0 ∷ 2 ∷ []) 3) ((accepted 7, states) ∷ (accepted 8, states) ∷ [])
    ≡ leaving (0 ∷ 3 ∷ [])
unfolding turns turn accept_client clean_tasks leave
waits_for_a_task = refl
