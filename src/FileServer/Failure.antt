-- ===== src/FileServer/Failure.antt =====
-- What a client whose connection fails does to the server of lesson4/mt_server/main.cpp.
use gb_cpp_network_programmi.Base.{
  ap, ℕ, suc, ◌≡◌, ◌≢◌, refl, ◌∙◌, ◌⊎◌, inl, inr, true, false, List, [], ◌∷◌, ◌++◌, Bytes,
}
use gb_cpp_network_programmi.Posix.{Errno, RecvReply, got, lost, SendReply}
use gb_cpp_network_programmi.Transceiver.{
  socket_reading_error, get_request, recv_loop, need_to_repeat,
}
use gb_cpp_network_programmi.FileServer.{
  FileSystem, Polled, not_ready, ready, ready_throws, rethrown, clean_task, clean_tasks, Accepted,
  accepted, accept_client, Server, looping, leaving, exit_failure, aborted, leave_task, leave, turn,
  turns, process, with_request, future_of,
}

-- Calls of recv that are made again.
abbrev pub AllRepeat : List RecvReply → Type 0
AllRepeat [] = Unit
AllRepeat (got fragment ∷ rs) = ⊥
AllRepeat (lost e ∷ rs) = (need_to_repeat e ≡ true) × AllRepeat rs

-- The request is not read if a call fails behind those.
request_fails :
    (buffer : Bytes) (again : List RecvReply) (e : Errno) (received : List RecvReply)
    → AllRepeat again
    → need_to_repeat e ≡ false
    → recv_loop buffer 0 (again ++ (lost e ∷ received)) ≡ socket_reading_error
unfolding recv_loop
request_fails buffer [] e received h f = rw f refl
request_fails buffer (got fragment ∷ again) e received h f = absurd h
request_fails buffer (lost e' ∷ again) e received h f =
    rw h.0 (request_fails buffer again e received h.1 f)

task_throws :
    (fs : FileSystem) (buffer : Bytes) (again : List RecvReply) (e : Errno)
    (received : List RecvReply) (replies : List SendReply)
    → AllRepeat again
    → need_to_repeat e ≡ false
    → future_of (process fs buffer (again ++ (lost e ∷ received)) replies) ≡ ready_throws
unfolding process get_request with_request future_of
task_throws fs buffer again e received replies h f =
    ap (λ r. future_of (with_request fs r replies)) (request_fails buffer again e received h f)

-- The task stands in the list.
abbrev pub Stands : ℕ → List ℕ → Type 0
Stands task [] = ⊥
Stands task (t ∷ tasks) = (t ≡ task) ⊎ Stands task tasks

abbrev PartOf : List ℕ → List ℕ → Type 0
PartOf some_tasks tasks = (task : ℕ) → Stands task some_tasks → Stands task tasks

PartOf-cons :
    (t : ℕ) (some_tasks tasks : List ℕ)
    → PartOf some_tasks tasks
    → PartOf (t ∷ some_tasks) (t ∷ tasks)
PartOf-cons t some_tasks tasks part task (inl e) = inl e
PartOf-cons t some_tasks tasks part task (inr s) = inr (part task s)

-- A task of the list that has thrown ends its cleaning; what is left are some of the tasks.
clean_tasks_throws :
    (poll : ℕ → Polled) (task : ℕ) (tasks : List ℕ)
    → Stands task tasks
    → poll task ≡ ready_throws
    → (rest : List ℕ) × (clean_tasks poll tasks ≡ rethrown rest) × PartOf rest tasks
unfolding clean_tasks
clean_tasks_throws poll task [] h e = absurd h
clean_tasks_throws poll task (t ∷ tasks) (inl h) e =
    let throws : poll t ≡ ready_throws = ap poll h ∙ e in (tasks, rw throws refl, λ u s. inr s)
clean_tasks_throws poll task (t ∷ tasks) (inr h) e =
    let (rest, cleaned, part) = clean_tasks_throws poll task tasks h e in
    by_poll (poll t) rest cleaned part
  where
    by_poll :
        (p : Polled) (rest : List ℕ)
        → clean_tasks poll tasks ≡ rethrown rest
        → PartOf rest tasks
        → (rest' : List ℕ) × (clean_task p t tasks (clean_tasks poll tasks) ≡ rethrown rest')
          × PartOf rest' (t ∷ tasks)
    by_poll not_ready rest cleaned part = (t ∷ rest, rw cleaned refl, PartOf-cons t rest tasks part)
    by_poll (ready result) rest cleaned part = (rest, cleaned, λ u s. inr (part u s))
    by_poll ready_throws rest cleaned part = (tasks, refl, λ u s. inr s)

-- The server has left its loop, and waits for some of these tasks at most.
abbrev pub HasLeft : List ℕ → Server → Type 0
HasLeft tasks (looping pending started) = ⊥
HasLeft tasks (leaving pending) = PartOf pending tasks
HasLeft tasks exit_failure = Unit
HasLeft tasks aborted = ⊥

leave-HasLeft :
    (poll : ℕ → Polled) (all tasks : List ℕ) → PartOf tasks all → HasLeft all (leave poll tasks)
unfolding leave
leave-HasLeft poll all [] part = tt
leave-HasLeft poll all (t ∷ tasks) part =
    by_poll (poll t) (leave-HasLeft poll all tasks (λ u s. part u (inr s)))
  where
    by_poll :
        (p : Polled)
        → HasLeft all (leave poll tasks)
        → HasLeft all (leave_task p t tasks (leave poll tasks))
    by_poll not_ready later = part
    by_poll (ready result) later = later
    by_poll ready_throws later = later

turns-HasLeft :
    (tasks : List ℕ) (s : Server) (rounds : List (Accepted × (ℕ → Polled)))
    → HasLeft tasks s
    → HasLeft tasks (turns s rounds)
unfolding turns turn
turns-HasLeft tasks s [] h = h
turns-HasLeft tasks (looping pending started) ((reply, poll) ∷ rounds) h = absurd h
turns-HasLeft tasks (leaving pending) ((reply, poll) ∷ rounds) h =
    turns-HasLeft tasks (leave poll pending) rounds (leave-HasLeft poll tasks pending h)
turns-HasLeft tasks exit_failure ((reply, poll) ∷ rounds) h =
    turns-HasLeft tasks exit_failure rounds tt
turns-HasLeft tasks aborted ((reply, poll) ∷ rounds) h = absurd h

-- All of the tasks have ended.
abbrev pub AllEnded : (ℕ → Polled) → List ℕ → Type 0
AllEnded poll tasks = (task : ℕ) → Stands task tasks → poll task ≢ not_ready

leave_ended :
    (poll : ℕ → Polled) (tasks : List ℕ) → AllEnded poll tasks → leave poll tasks ≡ exit_failure
unfolding leave
leave_ended poll [] h = refl
leave_ended poll (t ∷ tasks) h = by_poll (poll t) refl (leave_ended poll tasks (λ u s. h u (inr s)))
  where
    by_poll :
        (p : Polled)
        → poll t ≡ p
        → leave poll tasks ≡ exit_failure
        → leave_task p t tasks (leave poll tasks) ≡ exit_failure
    by_poll not_ready e later = absurd (h t (inl refl) e)
    by_poll (ready result) e later = later
    by_poll ready_throws e later = later

turn_ended :
    (tasks : List ℕ) (s : Server) (reply : Accepted) (poll : ℕ → Polled)
    → HasLeft tasks s
    → AllEnded poll tasks
    → turn s reply poll ≡ exit_failure
unfolding turn
turn_ended tasks (looping pending started) reply poll h a = absurd h
turn_ended tasks (leaving pending) reply poll h a = leave_ended poll pending (λ u s. a u (h u s))
turn_ended tasks exit_failure reply poll h a = refl
turn_ended tasks aborted reply poll h a = absurd h

-- One client whose connection fails while its request is read, whatever calls were interrupted before,
-- ends the whole server: its task throws; from the turn on that finds it ready, the one that started it or
-- a later one, the server is in its loop no more and accepts nobody; and it exits with EXIT_FAILURE as soon
-- as all the tasks that were pending in that turn have ended.
pub reading_error_ends_server :
    (fs : FileSystem) (buffer : Bytes) (again : List RecvReply) (e : Errno)
    (received : List RecvReply) (replies : List SendReply) (task : ℕ) (tasks : List ℕ)
    (started sock : ℕ) (poll : ℕ → Polled) (rounds : List (Accepted × (ℕ → Polled)))
    (reply : Accepted) (poll' : ℕ → Polled)
    → AllRepeat again
    → need_to_repeat e ≡ false
    → Stands task (tasks ++ (started ∷ []))
    → poll task ≡ future_of (process fs buffer (again ++ (lost e ∷ received)) replies)
    → AllEnded poll' (tasks ++ (started ∷ []))
    → HasLeft
        (tasks ++ (started ∷ []))
        (turns (looping tasks started) ((accepted (suc sock), poll) ∷ rounds))
      × (turn (turns (looping tasks started) ((accepted (suc sock), poll) ∷ rounds)) reply poll'
          ≡ exit_failure)
unfolding turns turn accept_client
reading_error_ends_server fs buffer again e received replies task tasks started sock poll rounds
      reply poll' r f h p ended =
    let all : List ℕ = tasks ++ (started ∷ []) in
    let (rest, cleaned, part) =
      clean_tasks_throws poll task all h (p ∙ task_throws fs buffer again e received replies r f) in
    let left : HasLeft all (turns (leaving rest) rounds) =
      turns-HasLeft all (leaving rest) rounds part in
    rw cleaned (left, turn_ended all (turns (leaving rest) rounds) reply poll' left ended)
