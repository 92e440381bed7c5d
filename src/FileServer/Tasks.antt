-- ===== src/FileServer/Tasks.antt =====
-- The pending tasks of lesson4/mt_server/main.cpp.
use gb_cpp_network_programmi.Base.{ℕ, suc, ◌≤◌, List, [], ◌∷◌}
use gb_cpp_network_programmi.FileServer.{
  Cleaned, kept, rethrown, Server, looping, leaving, exit_failure, aborted,
}

-- The tasks' numbers grow along the list, from `low` on and below `high`.
abbrev pub Grows : ℕ → ℕ → List ℕ → Type 0
Grows low high [] = low ≤ high
Grows low high (task ∷ tasks) = (low ≤ task) × Grows (suc task) high tasks

abbrev pub KeepsGrowing : ℕ → ℕ → Cleaned → Type 0
KeepsGrowing low high (kept tasks) = Grows low high tasks
KeepsGrowing low high (rethrown tasks) = Grows low high tasks

-- The pending tasks are tasks that the server has started, each once, in the order of their start.
abbrev pub IsOrderly : Server → Type 0
IsOrderly (looping tasks started) = Grows 0 started tasks
IsOrderly (leaving tasks) = (started : ℕ) × Grows 0 started tasks
IsOrderly exit_failure = Unit
IsOrderly aborted = Unit
