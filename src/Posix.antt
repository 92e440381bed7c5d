-- ===== src/Posix.antt =====
-- What the socket calls of the programs answer: the replies of the operating system are the
-- script that a run of the code consumes, one entry for each call.
use gb_cpp_network_programmi.Base.{ℕ, Bool, List, Bytes}

-- The values of `errno` that the code tells apart.
pub data Errno : Type 0 where
  no_error eintr eagain other_error : Errno

-- `send`: the kernel takes at most `n` of the bytes that are offered, or fails with -1.
pub data SendReply : Type 0 where
  room : ℕ → SendReply
  failed : Errno → SendReply

-- `recv`: some bytes (none at the end of the stream), or -1.
pub data RecvReply : Type 0 where
  got : Bytes → RecvReply
  lost : Errno → RecvReply

-- What a sending routine has done: returned a flag after it put some bytes on the wire, with the
-- replies that it left, or used up the script inside a call.
pub data Sent : Type 0 where
  done : Bool → Bytes → List SendReply → Sent
  waiting : Bytes → Sent
