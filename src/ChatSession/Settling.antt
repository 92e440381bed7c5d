-- ===== src/ChatSession/Settling.antt =====
-- The peers of lesson8/f2f_chat fall silent when nobody says anything: what they read and answer comes to an end.
use gb_cpp_network_programmi.Base.{
  ℕ, zero, suc, ◌+◌, ◌≤◌, ◌<◌, ◌≡◌, subst, ap, List, [], ◌∷◌, ◌++◌, Bytes, arith,
}
use gb_cpp_network_programmi.Qt.{Qt, IsQt, All, All-append, All-halves}
use gb_cpp_network_programmi.Chat.{ChatNetwork, Effect, ok, last_datagram, slot_read_messages}
use gb_cpp_network_programmi.Chat.Leaving.{IsSynced}
use gb_cpp_network_programmi.Chat.Sync.{Keeps, slot_read_messages-Keeps}
use gb_cpp_network_programmi.Chat.Wire.{IsField}
use gb_cpp_network_programmi.ChatSession.{written}
use gb_cpp_network_programmi.ChatSession.Real.{IsHonest, Stays}
use gb_cpp_network_programmi.ChatSession.Contacts.{
  IsPeer, last_datagram-IsHonest, slot_read_messages-Stays,
}
use gb_cpp_network_programmi.ChatSession.Answers.{weight, total, IsBelow, handle_packet-IsBelow}

-- A peer, and the datagrams that have arrived, each with its sender's address.
pub record Host : Type 0 where
  pub peer : ChatNetwork
  pub pending : List (ℕ × Bytes)

abbrev pub waiting : List (ℕ × Bytes) → ℕ
waiting [] = 0
waiting (d ∷ ds) = weight d.1 + waiting ds

abbrev pub load : List Host → ℕ
load [] = 0
load (h ∷ hosts) = waiting h.pending + load hosts

-- Each of the datagrams, which are answers and have one address, arrives at one host or is lost.
pub data Delivers : List Bytes → List Host → List Host → Type 0 where
  delivered : {hosts : List Host} → Delivers [] hosts hosts
  lost :
      {bytes : Bytes} {more : List Bytes} {hosts hosts' : List Host}
      → Delivers more hosts hosts'
      → Delivers (bytes ∷ more) hosts hosts'
  arrives :
      {bytes : Bytes} {more : List Bytes} {hosts hosts' : List Host} (front : List Host) (h : Host)
      (rest : List Host) (address : ℕ)
      → hosts ≡ front ++ (h ∷ rest)
      → Delivers more
          (front ++ (record h { pending = h.pending ++ ((address, bytes) ∷ []) } ∷ rest))
          hosts'
      → Delivers (bytes ∷ more) hosts hosts'

module _ (q : Qt) where
  -- A host reads all that is pending there.
  pub data Reading (hosts : List Host) : List Host → Type 0 where
    reads :
        {hosts' : List Host} (front : List Host) (h : Host) (rest : List Host) (d : ℕ × Bytes)
        (ds : List (ℕ × Bytes)) (c : ChatNetwork) (effects : List Effect)
        → hosts ≡ front ++ (h ∷ rest)
        → h.pending ≡ d ∷ ds
        → slot_read_messages q h.peer (d ∷ ds) ≡ ok c effects
        → Delivers (written effects) (front ++ (record { peer = c; pending = [] } ∷ rest)) hosts'
        → Reading hosts hosts'

  pub data Readings (hosts : List Host) : ℕ → List Host → Type 0 where
    silence : Readings hosts zero hosts
    more :
        {n : ℕ} {before after : List Host}
        → Readings hosts n before
        → Reading before after
        → Readings hosts (suc n) after

load-append : (xs ys : List Host) → load (xs ++ ys) ≡ load xs + load ys
load-append [] ys = omega arith
load-append (x ∷ xs) ys = omega (arith, load-append xs ys)

waiting-append : (xs ys : List (ℕ × Bytes)) → waiting (xs ++ ys) ≡ waiting xs + waiting ys
waiting-append [] ys = omega arith
waiting-append (x ∷ xs) ys = omega (arith, waiting-append xs ys)

load-middle :
    (front : List Host) (h : Host) (rest : List Host)
    → load (front ++ (h ∷ rest)) ≡ load front + (waiting h.pending + load rest)
load-middle front h rest = load-append front (h ∷ rest)

-- What is delivered adds its weight at most.
Delivers-le :
    {bs : List Bytes} {hosts hosts' : List Host}
    → Delivers bs hosts hosts'
    → load hosts' ≤ load hosts + total bs
Delivers-le delivered = omega arith
Delivers-le (lost r) = omega (arith, Delivers-le r)
Delivers-le (arrives {bytes} front h rest address e r) = omega (
  arith,
  Delivers-le r,
  ap load e,
  load-middle front h rest,
  load-middle front (record h { pending = h.pending ++ ((address, bytes) ∷ []) }) rest,
  waiting-append h.pending ((address, bytes) ∷ []),
)

module _ (q : Qt) (L : IsQt q) (Member : Bytes → Bytes → Type 0)
    (fields : (name id : Bytes) → Member name id → IsField name × IsField id) where
  -- The peers and the datagrams of those who take part.
  abbrev pub IsHost : Host → Type 0
  IsHost h = IsPeer q Member h.peer × All (λ d. IsHonest q Member d.1) h.pending

  Delivers-IsHost :
      {bs : List Bytes} {hosts hosts' : List Host}
      → Delivers bs hosts hosts'
      → All (IsHonest q Member) bs
      → All IsHost hosts
      → All IsHost hosts'
  Delivers-IsHost delivered b h = h
  Delivers-IsHost (lost r) b h = Delivers-IsHost r b.1 h
  Delivers-IsHost (arrives {bytes} front g rest address e r) b h =
      let (f, (p, k)) = All-halves IsHost front (g ∷ rest) (subst (All IsHost) e h) in
      Delivers-IsHost r b.1 (
        All-append IsHost front _ f
          ((p.0, All-append (λ d. IsHonest q Member d.1) g.pending _ p.1 (b.0, tt)), k))

  -- The last of the pending datagrams, which is the one that counts.
  last-le :
      (d : ℕ × Bytes) (ds : List (ℕ × Bytes)) → weight (last_datagram d ds).1 ≤ waiting (d ∷ ds)
  unfolding last_datagram
  last-le d [] = omega arith
  last-le d (d' ∷ ds) = omega (arith, last-le d' ds)

  slot-IsBelow :
      (c : ChatNetwork) (d : ℕ × Bytes) (ds : List (ℕ × Bytes))
      → All (λ d. IsHonest q Member d.1) (d ∷ ds)
      → IsBelow (weight (last_datagram d ds).1) (slot_read_messages q c (d ∷ ds))
  unfolding slot_read_messages last_datagram
  slot-IsBelow c d ds h =
      handle_packet-IsBelow q L Member fields c _ _
        (last_datagram-IsHonest q Member L fields d ds h.0 h.1)

  -- A reading takes more off the hosts than its answers bring.
  Reading-lt :
      {hosts hosts' : List Host}
      → All IsHost hosts
      → Reading q hosts hosts'
      → (load hosts' < load hosts) × All IsHost hosts'
  Reading-lt all (reads front h rest d ds c effects e p r s) =
      let (f, ((known, honest), k)) =
        All-halves IsHost front (h ∷ rest) (subst (All IsHost) e all) in
      let pending = subst (All (λ d. IsHonest q Member d.1)) p honest in
      let below : total (written effects) < weight (last_datagram d ds).1 =
        subst (IsBelow (weight (last_datagram d ds).1)) r (slot-IsBelow h.peer d ds pending) in
      let (real, honest_answers) =
        subst (Stays q Member) r
          (slot_read_messages-Stays q Member L fields h.peer d ds pending known.1 known.0) in
      let synced : IsSynced c =
        subst Keeps r (slot_read_messages-Keeps q h.peer (d ∷ ds) known.1) in
      (
        omega (
          arith,
          below,
          last-le d ds,
          Delivers-le s,
          ap load e,
          ap waiting p,
          load-middle front h rest,
          load-middle front (record { peer = c; pending = [] }) rest,
        ),
        Delivers-IsHost s honest_answers (All-append IsHost front _ f (((real, synced), tt), k)),
      )

  settles :
      {hosts hosts' : List Host} {n : ℕ}
      → All IsHost hosts
      → Readings q hosts n hosts'
      → (n + load hosts' ≤ load hosts) × All IsHost hosts'
  settles all silence = (omega arith, all)
  settles all (more run reading) =
      let (fewer, before) = settles all run in
      let (less, after) = Reading-lt before reading in (omega (arith, fewer, less), after)

  -- Over a lawful Qt, peers whose names and ids have no slashes and zeros, at which datagrams of theirs
  -- are pending: if nobody enters, says anything or leaves, they read at most as many times as the
  -- datagrams weigh, a greeting 2 and any other 1, wherever the answers arrive or are lost. Each
  -- reading lowers that weight.
  pub Readings-le :
      (hosts hosts' : List Host) (n : ℕ)
      → All IsHost hosts
      → Readings q hosts n hosts'
      → n + load hosts' ≤ load hosts
  Readings-le hosts hosts' n all run = (settles all run).0
