-- ===== src/Replica.antt =====
-- src/replica.cpp: the configuration of the replicas of one node, and what the program sends to
-- each of them, as long as every call on a socket succeeds.
use muse_kv.Prelude.{
  ℕ, zero, suc, ◌+◌, ◌≡◌, refl, Option, none, some, List, [], ◌∷◌, ◌++◌, ◌>>=◌, if◌then◌else◌,
  length, drop,
}
use muse_kv.Text.{Text, trim}
use muse_kv.Text.Equal.{◌===◌}
use muse_kv.Text.Atoi.{atoi}
use muse_kv.Text.Number.{to_string_ℕ}
use muse_kv.Command.Dispatch.{codes}
use muse_kv.Distribute.{
  Replica, Session, word_at, first_of, array_size, quit_msg, other_lines, replica_sessions,
}

abbrev replica_fields : Text → Option Replica
replica_fields lr = do
  ip ← word_at lr 1
  port ← word_at lr 2
  some (record { ip = ip; port = atoi port; rep_com = trim lr })

-- One line of a replica; `none` is the exit for a wrong first word, or a read outside of the words.
unfoldable pub replica_line : Text → Option Replica
replica_line lr = do
  verb ← word_at lr 0
  if verb === codes "replica" then replica_fields lr else none

unfoldable pub replica_lines : ℕ → List Text → Option (List Replica)
unfolding replica_line
replica_lines zero lines = some []
replica_lines (suc n) lines = do
  replica ← replica_line (first_of lines)
  rest ← replica_lines n (drop 1 lines)
  some (replica ∷ rest)

-- the first line, trimmed, and the replicas
pub read_config : List Text → Option (Text × List Replica)
unfolding replica_lines
read_config lines = do
  verb ← word_at (first_of lines) 0
  count ← word_at (first_of lines) 1
  replica_num ← array_size (atoi count)
  replicas ← replica_lines replica_num (drop 1 lines)
  if verb === codes "replicanumber" then some (trim (first_of lines), replicas) else none

abbrev session : Text → List Replica → ℕ → Replica → Session
session lr_s replicas i replica = record {
  ip = replica.ip;
  port = replica.port;
  sent = lr_s ∷ (other_lines i 0 replicas ++ quit_msg ∷ []);
}

-- the last loop: the first line, the lines of the other replicas, and `quit`
unfoldable pub sessions : Text → List Replica → ℕ → List Replica → List Session
sessions lr_s replicas i [] = []
sessions lr_s replicas i (replica ∷ rest) =
    session lr_s replicas i replica ∷ sessions lr_s replicas (i + 1) rest

-- For a first line "replicanumber n" with their number, the replicas are sent what `distribute`
-- sends to the replicas of a node.
pub sessions-replica_sessions :
    (replicas : List Replica) (i : ℕ) (rest : List Replica)
    → sessions (codes "replicanumber " ++ to_string_ℕ (length replicas)) replicas i rest
      ≡ replica_sessions replicas i rest
unfolding sessions replica_sessions
sessions-replica_sessions replicas i [] = refl
sessions-replica_sessions replicas i (replica ∷ rest) =
    rw (sessions-replica_sessions replicas (i + 1) rest) refl
