-- ===== src/Distribute.antt =====
-- src/distribute.cpp: the configuration file of servers with replicas, and what the program sends
-- to each of them, as long as every call on a socket succeeds.
use muse_kv.Prelude.{
  ℕ, zero, suc, ◌+◌, ◌-◌, ◌*◌, ◌/◌, ◌%◌, not, Option, none, some, List, [], ◌∷◌, ◌++◌, ◌==◌, ltb,
  ◌>>=◌, if◌then◌else◌, length, get_elem?, drop,
}
use muse_kv.Prelude.Int.{ℤ, pos, negsuc, sub_ℕ}
use muse_kv.Text.{Text, space, split, trim}
use muse_kv.Text.Atoi.{atoi}
use muse_kv.Text.Number.{to_string_ℕ}
use muse_kv.Hash.{total_slot_num}
use muse_kv.Command.Dispatch.{codes}
use muse_kv.Cluster.{range_line}

-- `replica_ip[i][j]`, `replica_port[i][j]` and `replica_com[i][j]`
pub record Replica : Type 0 where
  pub ip : Text
  pub port : ℤ
  pub rep_com : Text

-- The replicas of each node; `none` where the code reads outside of an array.
abbrev pub Config : Type 0
Config = List (List Replica)

-- `temp[i]`, after `trim` and `split`
abbrev pub word_at : Text → ℕ → Option Text
word_at lr i = get_elem? (split (trim lr) space) i

-- `getline`, which gives the empty text at the end of the file
abbrev pub first_of : List Text → Text
first_of [] = []
first_of (lr ∷ lines) = lr

-- the size of a `new`, which throws if it is negative
abbrev pub array_size : ℤ → Option ℕ
array_size (pos n) = some n
array_size (negsuc n) = none

-- `atoi(temp[1].c_str())`, and the arrays of that size
unfoldable pub read_count : Text → Option ℕ
read_count lr = do word ← word_at lr 1; array_size (atoi word)

unfoldable pub read_replica : Text → Option Replica
read_replica lr = do
  ip ← word_at lr 1
  port ← word_at lr 2
  some (record { ip = ip; port = atoi port; rep_com = lr })

unfoldable pub read_replicas : ℕ → List Text → Option (List Replica × List Text)
read_replicas zero lines = some ([], lines)
read_replicas (suc n) lines = do
  replica ← read_replica (first_of lines)
  rest ← read_replicas n (drop 1 lines)
  some (replica ∷ rest.0, rest.1)

unfoldable pub read_nodes : ℕ → List Text → Option Config
unfolding read_count read_replicas
read_nodes zero lines = some []
read_nodes (suc n) lines = do
  replica_num ← read_count (first_of lines)
  node ← read_replicas replica_num (drop 1 lines)
  rest ← read_nodes n node.1
  some (node.0 ∷ rest)

-- `each_slot` is a division by the number of nodes.
pub read_config : List Text → Option Config
unfolding read_nodes read_count
read_config lines = do
  cluster_num ← read_count (first_of lines)
  if cluster_num == 0 then none else read_nodes cluster_num (drop 1 lines)

-- One connection: to whom, and what is sent.
pub record Session : Type 0 where
  pub ip : Text
  pub port : ℤ
  pub sent : List Text

abbrev pub quit_msg : Text
quit_msg = codes "quit"

-- the lines of all replicas but that of index `j`
unfoldable pub other_lines : ℕ → ℕ → List Replica → List Text
other_lines j k [] = []
other_lines j k (replica ∷ rest) =
    let others = other_lines j (k + 1) rest in
    if not (j == k) then replica.rep_com ∷ others else others

abbrev replica_session : List Replica → ℕ → Replica → Session
replica_session node j replica = record {
  ip = replica.ip;
  port = replica.port;
  sent =
      (codes "replicanumber " ++ to_string_ℕ (length node))
      ∷ (other_lines j 0 node ++ quit_msg ∷ []);
}

-- the loop over the replicas of one node
unfoldable pub replica_sessions : List Replica → ℕ → List Replica → List Session
replica_sessions node j [] = []
replica_sessions node j (replica ∷ rest) =
    replica_session node j replica ∷ replica_sessions node (j + 1) rest

-- "replica building mode"
unfoldable pub build_replicas : Config → List Session
build_replicas [] = []
build_replicas (node ∷ nodes) = replica_sessions node 0 node ++ build_replicas nodes

abbrev pub slot_start : ℕ → ℕ → ℕ
slot_start cluster_num k = total_slot_num / cluster_num * k

abbrev pub slot_end : ℕ → ℕ → ℤ
slot_end cluster_num k =
    if not (k == cluster_num - 1)
    then sub_ℕ (total_slot_num / cluster_num * (k + 1)) 1
    else pos (total_slot_num - 1)

-- what the node of index `j` is sent of that of index `k`, whose line `retrieve` is
unfoldable pub clust_com : ℕ → ℕ → ℕ → Text → Text
clust_com cluster_num j k retrieve =
    if k == j
    then range_line "myinfo " retrieve (slot_start cluster_num k) (slot_end cluster_num k)
    else range_line "clust " retrieve (slot_start cluster_num k) (slot_end cluster_num k)

-- `replica_com[k][index].substr(8)`, which throws if the line is shorter
abbrev pub retrieve_of : Text → Option Text
retrieve_of line = if ltb (length line) 8 then none else some (drop 8 line)

unfoldable pub clust_lines : ℕ → ℕ → ℕ → ℕ → Config → Option (List Text)
unfolding clust_com
clust_lines cluster_num index j k [] = some []
clust_lines cluster_num index j k (node ∷ nodes) = do
  replica ← get_elem? node index
  retrieve ← retrieve_of replica.rep_com
  rest ← clust_lines cluster_num index j (k + 1) nodes
  some (clust_com cluster_num j k retrieve ∷ rest)

-- The connection number `i` to a node. The code computes `index`, and connects to that of index
-- `i`; `i % 0` is a crash.
unfoldable pub cluster_session : Config → ℕ → ℕ → List Replica → Option Session
unfolding clust_lines
cluster_session config i j [] = none
cluster_session config i j (first ∷ node) = do
  replica ← get_elem? (first ∷ node) i
  let index = i % length (first ∷ node)
  lines ← clust_lines (length config) index j 0 config
  some (record { ip = replica.ip; port = replica.port; sent = lines ++ quit_msg ∷ [] })

unfoldable pub round_sessions : Config → ℕ → ℕ → List (List Replica) → Option (List Session)
unfolding cluster_session
round_sessions config i j [] = some []
round_sessions config i j (node ∷ nodes) = do
  session ← cluster_session config i j node
  rest ← round_sessions config i (j + 1) nodes
  some (session ∷ rest)

-- `max_rep`, which starts from 1
unfoldable pub max_rep : ℕ → Config → ℕ
max_rep most [] = most
max_rep most (node ∷ nodes) = max_rep (if ltb most (length node) then length node else most) nodes

unfoldable pub all_rounds : Config → ℕ → ℕ → Option (List Session)
unfolding round_sessions
all_rounds config zero i = some []
all_rounds config (suc left) i = do
  sessions ← round_sessions config i 0 config
  rest ← all_rounds config left (i + 1)
  some (sessions ++ rest)

-- "cluster building mode"
pub build_cluster : Config → Option (List Session)
unfolding all_rounds max_rep
build_cluster config = all_rounds config (max_rep 1 config) 0
