-- ===== src/Server.antt =====
-- src/server_th.h and src/server_th.cpp: the state of a server, its messages for the cluster and
-- its replicas, and how it answers one line of text. Sockets are arguments of the functions.
pub mod Scan
pub mod Link
pub mod Take
pub mod Loop
pub mod Route
pub mod Forward
pub mod Log
pub mod Sound
pub mod Threads
pub mod Channel
pub mod Remote
pub mod All
use muse_kv.Prelude.{
  ℕ, zero, suc, ◌+◌, ◌-◌, Bool, true, false, not, ◌&&◌, Option, none, some, List, [], ◌∷◌, ◌++◌,
  ◌>>=◌, ltb, if◌then◌else◌, length, get_elem?, set, replicate, drop,
}
use muse_kv.Prelude.Int.{ℤ, pos, negsuc, ltb_ℤ, pos_part}
use muse_kv.Text.{Text, space, split, trim}
use muse_kv.Text.Atoi.{atoi}
use muse_kv.Text.Number.{to_string}
use muse_kv.Hash
use muse_kv.Hash.{Hash}
use muse_kv.Distribute.{word_at}

-- `struct socket_st`
pub record Socket : Type 0 where
  pub online : Bool
  pub auto_send_yes : Bool
  pub auth : ℤ

pub record Server : Type 0 where
  pub server_hash : Hash
  pub client_num : ℤ
  pub cluster_vec : List ℤ
  pub slot_start : List ℤ
  pub slot_end : List ℤ
  pub cluster_num : ℕ
  pub replica_num : ℤ
  pub repnum : ℕ
  pub replica_com : List Text
  pub replica_ip : List Text
  pub replica_port : List ℤ
  pub replica_sock : List ℤ

-- `setup`, for a port that can be bound
unfoldable pub setup : ℕ → Server
setup port = record {
  server_hash = Hash.new port;
  client_num = pos 0;
  cluster_vec = [];
  slot_start = [];
  slot_end = [];
  cluster_num = 0;
  replica_num = pos 0;
  repnum = 0;
  replica_com = [];
  replica_ip = [];
  replica_port = [];
  replica_sock = [];
}

-- What `socket` and `connect` give for an address and a port: the first fails, the second fails,
-- or there is a connection.
pub data Dial : Type 0 where
  no_socket : Dial
  refused connected : ℕ → Dial

-- `client_num--`
abbrev pub dec : ℤ → ℤ
dec (pos zero) = negsuc 0
dec (pos (suc n)) = pos n
dec (negsuc n) = negsuc (n + 1)

-- `*iter = socket(...)`, and whether what follows is reached
abbrev pub descriptor : Dial → ℤ
descriptor no_socket = negsuc 0
descriptor (refused fd) = pos fd
descriptor (connected fd) = pos fd

abbrev pub is_connected : Dial → Bool
is_connected (connected fd) = true
is_connected _ = false

abbrev pub joined : Dial → Server → Server
joined dial s = record s {
  cluster_vec = s.cluster_vec ++ descriptor dial ∷ [];
  cluster_num = s.cluster_num + 1;
}

abbrev pub linked : ℤ → ℤ → Server → Server
linked start end s = record s {
  slot_start = s.slot_start ++ start ∷ [];
  slot_end = s.slot_end ++ end ∷ [];
  client_num = dec s.client_num;
}

-- the two `push_back`, behind the returns for a connection that fails
abbrev pub link_words : Text → Server → Option Server
link_words line s = do
  start ← word_at line 3
  end ← word_at line 4
  some (linked (atoi start) (atoi end) s)

-- `none` is a read outside of the words of the line.
unfoldable pub cluster_connect : (Text → ℤ → Dial) → Text → Server → Option Server
cluster_connect dial line s = do
  ip ← word_at line 1
  port ← word_at line 2
  let s' = joined (dial ip (atoi port)) s
  if is_connected (dial ip (atoi port)) then link_words line s' else some s'

unfoldable pub hash_reset : Text → Server → Option Server
hash_reset line s = do
  start ← word_at line 3
  end ← word_at line 4
  some (record s { server_hash = Hash.set_boundary (atoi start) (atoi end) s.server_hash })

-- the four arrays of `replica_num - 1` entries; `new` of a negative size throws
abbrev pub with_arrays : ℤ → Server → Option Server
with_arrays (pos (suc n)) s = some (record s {
  replica_num = pos (suc n);
  repnum = 0;
  replica_com = replicate n [];
  replica_ip = replicate n [];
  replica_port = replicate n (pos 0);
  replica_sock = replicate n (pos 0);
})
with_arrays _ s = none

unfoldable pub set_replica_num : Text → Server → Option Server
set_replica_num line s = do word ← word_at line 1; with_arrays (atoi word) s

-- `repnum++`, when the connection stands and the first message is sent
abbrev pub counted_replica : Bool → Server → Server
counted_replica sent s = if sent then record s { repnum = s.repnum + 1 } else s

-- `sends fd` tells whether the message "replicaaccept" is sent.
unfoldable pub replica_add : (Text → ℤ → Dial) → (ℤ → Bool) → Text → Server → Option Server
replica_add dial sends line s =
    if ltb_ℤ (pos (s.repnum + 1)) s.replica_num
    then (do
      ip ← word_at line 1
      port ← word_at line 2
      let fd = descriptor (dial ip (atoi port))
      some (
          counted_replica (is_connected (dial ip (atoi port)) && sends fd) (record s {
            replica_com = set s.replica_com s.repnum (trim line);
            replica_ip = set s.replica_ip s.repnum ip;
            replica_port = set s.replica_port s.repnum (atoi port);
            replica_sock = set s.replica_sock s.repnum fd;
          })))
    else some s

unfoldable pub replica_accept : Socket → Socket
replica_accept ss = record ss { auto_send_yes = false }

-- the level of the client, and what it is sent
unfoldable pub authority_init : Server → Socket → ℤ → Socket × Text
authority_init s ss a = (record ss { auth = a }, to_string s.replica_num)

abbrev pub at_index : List Text → ℤ → Option Text
at_index xs (pos i) = get_elem? xs i
at_index xs (negsuc i) = none

-- what the client is sent
unfoldable pub give_replica_info : Server → Text → Option Text
give_replica_info s line = do word ← word_at line 1; at_index s.replica_com (atoi word)

abbrev pub max_client_num : ℕ
max_client_num = 100

unfoldable pub over_client : Server → Bool
over_client s = ltb_ℤ (pos max_client_num) s.client_num

pub get_client_num : Server → ℤ
get_client_num s = s.client_num
