-- ===== src/Tests/Servers.antt =====
-- Two servers of a cluster, for src/cluster.cpp, src/distribute.cpp and src/server_th.cpp.
use muse_kv.Prelude.{
  get_elem?, ℕ, zero, suc, ◌<◌, ◌≡◌, ◌≢◌, refl, ◌∙◌, true, none, some, [], ◌∷◌, ◌++◌, ◌==◌,
  if◌then◌else◌, arith,
}
use muse_kv.Prelude.Int.{ℤ, pos}
use muse_kv.Text.{Text, space, count}
use muse_kv.Text.Equal.{◌===◌}
use muse_kv.Text.Atoi.{atoi}
use muse_kv.Text.Words.{words, words-append, words-Free}
use muse_kv.Hash
use muse_kv.Hash.{total_slot_num}
use muse_kv.Encrypt.{decrypt_string, plain}
use muse_kv.Encrypt.Inverse.{modulus, password}
use muse_kv.Snapshot.{to_uint8}
use muse_kv.Command.{Command, Outcome}
use muse_kv.Command.Dispatch.{codes, command_type, execute}
use muse_kv.Command.Files
use muse_kv.Cluster.{Build, build, message, count_from}
use muse_kv.Cluster.Ranges.{Holds, slots_divided}
use muse_kv.Cluster.Agree.{message-clust_com}
use muse_kv.Distribute.{clust_com}
use muse_kv.Server.{Server, Socket, Dial, connected, setup}
use muse_kv.Client.{get_replica_info}
use muse_kv.Client.Protocol.{addresses, exchange, get_replica_info-exchange}
use muse_kv.Server.Scan.{bsp_char, auth_ch, log_append, scan_outcome, scan_and_send}
use muse_kv.Server.Forward.{scan_and_send-auth_ch}
use muse_kv.Server.Log.{decrypt_string-log_append}
use muse_kv.Server.Route.{taken_up, Delivered, routed}

slots_divided_example :
    (k : ℕ) × (k < 3) × Holds 3 k 5000 × ((j : ℕ) → j < 3 → Holds 3 j 5000 → j ≡ k)
slots_divided_example = slots_divided 3 5000 (omega arith) (omega arith)

abbrev first_host : Text
first_host = codes "10.0.0.1 8000"

abbrev second_host : Text
second_host = codes "10.0.0.2 8001"

two_servers : count_from (codes "cluster 2") 0 ≡ 2
unfolding count_from atoi
two_servers = refl

message-clust_com_example :
    (b : Build) × (build (codes "cluster 2") (first_host ∷ second_host ∷ []) ≡ some b)
    × (message b 0 1 ≡ clust_com 2 0 1 second_host)
message-clust_com_example =
    message-clust_com (codes "cluster 2") first_host (second_host ∷ []) 0 1 two_servers
      (omega arith)

abbrev hosts : ℕ → Text
hosts k = if k == 0 then first_host else second_host

abbrev ips : ℕ → Text
ips k = if k == 0 then codes "10.0.0.1" else codes "10.0.0.2"

abbrev ports : ℕ → Text
ports k = if k == 0 then codes "8000" else codes "8001"

abbrev sockets : ℕ → ℕ
sockets k = if k == 0 then 4 else 5

abbrev network : Text → ℤ → Dial
network ip port = connected (if ip === codes "10.0.0.1" then 4 else 5)

pair-words :
    (ip port : Text)
    → count space ip ≡ 0
    → ip ≢ []
    → count space port ≡ 0
    → port ≢ []
    → words (ip ++ space ∷ port) ≡ ip ∷ port ∷ []
pair-words ip port a b c d = words-append ip port ∙ rw (words-Free ip a b, words-Free port c d) refl

hosts-words : (k : ℕ) → k < 2 → words (hosts k) ≡ ips k ∷ ports k ∷ []
hosts-words zero h =
    pair-words (codes "10.0.0.1") (codes "8000") (unfold count in refl) (λ q. cc)
      (unfold count in refl) (λ q. cc)
hosts-words (suc zero) h =
    pair-words (codes "10.0.0.2") (codes "8001") (unfold count in refl) (λ q. cc)
      (unfold count in refl) (λ q. cc)
hosts-words (suc (suc k)) h = absurd (omega (arith, h))

hosts-Free : (k : ℕ) → k < 2 → count bsp_char (hosts k) ≡ 0
unfolding count
hosts-Free zero h = refl
hosts-Free (suc zero) h = refl
hosts-Free (suc (suc k)) h = absurd (omega (arith, h))

hosts-connected : (k : ℕ) → k < 2 → network (ips k) (atoi (ports k)) ≡ connected (sockets k)
hosts-connected zero h = refl
hosts-connected (suc zero) h = refl
hosts-connected (suc (suc k)) h = absurd (omega (arith, h))

second-Holds : Holds 2 1 9000
second-Holds = (refl, refl)

abbrev client : Socket
client = record { online = true; auto_send_yes = true; auth = pos 3 }

abbrev no_disk : Command → Hash.Hash → Outcome
no_disk = Files.read none

routed_example :
    (s : Server) × (taken_up network
        (λ fd. true)
        (λ fd line. none)
        no_disk
        no_disk
        100
        100
        client
        2
        0
        hosts
        2
        (setup 8000)
      ≡ some s)
    × Delivered 0 1 9000 sockets s
routed_example =
    routed network (λ fd. true) (λ fd line. none) no_disk no_disk 100 100 client 2 0 sockets
      (omega arith) (omega arith) hosts ips ports hosts-words hosts-Free hosts-connected 8000 1 9000
      (omega arith) (omega arith) second-Holds (omega arith)

scan_and_send-auth_ch_example :
    scan_and_send network
      (λ fd. true)
      (λ fd line. none)
      no_disk
      no_disk
      100
      100
      (setup 8000)
      client
      (codes "get fruit" ++ auth_ch (pos 5))
    ≡ scan_outcome network
        (λ fd. true)
        (λ fd line. none)
        (setup 8000)
        client
        (command_type (codes "get fruit" ++ auth_ch (pos 5)))
        (codes "get fruit" ++ space ∷ [], pos 5)
        (execute no_disk no_disk 100 100
          (codes "get fruit")
          (to_uint8 (pos 5))
          (setup 8000).server_hash)
scan_and_send-auth_ch_example =
    scan_and_send-auth_ch network (λ fd. true) (λ fd line. none) no_disk no_disk 100 100
      (setup 8000) client (codes "get fruit") 5 (unfold count in refl)

decrypt_string-log_append_example :
    decrypt_string modulus (pos password) (log_append client (codes "ok"))
    ≡ some (plain (codes "ok" ++ auth_ch (pos 3)))
decrypt_string-log_append_example =
    decrypt_string-log_append client (codes "ok") 3 refl
      ((omega arith, omega arith), ((omega arith, omega arith), tt))

-- a server with one more replica
abbrev master : Server
master = record (setup 8000) {
  replica_num = pos 2;
  replica_com = codes "replica 10.0.0.2 8001" ∷ [];
}

master-stored :
    (i : ℕ) → i < 1 → get_elem? master.replica_com i ≡ some (codes "replica 10.0.0.2 8001")
master-stored zero h = refl
master-stored (suc i) h = absurd (omega (arith, h))

master-named :
    (i : ℕ)
    → i < 1
    → words (codes "replica 10.0.0.2 8001") ≡ codes "replica" ∷ codes "10.0.0.2" ∷ codes "8001" ∷ []
master-named i h =
    words-append (codes "replica") second_host
    ∙ rw
        (words-Free (codes "replica") (unfold count in refl) (λ q. cc), hosts-words 1 (omega arith))
        refl

get_replica_info_example :
    get_replica_info
      (exchange network (λ fd. true) (λ fd line. none) no_disk no_disk 100 100)
      (pos 5)
      (codes "10.0.0.1")
      (pos 8000)
      (master, client)
    ≡ some (
      (codes "10.0.0.1", pos 8000) ∷ addresses (λ i. codes "10.0.0.2") (λ i. codes "8001") 1 0,
      (master, record client { auth = pos 5 }),
    )
get_replica_info_example =
    get_replica_info-exchange network (λ fd. true) (λ fd line. none) no_disk no_disk 100 100 master
      1 (λ i. codes "replica 10.0.0.2 8001") (λ i. codes "10.0.0.2") (λ i. codes "8001")
      master-stored master-named client 5 (codes "10.0.0.1") (pos 8000) refl
