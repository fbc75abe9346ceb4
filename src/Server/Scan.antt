-- ===== src/Server/Scan.antt =====
-- `scan_and_send`, `try_cluster`, `auto_send` and `log_append` of src/server_th.cpp: what a server
-- does with one line that a client sent.
use muse_kv.Prelude.{
  ℕ, zero, suc, ◌+◌, ◌-◌, ◌*◌, ◌^◌, Bool, true, false, not, ◌&&◌, ◌||◌, Option, none, some, List,
  [], ◌∷◌, ◌++◌, ◌>>=◌, ◌==◌, ltb, if◌then◌else◌, length, get_elem?, take, drop, map,
}
use muse_kv.Prelude.Int.{ℤ, pos, ltb_ℤ, pos_part}
use muse_kv.Text
use muse_kv.Text.{Text, space}
use muse_kv.Text.Equal.{◌===◌}
use muse_kv.Text.Atoi.{atoi}
use muse_kv.Text.Number.{to_string, to_string_ℕ}
use muse_kv.Hash.{Hash}
use muse_kv.Encrypt.{power_loop, backslash}
use muse_kv.Snapshot.{to_uint8}
use muse_kv.Command.{Command, Outcome}
use muse_kv.Command.Dispatch.{Kind, codes, command_type, execute}
use muse_kv.Command.Files.{render}
use muse_kv.Server.{Socket, Server, Dial}
use muse_kv.Server

abbrev pub bsp_char : ℕ
bsp_char = 8

-- `" " + char(8) + " " + std::to_string(auth)`
abbrev pub auth_ch : ℤ → Text
auth_ch auth = space ∷ bsp_char ∷ space ∷ to_string auth

abbrev pub magic : Text → Text
magic verb = space ∷ bsp_char ∷ verb

-- The command and the level that it runs with: those of the line, if it has a backspace, else the
-- level of the client.
abbrev pub received_at : Option ℕ → Text → ℤ → Text × ℤ
received_at (some bsp) line auth = (take bsp line, atoi (drop (suc bsp) line))
received_at none line auth = (line, auth)

unfoldable pub received : Text → ℤ → Text × ℤ
received line auth = received_at (Text.find bsp_char line) line auth

-- `find("hashval") != npos`
abbrev pub starts_with : Text → Text → Bool
starts_with [] str = true
starts_with (p ∷ prefix) [] = false
starts_with (p ∷ prefix) (c ∷ str) = (p == c) && starts_with prefix str

unfoldable pub contains : Text → Text → Bool
contains what [] = starts_with what []
contains what (c ∷ str) = starts_with what (c ∷ str) || contains what str

-- The loop over `slot_start` and `slot_end`, from `index` on; `none` is a read past their end.
unfoldable pub find_slot : ℤ → ℕ → ℕ → List ℤ → List ℤ → Option ℕ
find_slot key zero index starts ends = some index
find_slot key (suc left) index (a ∷ starts) (b ∷ ends) =
    let rest = find_slot key left (index + 1) starts ends in
    if not (ltb_ℤ key a) && not (ltb_ℤ b key) then some index else rest
find_slot key (suc left) index _ _ = none

unfoldable pub target : Server → ℤ → Option ℤ
unfolding find_slot
target s key = do
  index ← find_slot key s.cluster_num 0 s.slot_start s.slot_end
  get_elem? s.cluster_vec index

-- The loop of `try_cluster`, over `left` replicas; `ask` is a send and a receive.
unfoldable pub try_cluster : (ℤ → Text → Option Text) → ℕ → List ℤ → Text → Text
try_cluster ask zero socks line = magic []
try_cluster ask (suc left) [] line = magic []
try_cluster ask (suc left) (fd ∷ socks) line =
    let rest = try_cluster ask left socks line in
    elim (ask fd line) [ none ↦ rest | some result ↦ result ]

-- `replica_num - 1`, as the bound of a loop from 0
abbrev pub others : Server → ℕ
others s = pos_part s.replica_num - 1

-- what the loop of `auto_send` sends to each replica
abbrev pub auto_send : Server → Text → List (ℤ × Text)
auto_send s line = map (λ fd. (fd, line)) (take (others s) s.replica_sock)

-- `(uint64_t)com[i]`, for a `char` that is signed
abbrev pub sign_extend : ℕ → ℕ
sign_extend c = if ltb c 128 then c else 2 ^ 64 - (256 - c)

unfoldable pub log_text : Text → Text
log_text [] = []
log_text (c ∷ line) =
    to_string_ℕ (power_loop 28969 1 (sign_extend c) (1021 * 1453)) ++ backslash ∷ log_text line

-- the line that `log_append` adds to the file
unfoldable pub log_append : Socket → Text → Text
log_append ss line = log_text (line ++ auth_ch ss.auth)

-- What a line leaves: the server and the client, the text sent back, the lines of the log, and what
-- the replicas are sent.
pub record Scanned : Type 0 where
  pub server : Server
  pub socket : Socket
  pub answer : Option Text
  pub log : List Text
  pub sent : List (ℤ × Text)

abbrev pub quiet : Socket → Option Text → Server → Scanned
quiet ss answer s = record { server = s; socket = ss; answer = answer; log = []; sent = [] }

abbrev pub then_answer : Socket → Text → Option Server → Option Scanned
then_answer ss answer none = none
then_answer ss answer (some s) = some (quiet ss (some answer) s)

abbrev pub is_zero : ℤ → Bool
is_zero (pos zero) = true
is_zero _ = false

abbrev pub is_write : Kind → Bool
is_write Kind.write_kind = true
is_write _ = false

-- "In this range"
unfoldable pub mine : Server → Socket → Kind → Text → ℤ → Text → Scanned
mine s ss val line level com_result = record {
  server = s;
  socket = ss;
  answer = some com_result;
  log =
      if is_write val
      then log_append ss (line ++ (bsp_char ∷ space ∷ to_string level)) ∷ []
      else [];
  sent =
      if ss.auto_send_yes && is_write val && not (is_zero s.replica_num)
      then auto_send s line
      else [];
}

abbrev pub or_else : Text → Text → Text
or_else com_result try_result = if try_result === magic [] then com_result else try_result

-- The answer of the other node, or, if it cannot be sent to, of the first replica that answers.
unfoldable pub relay : (ℤ → Text → Option Text) → Server → ℤ → Text → Text → Text
relay ask s fd line com_result = elim (ask fd line) [
  | none ↦ or_else com_result (try_cluster ask (others s) s.replica_sock line)
  | some buf ↦ buf
]

-- "command which needs request from another node"; `substr(8)` throws for a shorter text.
unfoldable pub forward : (ℤ → Text → Option Text) → Server → Socket → Text → Text → Option Scanned
forward ask s ss line com_result = do
  key_val ← (if ltb (length com_result) 8 then none else some (atoi (drop 8 com_result)))
  fd ← target s key_val
  let line' = line ++ auth_ch ss.auth
  some (record {
    server = s;
    socket = ss;
    answer = some (relay ask s fd line' com_result);
    log = [];
    sent = (fd, line') ∷ [];
  })

-- `substr(7)` throws for a shorter text.
abbrev pub greet : Server → Socket → Text → Option Scanned
greet s ss line =
    let (ss', repnum_st) = Server.authority_init s ss (atoi (drop 7 line)) in
    if ltb (length line) 7 then none else some (quiet ss' (some repnum_st) s)

module _ (dial : Text → ℤ → Dial) (sends : ℤ → Bool) (ask : ℤ → Text → Option Text) where
  -- the tests of `com_result`
  unfoldable pub scan_result : Server → Socket → Kind → Text → ℤ → Text → Option Scanned
  scan_result s ss val line level com_result =
      if com_result === magic (codes "client")
      then greet s ss line
      else if com_result === magic (codes "give")
      then (do info ← Server.give_replica_info s line; some (quiet ss (some info) s))
      else if com_result === magic (codes "clust")
      then then_answer ss com_result (Server.cluster_connect dial line s)
      else if com_result === magic (codes "myinfo")
      then then_answer ss com_result (Server.hash_reset line s)
      else if com_result === magic (codes "replicanumber")
      then then_answer ss com_result (Server.set_replica_num line s)
      else if com_result === magic (codes "replica")
      then then_answer ss com_result (Server.replica_add dial sends line s)
      else if com_result === magic (codes "replicaaccept")
      then some (quiet (Server.replica_accept ss) none s)
      else if contains (codes "hashval") com_result
      then forward ask s ss line com_result
      else some (mine s ss val line level com_result)

  -- after `execute`; `none` is a crash
  unfoldable pub scan_outcome : Server → Socket → Kind → Text × ℤ → Outcome → Option Scanned
  scan_outcome s ss val com_level none = none
  scan_outcome s ss val com_level (some (r, h)) =
      scan_result (record s { server_hash = h }) ss val com_level.0 com_level.1 (render r)

  module _ (save : Command → Hash → Outcome) (read : Command → Hash → Outcome)
      (curr_time timer : ℕ) where
    unfoldable pub scan_and_send : Server → Socket → Text → Option Scanned
    unfolding scan_outcome
    scan_and_send s ss line =
        let com_level = received line ss.auth in
        scan_outcome s ss (command_type line) com_level
          (execute save read curr_time timer com_level.0 (to_uint8 com_level.1) s.server_hash)
