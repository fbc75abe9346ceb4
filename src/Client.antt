-- ===== src/Client.antt =====
-- `get_replica_info` of src/client.cpp: what a client asks a server when it starts. An exchange is a
-- line that is sent and the answer that is received, on the state of the other side; `none` is a
-- call that fails, after which the function returns 0.
pub mod Protocol
pub mod Loop
pub mod Session
use muse_kv.Prelude.{
  ℕ, zero, suc, ◌+◌, ◌-◌, Option, none, some, List, [], ◌∷◌, ◌++◌, ◌>>=◌, if◌then◌else◌,
}
use muse_kv.Prelude.Int.{ℤ}
use muse_kv.Text.{Text}
use muse_kv.Text.Atoi.{atoi}
use muse_kv.Text.Number.{to_string, to_string_ℕ}
use muse_kv.Command.Dispatch.{codes}
use muse_kv.Distribute.{word_at, array_size}
use muse_kv.Server.Scan.{is_zero}

module _ {S : Type 0} (exchange : S → Text → Option (Text × S)) where
  -- the loop over the other replicas, from `i` on: the entries of `replica_ip` and `replica_port`
  unfoldable pub give_loop : ℕ → ℕ → S → Option (List (Text × ℤ) × S)
  give_loop zero i s = some ([], s)
  give_loop (suc left) i s = do
    got ← exchange s (codes "give " ++ to_string_ℕ i)
    ip ← word_at got.0 1
    port ← word_at got.0 2
    rest ← give_loop left (i + 1) got.1
    some ((ip, atoi port) ∷ rest.0, rest.1)

  -- the server itself, and its replicas
  unfoldable pub with_replicas : Text → ℤ → ℕ → S → Option (List (Text × ℤ) × S)
  unfolding give_loop
  with_replicas ip p replica_num s = do
    rest ← give_loop (replica_num - 1) 0 s
    some ((ip, p) ∷ rest.0, rest.1)

  -- The addresses that a client knows after the start; none of a server without replicas.
  unfoldable pub get_replica_info : ℤ → Text → ℤ → S → Option (List (Text × ℤ) × S)
  unfolding with_replicas
  get_replica_info auth ip p s = do
    got ← exchange s (codes "client " ++ to_string auth)
    word ← word_at got.0 0
    replica_num ← array_size (atoi word)
    if is_zero (atoi word) then some ([], got.1) else with_replicas ip p replica_num got.1
