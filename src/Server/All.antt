-- ===== src/Server/All.antt =====
-- `all_keys` and `all_save` of src/server_th.cpp, which ask every other server; nothing calls them.
use muse_kv.Prelude.{Option, none, some, List, [], ◌∷◌, ◌++◌, ◌>>=◌}
use muse_kv.Prelude.Int.{ℤ}
use muse_kv.Text.{Text, comma, space}
use muse_kv.Text.Number.{to_string}
use muse_kv.Encrypt.{c_string}
use muse_kv.Command.Dispatch.{codes}
use muse_kv.Snapshot.{newline}
use muse_kv.Server.{Server, Socket}
use muse_kv.Server.Scan.{bsp_char}

abbrev pub keys_com : Socket → Text
keys_com ss = codes "xkeys " ++ bsp_char ∷ space ∷ to_string ss.auth

-- `ask` is a send and a receive; `none` where one fails.
module _ (ask : ℤ → Text → Option Text) where
  -- After a call that fails, `return 0` makes a string of NULL, which throws.
  unfoldable pub keys_loop : Socket → List ℤ → Text → Option Text
  keys_loop ss [] key_all = some (key_all ++ newline ∷ [])
  keys_loop ss (fd ∷ fds) key_all = do
    buf ← ask fd (keys_com ss)
    keys_loop ss fds (key_all ++ (c_string buf ++ comma ∷ []))

  unfoldable pub all_keys : Server → Socket → Option Text
  unfolding keys_loop
  all_keys s ss = keys_loop ss s.cluster_vec (comma ∷ [])

  -- The servers that the loop asks, up to the first that does not answer.
  unfoldable pub save_loop : List ℤ → List ℤ
  save_loop [] = []
  save_loop (fd ∷ fds) =
      let rest = save_loop fds in
      elim (ask fd (codes "xsave")) [ none ↦ fd ∷ [] | some buf ↦ fd ∷ rest ]

  unfoldable pub all_save : Server → List ℤ
  unfolding save_loop
  all_save s = save_loop s.cluster_vec
