-- ===== src/Recover.antt =====
-- src/recover.cpp: a program that sends the lines of a file of commands to a server.
pub mod Replay
use muse_kv.Prelude.{
  ℕ, zero, suc, ◌-◌, ◌+◌, Bool, not, Option, none, some, List, [], ◌∷◌, ◌++◌, ◌>>=◌, ◌==◌,
  if◌then◌else◌, length, drop, take, get_or, replicate,
}
use muse_kv.Prelude.Int.{ℤ, pos}
use muse_kv.Text.{Text}
use muse_kv.Text.Atoi.{atoi}
use muse_kv.Text.Number.{to_string, to_string_ℕ}
use muse_kv.Encrypt.{c_string}
use muse_kv.Command.Dispatch.{codes}
use muse_kv.Client.{give_loop}
use muse_kv.Distribute.{word_at, array_size}
use muse_kv.Snapshot.{newline}

-- The level, by the number of arguments: the test for four of them comes after the exit for any
-- number but five.
unfoldable pub level : List Text → Option ℤ
level argv =
    if not (length argv == 5)
    then none
    else if length argv == 4
    then some (atoi (get_or argv 3 []))
    else some (pos 0)

module _ {S : Type 0} (exchange : S → Text → Option (Text × S)) where
  -- The first entries of the two arrays, read by the loop of src/client.cpp; the last one stays empty.
  unfoldable pub get_replica_info : ℤ → S → Option (List (Text × ℤ) × S)
  unfolding give_loop
  get_replica_info auth s = do
    got ← exchange s (codes "client " ++ to_string auth)
    word ← word_at got.0 0
    replica_num ← array_size (atoi word)
    give_loop exchange (replica_num - 1) 0 got.1

-- `memset(buf, 0, sizeof(buf))`, with the size of a pointer
abbrev pub clear : Text → Text
clear buf = replicate (length (take 8 buf)) 0 ++ drop 8 buf

-- `recv` writes the bytes that come and leaves the others.
abbrev pub fill : Option Text → Text → Text
fill none buf = buf
fill (some got) buf = got ++ drop (length got) buf

abbrev flush_line : Text → List Text
flush_line [] = []
flush_line (c ∷ line) = (c ∷ line) ∷ []

-- `while(getline(in, lr))`
unfoldable pub file_lines : Text → Text → List Text
file_lines line [] = flush_line line
file_lines line (c ∷ str) =
    let ended = line ∷ file_lines [] str in
    let longer = file_lines (line ++ c ∷ []) str in if c == newline then ended else longer

module _ {S : Type 0} (send : S → Text → Bool × S) (recv : S → Option (Option Text × S)) where
  -- The lines printed after "Received: ". A `send` or a `recv` that fails is reported, and the loop
  -- goes on; `none` is a `recv` that waits forever.
  unfoldable pub replay : List Text → Text → S → Option (List Text × S)
  replay [] buf s = some ([], s)
  replay (line ∷ lines) buf s = do
    (got, s') ← recv (send s line).1
    let buf' = fill got (clear buf)
    (out, t) ← replay lines buf' s'
    some (c_string buf' ∷ out, t)

  unfoldable pub task_client : Text → Text → S → Option (List Text × S)
  unfolding replay file_lines
  task_client file buf s = replay (file_lines [] file) buf s
