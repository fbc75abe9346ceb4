-- ===== src/Command/Refines/Session.antt =====
-- A session of command lines, `execute` of src/command.h one after the other, against what the
-- lines promise for a map from keys to cells.
use muse_kv.Prelude.{
  ℕ, Bool, true, ◌&&◌, ◌||◌, Option, none, some, List, [], ◌∷◌, ltb, if◌then◌else◌, ◌>>=◌, length,
}
use muse_kv.Prelude.Int.{ℤ, pos, ltb_ℤ}
use muse_kv.Text.{Text}
use muse_kv.Text.Equal.{◌===◌}
use muse_kv.Text.Words.{words}
use muse_kv.Hash.{Hash}
use muse_kv.Command
use muse_kv.Command.{Command, num_args, arg, Reply, Outcome, reply}
use muse_kv.Command.Dispatch.{select, is_magic, execute}
use muse_kv.Command.Spec.{Cell, Effect, act}
use muse_kv.Command.Refines.Run.{acts_on_key}

-- A line, the level of its client, and the time of day.
pub record Request : Type 0 where
  pub line : Text
  pub auth : ℕ
  pub curr_time : ℕ
  pub timer : ℕ

-- What a server knows of the keys, without the order of the nodes.
abbrev pub Cells : Type 0
Cells = Text → Cell

abbrev pub stored : Text → Cells → Effect → Option (Reply × Cells)
stored key m none = none
stored key m (some (r, cell)) = some (r, λ j. if key === j then cell else m j)

-- The lines do not list all keys and have nothing to do with a file.
unfoldable pub is_local_args : List Text → Bool
is_local_args [] = true
is_local_args (verb ∷ rest) = is_magic verb || acts_on_key (select verb (length (verb ∷ rest)))

unfoldable pub is_local : Request → Bool
unfolding is_local_args
is_local q = is_local_args (words q.line)

-- The slot of a key, and the slots from `first` to `last` that the server keeps.
module _ (slot : Text → ℕ) (first last : ℤ) where
  unfoldable pub play_here : Request → Text → Command → Cells → Option (Reply × Cells)
  play_here q verb c m =
      if ltb 1 (num_args c)
        && (ltb_ℤ (pos (slot (arg c 1))) first || ltb_ℤ last (pos (slot (arg c 1))))
      then some (Command.redirect (slot (arg c 1)), m)
      else stored (arg c 1) m (act q.curr_time q.timer c (m (arg c 1)) (select verb (num_args c)))

  unfoldable pub play_args : Request → Command → List Text → Cells → Option (Reply × Cells)
  play_args q c [] m = some (Command.invalid_command, m)
  play_args q c (verb ∷ rest) m =
      if is_magic verb then some (Command.magic verb, m) else play_here q verb c m

  -- What a line promises.
  unfoldable pub play : Request → Cells → Option (Reply × Cells)
  unfolding play_here play_args
  play q m = play_args q (record { args = words q.line; auth = q.auth }) (words q.line) m

  unfoldable pub play_all : List Request → Cells → Option (List Reply × Cells)
  unfolding play
  play_all [] m = some ([], m)
  play_all (q ∷ qs) m = do (r, m1) ← play q m; (rs, m2) ← play_all qs m1; some (r ∷ rs, m2)

module _ (save read : Command → Hash → Outcome) where
  unfoldable pub serve : List Request → Hash → Option (List Reply × Hash)
  serve [] h = some ([], h)
  serve (q ∷ qs) h = do
    (r, h1) ← execute save read q.curr_time q.timer q.line q.auth h
    (rs, h2) ← serve qs h1
    some (r ∷ rs, h2)
