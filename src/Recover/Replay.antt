-- ===== src/Recover/Replay.antt =====
-- What a server holds after src/recover.cpp has sent it the lines of a file of commands.
use muse_kv.Prelude.{ℕ, Bool, ◌≡◌, Option, some, List, []}
use muse_kv.Prelude.Int.{ℤ}
use muse_kv.Text.{Text}
use muse_kv.Hash.{Hash}
use muse_kv.Command.{Command, Outcome}
use muse_kv.Command.Refines.Session.{Cells}
use muse_kv.Command.Refines.Served.{Shows}
use muse_kv.Server.{Server, Socket, Dial}
use muse_kv.Server.Channel.{Channel}

module _ (dial : Text → ℤ → Dial) (sends : ℤ → Bool) (ask : ℤ → Text → Option Text)
    (save read : Command → Hash → Outcome) (t timer : ℕ) (slot : Text → ℕ) (first last : ℤ)
    (ss : Socket) where
  -- What the server is after the lines.
  pub record Replayed (o : Option (List Text × Channel)) (m : Cells) : Type 0 where
    pub after : Server
    pub prints : List Text
    pub stands : o ≡ some (prints, (some (after, ss), []))
    pub shows : Shows slot first last after.server_hash m
