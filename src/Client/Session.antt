-- ===== src/Client/Session.antt =====
-- What src/client.cpp prints for the lines that are typed, and what the server holds then.
use muse_kv.Prelude.{ℕ, Bool, ◌≡◌, Option, some, List, [], ◌||◌, false}
use muse_kv.Prelude.Int.{ℤ}
use muse_kv.Text.{Text}
use muse_kv.Hash.{Hash}
use muse_kv.Command.{Command, Outcome}
use muse_kv.Command.Refines.Session.{Cells}
use muse_kv.Command.Refines.Served.{Shows}
use muse_kv.Server.{Server, Socket, Dial}
use muse_kv.Server.Channel.{Channel, IsSent}
use muse_kv.Text.Equal.{◌===◌}
use muse_kv.Command.Dispatch.{codes}

module _ (dial : Text → ℤ → Dial) (sends : ℤ → Bool) (ask : ℤ → Text → Option Text)
    (save read : Command → Hash → Outcome) (t timer : ℕ) (slot : Text → ℕ) (first last : ℤ)
    (ss : Socket) where
  -- The client prints the texts, and the server shows the cells.
  pub record Talked (o : Option (List Text × Channel)) (texts : List Text) (m : Cells)
      : Type 0 where
    pub after : Server
    pub prints : o ≡ some (texts, (some (after, ss), []))
    pub shows : Shows slot first last after.server_hash m

  -- The line is one of a session, and the client sends it on.
  pub record IsTyped (line : Text) : Type 0 where
    pub sent : IsSent dial sends ask save read t timer slot first last ss line
    pub goes_on : ((line === codes "quit") || (line === codes "shutdown")) ≡ false
