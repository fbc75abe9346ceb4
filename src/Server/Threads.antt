-- ===== src/Server/Threads.antt =====
-- `server_accept` and `server_task` of src/server_th.cpp and the loop of src/server.cpp: a server
-- with its connections. Each line that a client sends is scanned by a thread of its own, which
-- may run any time later.
pub mod Invariant
use muse_kv.Prelude.{
  ℕ, zero, suc, ◌+◌, ◌≡◌, Bool, true, false, Option, none, some, List, [], ◌∷◌, ◌++◌, ◌>>=◌, ◌==◌,
  if◌then◌else◌,
}
use muse_kv.Prelude.Int.{ℤ, pos, negsuc}
use muse_kv.Text.{Text}
use muse_kv.Text.Equal.{◌===◌}
use muse_kv.Encrypt.{c_string}
use muse_kv.Command.Dispatch.{codes}
use muse_kv.Command.Files
use muse_kv.Server
use muse_kv.Server.{Server, Socket, Dial, dec, over_client}
use muse_kv.Server.Scan.{Scanned, scan_and_send}

-- A `socket_st`, its descriptor, and whether the loop of its `server_task` still runs.
pub record Connection : Type 0 where
  pub ss : Socket
  pub client_fd : ℕ
  pub is_running : Bool

-- `sock_vec` by the addresses of its structs, which `new` does not give twice; the scanning threads
-- that have not run yet, with the address and the line of each.
pub record World : Type 0 where
  pub server : Server
  pub sock_vec : List (ℕ × Connection)
  pub fresh : ℕ
  pub scans : List (ℕ × Text)

unfoldable pub start : ℕ → World
start port = record { server = Server.setup port; sock_vec = []; fresh = 0; scans = [] }

abbrev pub lookup : ℕ → List (ℕ × Connection) → Option Connection
lookup p [] = none
lookup p ((q, c) ∷ cs) = if p == q then some c else lookup p cs

abbrev pub put : ℕ → Connection → List (ℕ × Connection) → List (ℕ × Connection)
put p c [] = []
put p c ((q, d) ∷ cs) = if p == q then (q, c) ∷ cs else (q, d) ∷ put p c cs

-- `sock_vec.erase(std::find(...))`
abbrev pub erase : ℕ → List (ℕ × Connection) → List (ℕ × Connection)
erase p [] = []
erase p ((q, d) ∷ cs) = if p == q then cs else (q, d) ∷ erase p cs

-- `client_num++`
abbrev pub inc : ℤ → ℤ
inc (pos n) = pos (suc n)
inc (negsuc zero) = pos 0
inc (negsuc (suc n)) = negsuc n

abbrev pub new_socket : Socket
new_socket = record { online = true; auto_send_yes = true; auth = pos 0 }

-- What `accept` returns, `none` if it fails, and what `server_accept` returns.
unfoldable pub server_accept : Option ℕ → World → World × ℕ
server_accept none w = (w, 0)
server_accept (some fd) w = (
  record w {
    server = record w.server { client_num = inc w.server.client_num };
    sock_vec =
        w.sock_vec ++ (w.fresh, record { ss = new_socket; client_fd = fd; is_running = true }) ∷ [];
    fresh = w.fresh + 1;
  },
  1,
)

-- the rest of a turn after `recv`, of what is in `buf`
unfoldable pub hear : ℕ → Connection → Text → World → World
hear p c line w =
    if line === codes "quit"
    then record w { sock_vec = put p (record c { ss = record c.ss { online = false } }) w.sock_vec }
    else record w { scans = w.scans ++ (p, line) ∷ [] }

-- One turn of the loop of `server_task`; `none` is a `recv` that fails, which ends the loop.
unfoldable pub server_task : ℕ → Connection → Option Text → World → World
unfolding hear
server_task p c got w =
    if c.ss.online
    then (elim got [
      | none ↦ record w { sock_vec = put p (record c { is_running = false }) w.sock_vec }
      | some buf ↦ hear p c (c_string buf) w
    ])
    else record w {
      server = record w.server { client_num = dec w.server.client_num };
      sock_vec = erase p w.sock_vec;
    }

-- What a scanning thread finds outside: the other servers, the files, and the time of day.
pub record Outside : Type 0 where
  pub dial : Text → ℤ → Dial
  pub sends : ℤ → Bool
  pub ask : ℤ → Text → Option Text
  pub opened : Bool
  pub file : Option Text
  pub curr_time : ℕ
  pub timer : ℕ

-- A scanning thread; `none` is the end of the server, or a struct that is freed already.
unfoldable pub scan : Outside → ℕ → Text → World → Option World
scan o p line w = do
  c ← lookup p w.sock_vec
  r ←
      scan_and_send o.dial o.sends o.ask (Files.save o.opened) (Files.read o.file) o.curr_time
        o.timer w.server c.ss line
  some (record w { server = r.server; sock_vec = put p (record c { ss = r.socket }) w.sock_vec })

-- What `auto_save` writes every two minutes, if the file can be opened.
pub auto_save : Bool → World → Option Text
auto_save opened w = Files.saved_file opened w.server.server_hash

-- What can happen next. The threads share the state with no mutex; here each step, a turn or a scan,
-- runs to its end before another starts. The loop of `main` accepts, a client's loop makes a turn, a scanning thread
-- runs, or `auto_save` writes the file, which changes nothing here.
pub data Step : World → World → Type 0 where
  accepts :
      (fd : Option ℕ) (w : World) → over_client w.server ≡ false → Step w (server_accept fd w).0
  turns :
      (p : ℕ) (c : Connection) (got : Option Text) (w : World)
      → lookup p w.sock_vec ≡ some c
      → c.is_running ≡ true
      → Step w (server_task p c got w)
  scans :
      (o : Outside) (before after : List (ℕ × Text)) (p : ℕ) (line : Text) (w w' : World)
      → w.scans ≡ before ++ (p, line) ∷ after
      → scan o p line (record w { scans = before ++ after }) ≡ some w'
      → Step w w'
  saves : (opened : Bool) (file : Option Text) (w : World) → auto_save opened w ≡ file → Step w w

pub data Reach (port : ℕ) : World → Type 0 where
  starts : Reach port (start port)
  more : (w w' : World) → Reach port w → Step w w' → Reach port w'
