-- ===== src/Server/Channel.antt =====
-- A client that sends one line at a time and waits for the answer, and the server of
-- src/server_th.cpp at the other end.
use muse_kv.Prelude.{
  ℕ, zero, suc, ◌<◌, ◌≤◌, ◌≡◌, ◌≢◌, refl, sym, ap, ◌∙◌, subst, Bool, true, false, not, ◌||◌, Option,
  none, some, List, [], ◌∷◌, ◌++◌, arith, leb, length, take, drop, if◌then◌else◌, All, bind-some,
  some-pair, map,
}
use Prim.Native.String.{String}
use muse_kv.Prelude.Int.{ℤ}
use muse_kv.Text.{Text}
use muse_kv.Text.Equal.{◌===◌}
use muse_kv.Text.Split.{Free}
use muse_kv.Encrypt.{c_string}
use muse_kv.Hash.{Hash}
use muse_kv.Snapshot.{to_uint8}
use muse_kv.Command.{Command, Reply, Outcome}
use muse_kv.Command.Files.{render}
use muse_kv.Command.Dispatch.{Kind, codes, command_type, execute}
use muse_kv.Command.Refines.Session.{Request, Cells, is_local, play, play_all}
use muse_kv.Command.Refines.Served.{Shows, Serves, line_serves}
use muse_kv.Server.{Server, Socket, Dial}
use muse_kv.Server.Scan.{
  bsp_char, magic, contains, Scanned, mine, scan_result, scan_outcome, scan_and_send,
}
use muse_kv.Server.Take.{received-Free}

-- The server with the socket of the client, unless it has ended or has closed the connection, and
-- the bytes that it has sent and the client has not taken.
abbrev pub Channel : Type 0
Channel = Option (Server × Socket) × Text

-- the size of `buf`, at both ends
abbrev pub buf_len : ℕ
buf_len = 1024

abbrev pub says : Text → String → Bool
says com_result verb = com_result === magic (codes verb)

-- The server takes the answer of `execute` for nothing but an answer.
unfoldable pub is_own : Text → Bool
is_own answer = not (
    says answer "client"
    || says answer "give"
    || says answer "clust"
    || says answer "myinfo"
    || says answer "replicanumber"
    || says answer "replica"
    || says answer "replicaaccept"
    || contains (codes "hashval") answer)

module _ (dial : Text → ℤ → Dial) (sends : ℤ → Bool) (ask : ℤ → Text → Option Text) where
  pub scan_result-mine :
      (s : Server) (ss : Socket) (val : Kind) (line : Text) (level : ℤ) (answer : Text)
      → is_own answer ≡ true
      → scan_result dial sends ask s ss val line level answer
        ≡ some (mine s ss val line level answer)
  unfolding is_own scan_result
  scan_result-mine s ss val line level answer e = ground (arith, e)

  module _ (save read : Command → Hash → Outcome) (t timer : ℕ) where
    abbrev pub sent_back : Option Text → Text
    sent_back none = []
    sent_back (some answer) = answer

    scanned : Text → Option Scanned → Channel
    scanned pending none = (none, pending)
    scanned pending (some r) = (some (r.server, r.socket), pending ++ sent_back r.answer)

    -- What a turn of `server_task` and the thread that it starts make of a line. Nothing is sent of
    -- an empty one, and "quit" closes the connection. A line that fills the buffer, which the
    -- server takes for several, ends the run of the model.
    deliver : Text → Text → Server × Socket → Channel
    deliver line pending (s, ss) =
        if line === []
        then (some (s, ss), pending)
        else if leb buf_len (length line)
        then (none, pending)
        else if c_string line === codes "quit"
        then (none, pending)
        else scanned pending (scan_and_send dial sends ask save read t timer s ss (c_string line))

    unfoldable pub send : Channel → Text → Bool × Channel
    unfolding scanned deliver
    send (none, pending) line = (true, (none, pending))
    send (some w, pending) line = (true, deliver line pending w)

    -- As many bytes as the buffer holds. Where there are none, `recv` fails on a closed connection,
    -- and waits forever on another: `none`.
    unfoldable pub recv : Channel → Option (Option Text × Channel)
    recv (none, []) = some (none, (none, []))
    recv (some w, []) = none
    recv (w, c ∷ pending) =
        some (some (take buf_len (c ∷ pending)), (w, drop buf_len (c ∷ pending)))

    take_all : (n : ℕ) (x : Text) → length x ≤ n → take n x ≡ x
    take_all zero [] b = refl
    take_all (suc n) [] b = refl
    take_all zero (c ∷ x) b = absurd (omega (arith, b))
    take_all (suc n) (c ∷ x) b = ap (λ (y : Text). c ∷ y) (take_all n x (omega (arith, b)))

    drop_all : (n : ℕ) (x : Text) → length x ≤ n → drop n x ≡ []
    drop_all zero [] b = refl
    drop_all (suc n) [] b = refl
    drop_all zero (c ∷ x) b = absurd (omega (arith, b))
    drop_all (suc n) (c ∷ x) b = drop_all n x (omega (arith, b))

    -- The client gets an answer that is not empty and that its buffer holds in one piece.
    pub recv-whole :
        (w : Option (Server × Socket)) (answer : Text)
        → answer ≢ []
        → length answer ≤ buf_len
        → recv (w, answer) ≡ some (some answer, (w, []))
    unfolding recv
    recv-whole w [] ne b = absurd (ne refl)
    recv-whole w (c ∷ answer) ne b =
        rw (take_all buf_len (c ∷ answer) b, drop_all buf_len (c ∷ answer) b) refl

    -- The server takes the reply for nothing but an answer, and the client gets it in one piece, with
    -- a zero byte of its buffer behind it.
    pub record IsHeard (r : Reply) : Type 0 where
      pub own : is_own (render r) ≡ true
      pub some_text : render r ≢ []
      pub short : length (render r) < buf_len

    -- the line as a request of the client
    abbrev pub request : Socket → Text → Request
    request ss line = record { line = line; auth = to_uint8 ss.auth; curr_time = t; timer = timer }

    module _ (slot : Text → ℕ) (first last : ℤ) where
      -- What the server sends back for a line that promises `r` and the cells `m`.
      pub record Sent (s : Server) (ss : Socket) (line : Text) (r : Reply) (m : Cells)
          : Type 0 where
        pub after : Server
        pub sends_it : send (some (s, ss), []) line ≡ (true, (some (after, ss), render r))
        pub shows : Shows slot first last after.server_hash m

      -- The line is one that a session can have: with no backspace and no zero byte, not empty, not
      -- "quit", short enough for the buffer, and not one of keys, save and read.
      pub record IsSent (ss : Socket) (line : Text) : Type 0 where
        pub free : Free bsp_char line
        pub local : is_local (request ss line) ≡ true
        pub text : c_string line ≡ line
        pub some_text : (line === []) ≡ false
        pub short : leb buf_len (length line) ≡ false
        pub stays : (line === codes "quit") ≡ false

      pub send-Sent :
          (s : Server) (ss : Socket) (line : Text) (m : Cells)
          → IsSent ss line
          → (one : Serves slot first last
              (execute save read t timer line (to_uint8 ss.auth) s.server_hash)
              (play slot first last (request ss line) m))
          → is_own (render one.says) ≡ true
          → Sent s ss line one.says one.m
      unfolding send scan_and_send scan_outcome deliver scanned mine
      send-Sent s ss line m k one own = record {
        after = record s { server_hash = one.h };
        sends_it =
            rw
              (
                k.some_text,
                k.short,
                k.text,
                k.stays,
                received-Free line ss.auth k.free,
                one.runs,
                scan_result-mine (record s { server_hash = one.h }) ss (command_type line) line
                    ss.auth (render one.says) own,
              )
              refl;
        shows = one.shows;
      }

      -- A line that the client may send, and those behind it: what the server answers to the first,
      -- and what is left for the others.
      pub record Answered (s : Server) (ss : Socket) (line : Text) (lines : List Text)
          (rs : List Reply) (m' : Cells) : Type 0 where
        pub says : Reply
        pub cells : Cells
        pub others : List Reply
        pub same : rs ≡ says ∷ others
        pub sent : Sent s ss line says cells
        pub plays : play_all slot first last (map (request ss) lines) cells ≡ some (others, m')
        pub heard : IsHeard says
        pub hears : All IsHeard others

      pub send-Answered :
          (s : Server) (ss : Socket) (line : Text) (lines : List Text) (m : Cells) (rs : List Reply)
          (m' : Cells)
          → IsSent ss line
          → Shows slot first last s.server_hash m
          → play_all slot first last (map (request ss) (line ∷ lines)) m ≡ some (rs, m')
          → All IsHeard rs
          → Answered s ss line lines rs m'
      unfolding play_all
      send-Answered s ss line lines m rs m' k sh e own =
          let (p, g0, x0) = bind-some (play slot first last (request ss line) m) _ (rs, m') e in
          let one =
            line_serves slot first last save read (request ss line) s.server_hash m p k.local sh
              g0 in
          let ((rs2, m2), g, x) =
            bind-some (play_all slot first last (map (request ss) lines) one.m) _ (rs, m')
              (rw one.plays at e) in
          let (same, end) = some-pair (one.says ∷ rs2) rs m2 m' x in
          let hears = subst (All IsHeard) (sym same) own in
          record {
            says = one.says;
            cells = one.m;
            others = rs2;
            same = sym same;
            sent = send-Sent s ss line m k one hears.0.own;
            plays = g ∙ ap (λ (n : Cells). some (rs2, n)) end;
            heard = hears.0;
            hears = hears.1;
          }
