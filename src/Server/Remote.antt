-- ===== src/Server/Remote.antt =====
-- A key of another server, for `scan_and_send` of src/server_th.cpp: the server that the client is
-- connected to, and the one whose slot it is.
use muse_kv.Prelude.{
  ℕ, ◌≡◌, refl, sym, ap, ◌∙◌, Bool, true, false, ◌||◌, Option, some, List, [], ◌∷◌, ◌++◌, ◌>>=◌,
  arith, ltb, length,
}
use muse_kv.Prelude.Int.{ℤ, pos, ltb_ℤ}
use muse_kv.Text.{Text, space, split, trim}
use muse_kv.Text.Atoi.{atoi, atoi-to_string}
use mathlib.Core.List.{append-nil}
use muse_kv.Text.Number.{to_string_ℕ}
use muse_kv.Text.Split.{Free}
use muse_kv.Text.Words.{words, split-trim}
use muse_kv.Hash
use muse_kv.Hash.{Hash}
use muse_kv.Snapshot.{to_uint8}
use muse_kv.Command.{Command, Reply, Outcome, reply, redirect}
use muse_kv.Command.Files.{render}
use muse_kv.Command.Dispatch.{codes, command_type, is_magic, execute}
use muse_kv.Server.{Server, Socket, Dial}
use muse_kv.Server.Scan.{
  bsp_char, auth_ch, Scanned, contains, mine, relay, forward, target, scan_result, scan_outcome,
  scan_and_send,
}
use muse_kv.Server.Take.{received-Free}
use muse_kv.Server.Forward.{scan_and_send-auth_ch}
use muse_kv.Server.Channel.{is_own, scan_result-mine}

-- The slot is out of the range of the table.
abbrev pub IsOutside : ℕ → Hash → Type 0
IsOutside slot h = (ltb_ℤ (pos slot) h.start_num || ltb_ℤ h.end_num (pos slot)) ≡ true

-- the line with the level of the client, as the server sends it on
abbrev pub passed_on : Text → ℕ → Text
passed_on line a = line ++ auth_ch (pos a)

-- What a server leaves that sends the line on along `fd` and answers with `answer`.
abbrev pub relayed : Server → Socket → ℤ → Text → Text → Scanned
relayed s ss fd line answer = record {
  server = s;
  socket = ss;
  answer = some answer;
  log = [];
  sent = (fd, line) ∷ [];
}

module _ (save read : Command → Hash → Outcome) (t timer : ℕ) where
  execute-redirect :
      (line verb key : Text) (rest : List Text) (auth : ℕ) (h : Hash)
      → words line ≡ verb ∷ key ∷ rest
      → is_magic verb ≡ false
      → IsOutside (Hash.hash_func key h) h
      → execute save read t timer line auth h ≡ reply (redirect (Hash.hash_func key h)) h
  unfolding execute
  execute-redirect line verb key rest auth h e m o =
      let found : split (trim line) space ≡ verb ∷ key ∷ rest = split-trim line ∙ e in
      let many : ltb 1 (length (verb ∷ key ∷ rest)) ≡ true = ground arith in
      rw (found, execute) (rw (m, o, many) refl)

  module _ (dial : Text → ℤ → Dial) (sends : ℤ → Bool) where
    module _ (ask : ℤ → Text → Option Text) where
      relay-some :
          (s : Server) (fd : ℤ) (line com_result buf : Text)
          → ask fd line ≡ some buf
          → relay ask s fd line com_result ≡ buf
      unfolding relay
      relay-some s fd line com_result buf e = rw (e, relay) refl

      -- a redirection is sent on
      forward-redirect :
          (s : Server) (ss : Socket) (line : Text) (slot a : ℕ) (fd : ℤ) (buf : Text)
          → ss.auth ≡ pos a
          → target s (pos slot) ≡ some fd
          → ask fd (passed_on line a) ≡ some buf
          → forward ask s ss line (codes "hashval " ++ to_string_ℕ slot)
            ≡ some (relayed s ss fd (passed_on line a) buf)
      unfolding forward
      forward-redirect s ss line slot a fd buf l g e =
          let long : ltb (length (codes "hashval " ++ to_string_ℕ slot)) 8 ≡ false = ground arith in
          let number : atoi (to_string_ℕ slot) ≡ pos slot =
            ap atoi (sym (append-nil (to_string_ℕ slot))) ∙ atoi-to_string slot [] tt in
          rw
            (
              long,
              number,
              g,
              l,
              relay-some s fd (passed_on line a) (codes "hashval " ++ to_string_ℕ slot) buf e,
            )
            refl

      -- no test before that of the redirection holds for one
      scan_result-redirect :
          (s : Server) (ss : Socket) (line : Text) (slot : ℕ)
          → scan_result dial sends ask s ss
              (command_type line)
              line
              ss.auth
              (render (redirect slot))
            ≡ forward ask s ss line (codes "hashval " ++ to_string_ℕ slot)
      unfolding scan_result contains forward render
      scan_result-redirect s ss line slot = refl

      scan_and_send-redirect :
          (s : Server) (ss : Socket) (line verb key : Text) (rest : List Text) (a : ℕ) (fd : ℤ)
          (buf : Text)
          → Free bsp_char line
          → words line ≡ verb ∷ key ∷ rest
          → is_magic verb ≡ false
          → ss.auth ≡ pos a
          → IsOutside (Hash.hash_func key s.server_hash) s.server_hash
          → target s (pos (Hash.hash_func key s.server_hash)) ≡ some fd
          → ask fd (passed_on line a) ≡ some buf
          → scan_and_send dial sends ask save read t timer s ss line
            ≡ some (relayed s ss fd (passed_on line a) buf)
      unfolding scan_and_send scan_outcome
      scan_and_send-redirect s ss line verb key rest a fd buf f e m l o g k =
          let slot = Hash.hash_func key s.server_hash in
          rw
            (
              received-Free line ss.auth f,
              execute-redirect line verb key rest (to_uint8 ss.auth) s.server_hash e m o,
            )
            (scan_result-redirect s ss line slot ∙ forward-redirect s ss line slot a fd buf l g k)

    module _ (ask : ℤ → Text → Option Text) where
      -- what the server sends back, if it does not end
      abbrev pub answer_to : Server → Socket → Text → Option Text
      answer_to s ss line =
          scan_and_send dial sends ask save read t timer s ss line >>= λ r. r.answer

      answer_to-passed_on :
          (s : Server) (ss : Socket) (line : Text) (a : ℕ) (r : Reply) (h : Hash)
          → Free bsp_char line
          → execute save read t timer line (to_uint8 (pos a)) s.server_hash ≡ some (r, h)
          → is_own (render r) ≡ true
          → answer_to s ss (passed_on line a) ≡ some (render r)
      unfolding scan_outcome mine
      answer_to-passed_on s ss line a r h f e own =
          rw
            (
              scan_and_send-auth_ch dial sends ask save read t timer s ss line a f,
              e,
              scan_result-mine dial sends ask (record s { server_hash = h }) ss
                  (command_type (passed_on line a)) (line ++ space ∷ []) (pos a) (render r) own,
            )
            refl

    -- A client of a level of at least 0 sends a line without a backspace whose first word is no verb
    -- of the servers and whose second word is a key with a slot out of the range of its server. If
    -- the server has a connection for the slot, and the answer that comes back along it is that of
    -- the server at its other end, which executes the line with the level of the client and has an
    -- answer that it sends as it is, then the client gets that answer. Its own server sends only the
    -- line with the level, keeps its table, and writes nothing to its log.
    pub scan_and_send-remote :
        (ask : ℤ → Text → Option Text) (near : Server) (ss : Socket)
        (far_ask : ℤ → Text → Option Text) (far : Server) (far_ss : Socket) (line verb key : Text)
        (rest : List Text) (a : ℕ) (fd : ℤ) (r : Reply) (h : Hash)
        → Free bsp_char line
        → words line ≡ verb ∷ key ∷ rest
        → is_magic verb ≡ false
        → ss.auth ≡ pos a
        → IsOutside (Hash.hash_func key near.server_hash) near.server_hash
        → target near (pos (Hash.hash_func key near.server_hash)) ≡ some fd
        → ((sent : Text) → ask fd sent ≡ answer_to far_ask far far_ss sent)
        → execute save read t timer line (to_uint8 (pos a)) far.server_hash ≡ some (r, h)
        → is_own (render r) ≡ true
        → scan_and_send dial sends ask save read t timer near ss line
          ≡ some (relayed near ss fd (passed_on line a) (render r))
    scan_and_send-remote ask near ss far_ask far far_ss line verb key rest a fd r h f e m l o g net
          x own =
        scan_and_send-redirect ask near ss line verb key rest a fd (render r) f e m l o g
          (net (passed_on line a) ∙ answer_to-passed_on far_ask far far_ss line a r h f x own)
