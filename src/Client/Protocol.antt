-- ===== src/Client/Protocol.antt =====
-- A client that starts learns the replicas of the server, which takes over its level.
use muse_kv.Prelude.{
  ℕ, zero, suc, ◌+◌, ◌-◌, ◌<◌, ◌≡◌, ◌≢◌, refl, ap, ◌∙◌, Bool, false, Option, none, some, List, [],
  ◌∷◌, ◌++◌, ◌>>=◌, arith, ltb, length, get_elem?,
}
use muse_kv.Prelude.Int.{ℤ, pos}
use muse_kv.Text.{Text, space, count}
use muse_kv.Text.Atoi.{atoi}
use muse_kv.Text.Number.{to_string, to_string_ℕ}
use muse_kv.Text.Split.{Free}
use muse_kv.Text.Words.{words, words-append, words-Free}
use muse_kv.Hash.{Hash}
use muse_kv.Encrypt.Strings.{to_string-Free}
use muse_kv.Command.{Command, Outcome}
use muse_kv.Command.Dispatch.{codes, is_magic}
use muse_kv.Server.{Server, Socket, Dial, authority_init, give_replica_info}
use muse_kv.Server.Scan.{bsp_char, Scanned, scan_result, scan_and_send}
use muse_kv.Server.Forward.{Free-append}
use muse_kv.Server.Link.{number_words, word_at-words, atoi-end}
use muse_kv.Server.Take.{scan_and_send-magic}
use muse_kv.Client.{give_loop, with_replicas, get_replica_info}

number_line :
    (verb : Text) (a : ℕ)
    → Free space verb
    → verb ≢ []
    → words (verb ++ space ∷ to_string (pos a)) ≡ verb ∷ to_string_ℕ a ∷ []
number_line verb a f ne =
    words-append verb (to_string (pos a)) ∙ rw (words-Free verb f ne, number_words a) refl

number_line-Free :
    (verb : Text) (a : ℕ) → Free bsp_char verb → Free bsp_char (verb ++ space ∷ to_string (pos a))
unfolding to_string
number_line-Free verb a f =
    Free-append bsp_char verb (space ∷ to_string_ℕ a) f
      (unfold count in ground (arith, to_string-Free bsp_char a (λ d h q. omega arith)))

-- the entries of the replicas from `i` on
pub addresses : (ℕ → Text) → (ℕ → Text) → ℕ → ℕ → List (Text × ℤ)
addresses ips ports zero i = []
addresses ips ports (suc left) i = (ips i, atoi (ports i)) ∷ addresses ips ports left (i + 1)

module _ (dial : Text → ℤ → Dial) (sends : ℤ → Bool) (ask : ℤ → Text → Option Text)
    (save : Command → Hash → Outcome) (read : Command → Hash → Outcome) (curr_time timer : ℕ) where
  -- What the client receives, if the server answers, and the server and its socket then.
  answered : Option Scanned → Option (Text × (Server × Socket))
  answered none = none
  answered (some scanned) = scanned.answer >>= λ text. some (text, (scanned.server, scanned.socket))

  pub exchange : Server × Socket → Text → Option (Text × (Server × Socket))
  unfolding answered
  exchange (s, ss) line =
      answered (scan_and_send dial sends ask save read curr_time timer s ss line)

  exchange-give :
      (s : Server) (ss : Socket) (i : ℕ) (line : Text)
      → get_elem? s.replica_com i ≡ some line
      → exchange (s, ss) (codes "give " ++ to_string_ℕ i) ≡ some (line, (s, ss))
  unfolding exchange answered give_replica_info to_string scan_result
  exchange-give s ss i line e =
      let words' = number_line (codes "give") i (unfold count in refl) (λ q. cc) in
      let scanned =
        scan_and_send-magic dial sends ask save read curr_time timer s ss
          (codes "give" ++ space ∷ to_string (pos i)) (codes "give") _
          (number_line-Free (codes "give") i (unfold count in refl)) words'
          (unfold is_magic in refl) in
      let index = word_at-words (codes "give" ++ space ∷ to_string (pos i)) 1 _ words' in
      rw (scanned, index, atoi-end i, e) refl

  client_line-long : (a : ℕ) → ltb (length (codes "client" ++ space ∷ to_string (pos a))) 7 ≡ false
  client_line-long a = ground arith

  -- The answer to the first message is the number of replicas, and the socket has the level.
  exchange-client :
      (s : Server) (ss : Socket) (a : ℕ)
      → exchange (s, ss) (codes "client " ++ to_string (pos a))
        ≡ some (to_string s.replica_num, (s, record ss { auth = pos a }))
  unfolding exchange answered authority_init to_string scan_result
  exchange-client s ss a =
      let words' = number_line (codes "client") a (unfold count in refl) (λ q. cc) in
      let scanned =
        scan_and_send-magic dial sends ask save read curr_time timer s ss
          (codes "client" ++ space ∷ to_string (pos a)) (codes "client") _
          (number_line-Free (codes "client") a (unfold count in refl)) words'
          (unfold is_magic in refl) in
      rw (scanned, client_line-long a, atoi-end a) refl

  module _ (s : Server) (n : ℕ) (lines ips ports : ℕ → Text)
      (stored : (i : ℕ) → i < n → get_elem? s.replica_com i ≡ some (lines i))
      (named : (i : ℕ) → i < n → words (lines i) ≡ codes "replica" ∷ ips i ∷ ports i ∷ []) where
    give_loop-addresses :
        (left i : ℕ) (ss : Socket)
        → i + left ≡ n
        → give_loop exchange left i (s, ss) ≡ some (addresses ips ports left i, (s, ss))
    unfolding give_loop addresses
    give_loop-addresses zero i ss e = refl
    give_loop-addresses (suc left) i ss e =
        let at = λ (j : ℕ). word_at-words (lines i) j _ (named i (omega (arith, e))) in
        rw
          (
            exchange-give s ss i (lines i) (stored i (omega (arith, e))),
            at 1,
            at 2,
            give_loop-addresses left (i + 1) ss (omega (arith, e)),
          )
          refl

    -- A client of level `a`, at least 0, that asks a server with `n + 1` replicas, which holds the
    -- `n` lines of the others, each the word `replica`, an address and a port, learns the address
    -- that it was given and those of the others in order; the server is as before and has the
    -- level of the client.
    pub get_replica_info-exchange :
        (ss : Socket) (a : ℕ) (ip : Text) (p : ℤ)
        → s.replica_num ≡ pos (suc n)
        → get_replica_info exchange (pos a) ip p (s, ss)
          ≡ some ((ip, p) ∷ addresses ips ports n 0, (s, record ss { auth = pos a }))
    unfolding get_replica_info with_replicas
    get_replica_info-exchange ss a ip p e =
        let first =
          exchange-client s ss a
          ∙ ap (λ (z : ℤ). some (to_string z, (s, record ss { auth = pos a }))) e in
        let count = word_at-words (to_string (pos (suc n))) 0 _ (number_words (suc n)) in
        let loop = give_loop-addresses n 0 (record ss { auth = pos a }) (omega arith) in
        let less : suc n - 1 ≡ n = omega arith in
        rw (first, count, atoi-end (suc n), less, loop) refl
