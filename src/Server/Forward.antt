-- ===== src/Server/Forward.antt =====
-- A line that a server passes on to another one, with the level of the client behind it.
use mathlib.Core.List.{append_assoc, append-nil}
use muse_kv.Prelude.{
  ℕ, suc, ◌+◌, ◌≡◌, refl, sym, ap, ◌∙◌, Bool, Option, some, List, [], ◌∷◌, ◌++◌, arith, length,
  length-append, take, drop,
}
use muse_kv.Prelude.Int.{ℤ, pos}
use muse_kv.Text.{Text, space, count, find, split, trim}
use muse_kv.Text.Atoi.{atoi, atoi-space, atoi-to_string, to_string-ne-nil}
use muse_kv.Text.Number.{to_string, to_string_ℕ}
use muse_kv.Text.Split.{Free}
use muse_kv.Text.Words.{words, words-append, words-nil, words-Free, split-trim}
use muse_kv.Hash.{Hash}
use muse_kv.Encrypt.Strings.{to_string-Free}
use muse_kv.Snapshot.{to_uint8}
use muse_kv.Command.{Command, Outcome}
use muse_kv.Command.Dispatch.{kind_of, command_type, execute}
use muse_kv.Server.{Server, Socket, Dial}
use muse_kv.Server.Scan.{bsp_char, auth_ch, received, received_at, scan_outcome, scan_and_send}

find-Free :
    (token : ℕ) (x rest : Text) → Free token x → find token (x ++ token ∷ rest) ≡ some (length x)
unfolding find count
find-Free token [] rest f = ground arith
find-Free token (c ∷ x) rest f = ground (arith, find-Free token x rest)

take-length : (x rest : Text) → take (length x) (x ++ rest) ≡ x
take-length [] rest = refl
take-length (c ∷ x) rest = ap (λ (t : Text). c ∷ t) (take-length x rest)

drop-length : (x rest : Text) (c : ℕ) → drop (suc (length x)) (x ++ c ∷ rest) ≡ rest
drop-length [] rest c = refl
drop-length (d ∷ x) rest c = drop-length x rest c

pub Free-append : (token : ℕ) (x y : Text) → Free token x → Free token y → Free token (x ++ y)
unfolding count
Free-append token [] y f g = g
Free-append token (c ∷ x) y f g = ground (arith, Free-append token x y)

level-auth_ch : (a : ℕ) → atoi (space ∷ to_string (pos a)) ≡ pos a
level-auth_ch a =
    atoi-space (to_string (pos a))
    ∙ unfold to_string in (ap atoi (sym (append-nil (to_string_ℕ a))) ∙ atoi-to_string a [] tt)

received_at-some :
    (x rest line : Text) (other : ℤ) (o : Option ℕ)
    → line ≡ x ++ bsp_char ∷ rest
    → o ≡ some (length x)
    → received_at o line other ≡ (x, atoi rest)
received_at-some x rest line other o e q =
    rw (q, e, take-length x (bsp_char ∷ rest), drop-length x rest bsp_char) refl

-- The line and the level that the other server reads.
pub received-auth_ch :
    (line : Text) (a : ℕ) (other : ℤ)
    → Free bsp_char line
    → received (line ++ auth_ch (pos a)) other ≡ (line ++ space ∷ [], pos a)
unfolding received
received-auth_ch line a other f =
    let x = line ++ space ∷ [] in
    let cut : line ++ auth_ch (pos a) ≡ x ++ bsp_char ∷ space ∷ to_string (pos a) =
      sym (append_assoc line (space ∷ []) (bsp_char ∷ space ∷ to_string (pos a))) in
    let free : Free bsp_char x = Free-append bsp_char line (space ∷ []) f (unfold count in refl) in
    received_at-some x (space ∷ to_string (pos a)) (line ++ auth_ch (pos a)) other _ cut
      (ap (find bsp_char) cut ∙ find-Free bsp_char x (space ∷ to_string (pos a)) free)
    ∙ ap (λ (z : ℤ). (x, z)) (level-auth_ch a)

words-space : (line : Text) → words (line ++ space ∷ []) ≡ words line
words-space line =
    words-append line []
    ∙ ap (λ (ws : List Text). words line ++ ws) words-nil
    ∙ append-nil (words line)

word_pair :
    (a : ℕ)
    → words (bsp_char ∷ []) ++ words (to_string (pos a)) ≡ (bsp_char ∷ []) ∷ to_string_ℕ a ∷ []
unfolding to_string
word_pair a =
    let sign = words-Free (bsp_char ∷ []) (unfold count in refl) (λ q. cc) in
    let level =
      words-Free (to_string_ℕ a) (to_string-Free space a (λ d h q. omega arith))
        (to_string-ne-nil a) in
    rw (sign, level) refl

words-auth_ch :
    (line : Text) (a : ℕ)
    → words (line ++ auth_ch (pos a)) ≡ words line ++ (bsp_char ∷ []) ∷ to_string_ℕ a ∷ []
words-auth_ch line a =
    words-append line (bsp_char ∷ space ∷ to_string (pos a))
    ∙ ap (λ (ws : List Text). words line ++ ws)
        (words-append (bsp_char ∷ []) (to_string (pos a)) ∙ word_pair a)

-- If a line has the given words, then `command_type` takes the line with a level of at least 0
-- behind it, as another server sends it, for one with two words more.
pub command_type-auth_ch :
    (line verb : Text) (rest : List Text) (a : ℕ)
    → words line ≡ verb ∷ rest
    → command_type (line ++ auth_ch (pos a)) ≡ kind_of verb (length (verb ∷ rest) + 2)
unfolding command_type
command_type-auth_ch line verb rest a e =
    let more = (bsp_char ∷ []) ∷ to_string_ℕ a ∷ [] in
    let found : split (trim (line ++ auth_ch (pos a))) space ≡ verb ∷ (rest ++ more) =
      split-trim (line ++ auth_ch (pos a))
      ∙ words-auth_ch line a
      ∙ ap (λ (ws : List Text). ws ++ more) e in
    rw (found, command_type) (ap (kind_of verb) (omega (arith, length-append rest more)))

module _ (dial : Text → ℤ → Dial) (sends : ℤ → Bool) (ask : ℤ → Text → Option Text)
    (save : Command → Hash → Outcome) (read : Command → Hash → Outcome) (curr_time timer : ℕ) where
  execute-words :
      (a b : Text) (auth : ℕ) (h : Hash)
      → words a ≡ words b
      → execute save read curr_time timer a auth h ≡ execute save read curr_time timer b auth h
  unfolding execute
  execute-words a b auth h e = rw (split-trim a, split-trim b, e) refl

  -- A line without a backspace that another server sends, with a level of at least 0 behind it, is
  -- executed as the line itself with that level, whatever the level of the connection that it
  -- arrives on.
  pub scan_and_send-auth_ch :
      (s : Server) (ss : Socket) (line : Text) (a : ℕ)
      → Free bsp_char line
      → scan_and_send dial sends ask save read curr_time timer s ss (line ++ auth_ch (pos a))
        ≡ scan_outcome dial sends ask s ss
            (command_type (line ++ auth_ch (pos a)))
            (line ++ space ∷ [], pos a)
            (execute save read curr_time timer line (to_uint8 (pos a)) s.server_hash)
  unfolding scan_and_send
  scan_and_send-auth_ch s ss line a f =
      rw
        (
          received-auth_ch line a ss.auth f,
          execute-words (line ++ space ∷ []) line (to_uint8 (pos a)) s.server_hash
              (words-space line),
        )
        refl
