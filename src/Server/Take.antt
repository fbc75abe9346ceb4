-- ===== src/Server/Take.antt =====
-- `scan_and_send` hands the two lines of a cluster to `cluster_connect` and `hash_reset`.
use muse_kv.Prelude.{ℕ, ◌≡◌, refl, ◌∙◌, Bool, true, Option, none, List, [], ◌∷◌, ◌++◌, arith}
use muse_kv.Prelude.Int.{ℤ, pos}
use muse_kv.Text.{Text, space, count, find, split, trim}
use muse_kv.Text.Number.{to_string, to_string_ℕ}
use muse_kv.Text.Split.{Free}
use muse_kv.Text.Words.{words, split-trim}
use muse_kv.Hash.{Hash}
use muse_kv.Encrypt.Strings.{to_string-Free}
use muse_kv.Cluster.{range_line}
use muse_kv.Command
use muse_kv.Command.{Command, Outcome, reply}
use muse_kv.Command.Dispatch.{codes, command_type, execute, is_magic}
use muse_kv.Command.Files.{render}
use muse_kv.Server.{Server, Socket, Dial, cluster_connect, hash_reset}
use muse_kv.Server.Scan.{
  bsp_char, magic, received, then_answer, scan_result, scan_outcome, scan_and_send,
}
use muse_kv.Server.Forward.{Free-append}
use muse_kv.Server.Link.{clust_words, myinfo_words}

find-none : (token : ℕ) (x : Text) → Free token x → find token x ≡ none
unfolding find count
find-none token [] f = refl
find-none token (c ∷ x) f = ground (arith, find-none token x)

tail-Free :
    (start end : ℕ) (lr : Text)
    → Free bsp_char lr
    → Free bsp_char (lr ++ (space ∷ to_string (pos start) ++ (space ∷ to_string (pos end))))
unfolding to_string
tail-Free start end lr f = Free-append bsp_char lr _ f (
    Free-append bsp_char (space ∷ to_string_ℕ start) (space ∷ to_string_ℕ end) (number start)
      (number end))
  where
    number : (a : ℕ) → Free bsp_char (space ∷ to_string_ℕ a)
    number a = unfold count in ground (arith, to_string-Free bsp_char a (λ d h q. omega arith))

clust-Free :
    (start end : ℕ) (lr : Text)
    → Free bsp_char lr
    → Free bsp_char (range_line "clust " lr start (pos end))
unfolding range_line
clust-Free start end lr f =
    Free-append bsp_char (codes "clust ") _ (unfold count in refl) (tail-Free start end lr f)

myinfo-Free :
    (start end : ℕ) (lr : Text)
    → Free bsp_char lr
    → Free bsp_char (range_line "myinfo " lr start (pos end))
unfolding range_line
myinfo-Free start end lr f =
    Free-append bsp_char (codes "myinfo ") _ (unfold count in refl) (tail-Free start end lr f)

pub received-Free :
    (line : Text) (auth : ℤ) → Free bsp_char line → received line auth ≡ (line, auth)
unfolding received
received-Free line auth f = rw (find-none bsp_char line f) refl

module _ (dial : Text → ℤ → Dial) (sends : ℤ → Bool) (ask : ℤ → Text → Option Text)
    (save : Command → Hash → Outcome) (read : Command → Hash → Outcome) (curr_time timer : ℕ)
    (s : Server) (ss : Socket) where
  execute-magic :
      (line verb : Text) (rest : List Text) (auth : ℕ)
      → words line ≡ verb ∷ rest
      → is_magic verb ≡ true
      → execute save read curr_time timer line auth s.server_hash
        ≡ reply (Command.magic verb) s.server_hash
  unfolding execute
  execute-magic line verb rest auth e m =
      let found : split (trim line) space ≡ verb ∷ rest = split-trim line ∙ e in
      rw (found, execute) (rw m refl)

  pub scan_and_send-magic :
      (line verb : Text) (rest : List Text)
      → Free bsp_char line
      → words line ≡ verb ∷ rest
      → is_magic verb ≡ true
      → scan_and_send dial sends ask save read curr_time timer s ss line
        ≡ scan_result dial sends ask s ss (command_type line) line ss.auth (magic verb)
  unfolding scan_and_send scan_outcome
  scan_and_send-magic line verb rest f e m =
      rw (received-Free line ss.auth f, execute-magic line verb rest _ e m) (unfold render in refl)

  pub scan_and_send-clust :
      (lr ip port : Text) (start end : ℕ)
      → Free bsp_char lr
      → words lr ≡ ip ∷ port ∷ []
      → scan_and_send dial sends ask save read curr_time timer s ss
          (range_line "clust " lr start (pos end))
        ≡ then_answer ss
            (magic (codes "clust"))
            (cluster_connect dial (range_line "clust " lr start (pos end)) s)
  scan_and_send-clust lr ip port start end f e =
      scan_and_send-magic _ (codes "clust") _ (clust-Free start end lr f)
        (clust_words start end lr ip port e) (unfold is_magic in refl)
      ∙ unfold scan_result in refl

  pub scan_and_send-myinfo :
      (lr ip port : Text) (start end : ℕ)
      → Free bsp_char lr
      → words lr ≡ ip ∷ port ∷ []
      → scan_and_send dial sends ask save read curr_time timer s ss
          (range_line "myinfo " lr start (pos end))
        ≡ then_answer ss
            (magic (codes "myinfo"))
            (hash_reset (range_line "myinfo " lr start (pos end)) s)
  scan_and_send-myinfo lr ip port start end f e =
      scan_and_send-magic _ (codes "myinfo") _ (myinfo-Free start end lr f)
        (myinfo_words start end lr ip port e) (unfold is_magic in refl)
      ∙ unfold scan_result in refl
