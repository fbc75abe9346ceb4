-- ===== src/Server/Link.antt =====
-- The lines that `cluster` and `distribute` send, as a server takes them up.
use mathlib.Core.List.{append-nil}
use muse_kv.Prelude.{ℕ, ◌≡◌, ◌≢◌, refl, sym, ap, ◌∙◌, some, List, [], ◌∷◌, ◌++◌, arith, get_elem?}
use muse_kv.Prelude.Int.{ℤ, pos}
use muse_kv.Text.{Text, space, count}
use muse_kv.Text.Atoi.{atoi, atoi-to_string, to_string-ne-nil}
use muse_kv.Text.Number.{to_string, to_string_ℕ}
use muse_kv.Text.Split.{Free}
use muse_kv.Text.Words.{words, words-append, words-Free, split-trim}
use muse_kv.Hash
use muse_kv.Encrypt.Strings.{to_string-Free}
use muse_kv.Cluster.{range_line}
use muse_kv.Distribute.{word_at}
use muse_kv.Command.Dispatch.{codes}
use muse_kv.Server.{Server, Dial, connected, joined, linked, cluster_connect, hash_reset}

pub number_words : (a : ℕ) → words (to_string (pos a)) ≡ to_string_ℕ a ∷ []
unfolding to_string
number_words a =
    words-Free (to_string_ℕ a) (to_string-Free space a (λ d h q. omega arith)) (to_string-ne-nil a)

tail_words :
    (start end : ℕ) (lr ip port : Text)
    → words lr ≡ ip ∷ port ∷ []
    → words (lr ++ (space ∷ to_string (pos start) ++ (space ∷ to_string (pos end))))
      ≡ ip ∷ port ∷ to_string_ℕ start ∷ to_string_ℕ end ∷ []
tail_words start end lr ip port e =
    words-append lr (to_string (pos start) ++ (space ∷ to_string (pos end)))
    ∙ rw
        (
          e,
          words-append (to_string (pos start)) (to_string (pos end)),
          number_words start,
          number_words end,
        )
        refl

-- the words of such a line
range_words :
    (verb : Text) (start end : ℕ) (lr ip port : Text)
    → Free space verb
    → verb ≢ []
    → words lr ≡ ip ∷ port ∷ []
    → words
        (verb ++ space ∷ (lr ++ (space ∷ to_string (pos start) ++ (space ∷ to_string (pos end)))))
      ≡ verb ∷ ip ∷ port ∷ to_string_ℕ start ∷ to_string_ℕ end ∷ []
range_words verb start end lr ip port f ne e =
    words-append verb _ ∙ rw (words-Free verb f ne, tail_words start end lr ip port e) refl

pub word_at-words :
    (line : Text) (i : ℕ) (ws : List Text) → words line ≡ ws → word_at line i ≡ get_elem? ws i
word_at-words line i ws e = rw (split-trim line, e) refl

pub atoi-end : (a : ℕ) → atoi (to_string_ℕ a) ≡ pos a
atoi-end a = ap atoi (sym (append-nil (to_string_ℕ a))) ∙ atoi-to_string a [] tt

pub clust_words :
    (start end : ℕ) (lr ip port : Text)
    → words lr ≡ ip ∷ port ∷ []
    → words (range_line "clust " lr start (pos end))
      ≡ codes "clust" ∷ ip ∷ port ∷ to_string_ℕ start ∷ to_string_ℕ end ∷ []
unfolding range_line
clust_words start end lr ip port e =
    range_words (codes "clust") start end lr ip port (unfold count in refl) (λ q. cc) e

pub myinfo_words :
    (start end : ℕ) (lr ip port : Text)
    → words lr ≡ ip ∷ port ∷ []
    → words (range_line "myinfo " lr start (pos end))
      ≡ codes "myinfo" ∷ ip ∷ port ∷ to_string_ℕ start ∷ to_string_ℕ end ∷ []
unfolding range_line
myinfo_words start end lr ip port e =
    range_words (codes "myinfo") start end lr ip port (unfold count in refl) (λ q. cc) e

-- A line for another server adds its connection and its range, if it can be connected to.
pub cluster_connect-range_line :
    (dial : Text → ℤ → Dial) (s : Server) (lr ip port : Text) (start end fd : ℕ)
    → words lr ≡ ip ∷ port ∷ []
    → dial ip (atoi port) ≡ connected fd
    → cluster_connect dial (range_line "clust " lr start (pos end)) s
      ≡ some (linked (pos start) (pos end) (joined (connected fd) s))
unfolding cluster_connect
cluster_connect-range_line dial s lr ip port start end fd e q =
    let w = λ (i : ℕ).
      word_at-words (range_line "clust " lr start (pos end)) i _
        (clust_words start end lr ip port e) in
    rw (w 1, w 2, w 3, w 4, q, atoi-end start, atoi-end end) refl

-- The line for the server itself sets the boundaries of its table.
pub hash_reset-range_line :
    (s : Server) (lr ip port : Text) (start end : ℕ)
    → words lr ≡ ip ∷ port ∷ []
    → hash_reset (range_line "myinfo " lr start (pos end)) s
      ≡ some (record s { server_hash = Hash.set_boundary (pos start) (pos end) s.server_hash })
unfolding hash_reset
hash_reset-range_line s lr ip port start end e =
    let w = λ (i : ℕ).
      word_at-words (range_line "myinfo " lr start (pos end)) i _
        (myinfo_words start end lr ip port e) in
    rw (w 3, w 4, atoi-end start, atoi-end end) refl
