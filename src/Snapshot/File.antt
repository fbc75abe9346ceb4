-- ===== src/Snapshot/File.antt =====
-- The whole file: a read of what `save` wrote restores every key.
use mathlib.Core.List.{append_assoc, append-nil}
use muse_kv.Prelude.{
  ℕ, zero, suc, ◌≡◌, ◌≢◌, refl, sym, ap, ◌∙◌, true, false, Option, some, List, [], ◌∷◌, ◌++◌, map,
  All, All-append, arith,
}
use muse_kv.Prelude.Int.{ℤ, pos}
use muse_kv.Text.{Text}
use muse_kv.Text.Atoi.{is_blank}
use muse_kv.Text.Split.{Free, split-pieces, pieces-append, pieces-cons}
use muse_kv.Text.Number.{strtoint, to_string_ℕ}
use muse_kv.Kv.{Kv}
use muse_kv.Hash.{Hash, Nodes, find_node}
use muse_kv.Hash.Laws.{IsTable}
use muse_kv.Encrypt.{encrypt, encrypt_string, backslash}
use muse_kv.Encrypt.Inverse.{modulus, encrypt_key, password}
use muse_kv.Encrypt.Strings.{
  to_string-All, encrypt_string-ne-nil, append-cons-ne-nil, decrypt_words-cracked,
}
use muse_kv.Snapshot.{
  get_kv_str, save_line, save_chain, save_from, save, newline, flush, words_from, done, damaged,
  read_line, read_lines, read,
}
use muse_kv.Snapshot.Line.{IsSavable, get_kv_str-ne-nil, read_line-save_line}
use muse_kv.Snapshot.Nodes.{
  nodes_from, nodes, restore, restored, restore-find_node, find-nodes, Unique-nodes,
}

save_chain-append : (c d : Nodes) → save_chain (c ++ d) ≡ save_chain c ++ save_chain d
unfolding save_chain
save_chain-append [] d = refl
save_chain-append (n ∷ c) d =
    ap (λ (t : Text). save_line n ++ newline ∷ t) (save_chain-append c d)
    ∙ sym (append_assoc (save_line n) (newline ∷ save_chain c) (save_chain d))

save_from-nodes : (left i : ℕ) (h : Hash) → save_from left i h ≡ save_chain (nodes_from left i h)
unfolding save_from nodes_from
save_from-nodes zero i h = unfold save_chain in refl
save_from-nodes (suc left) i h =
    ap (λ (t : Text). save_chain (h.h i) ++ t) (save_from-nodes left (suc i) h)
    ∙ sym (save_chain-append (h.h i) (nodes_from left (suc i) h))

abbrev NotBlank : ℕ → Type 0
NotBlank c = is_blank c ≡ false

save-nodes : (h : Hash) → save h ≡ save_chain (nodes h) ++ []
unfolding save nodes
save-nodes h = save_from-nodes h.table_s 0 h ∙ sym (append-nil _)

words_from-line :
    (word line rest : Text)
    → All NotBlank line
    → words_from word (line ++ newline ∷ rest) ≡ flush (word ++ line) (words_from [] rest)
unfolding words_from
words_from-line word [] rest a = rw (append-nil word) refl
words_from-line word (c ∷ line) rest a = rw a.0 (
    words_from-line (word ++ c ∷ []) line rest a.1
    ∙ ap (λ (w : Text). flush w (words_from [] rest)) (append_assoc word (c ∷ []) line))

encrypt_string-NotBlank : (n e : ℕ) (str : Text) → All NotBlank (encrypt_string n e str)
unfolding encrypt_string
encrypt_string-NotBlank n e [] = tt
encrypt_string-NotBlank n e (c ∷ str) =
    All-append NotBlank (to_string_ℕ (encrypt n e c)) _
      (to_string-All NotBlank _ (λ d h. ground arith)) (refl, encrypt_string-NotBlank n e str)

flush-ne-nil : (w : Text) (words : List Text) → w ≢ [] → flush w words ≡ w ∷ words
flush-ne-nil [] words ne = absurd (ne refl)
flush-ne-nil (c ∷ w) words ne = refl

flush-line :
    (str : Text) (words : List Text)
    → str ≢ []
    → flush (encrypt_string modulus encrypt_key str) words
      ≡ encrypt_string modulus encrypt_key str ∷ words
flush-line [] words ne = absurd (ne refl)
flush-line (c ∷ str) words ne =
    flush-ne-nil _ words (encrypt_string-ne-nil modulus encrypt_key c str)

words_from-save_chain :
    (ns : Nodes) (rest : Text)
    → words_from [] (save_chain ns ++ rest) ≡ map save_line ns ++ words_from [] rest
unfolding save_chain
words_from-save_chain [] rest = refl
words_from-save_chain (n ∷ ns) rest =
    ap (words_from []) (append_assoc (save_line n) (newline ∷ save_chain ns) rest)
    ∙ words_from-line [] (save_line n) (save_chain ns ++ rest)
        (encrypt_string-NotBlank modulus encrypt_key (get_kv_str n))
    ∙ flush-line (get_kv_str n) (words_from [] (save_chain ns ++ rest)) (get_kv_str-ne-nil n)
    ∙ ap (λ (ws : List Text). save_line n ∷ ws) (words_from-save_chain ns rest)

read_lines-done :
    (line : Text) (lines : List Text) (h h' : Hash)
    → read_line (pos password) line h ≡ done h'
    → read_lines (pos password) (line ∷ lines) h ≡ read_lines (pos password) lines h'
unfolding read_lines
read_lines-done line lines h h' e = rw (e, read_lines) refl

read_lines-nothing : (h : Hash) → read_lines (pos password) (words_from [] []) h ≡ done h
unfolding words_from read_lines
read_lines-nothing h = refl

read_lines-damaged :
    (line : Text) (lines : List Text) (h h' : Hash)
    → read_line (pos password) line h ≡ damaged h'
    → read_lines (pos password) (line ∷ lines) h ≡ damaged h'
unfolding read_lines
read_lines-damaged line lines h h' e = rw (e, read_lines) refl

read_lines-restore :
    (ns : Nodes) (lines : List Text) (h : Hash)
    → All IsSavable ns
    → read_lines (pos password) (map save_line ns ++ lines) h
      ≡ read_lines (pos password) lines (restore ns h)
unfolding restore
read_lines-restore [] lines h a = refl
read_lines-restore (n ∷ ns) lines h a =
    read_lines-done (save_line n) (map save_line ns ++ lines) h _ (read_line-save_line n h a.0)
    ∙ read_lines-restore ns lines _ a.1

-- A line whose first word is no number is damaged.
read_line-cracked :
    (w rest : Text) (z : ℤ) (h : Hash)
    → Free backslash w
    → w ≢ []
    → strtoint w ≡ some (false, z)
    → read_line (pos password) (w ++ backslash ∷ rest) h ≡ damaged h
read_line-cracked [] rest z h f ne q = absurd (ne refl)
read_line-cracked (c ∷ w) rest z h f ne q =
    let (p, ps, e) = pieces-cons backslash rest in
    let words =
      split-pieces c backslash (w ++ backslash ∷ rest)
      ∙ pieces-append backslash (c ∷ w) rest f
      ∙ ap (λ (r : List Text). (c ∷ w) ∷ r) e in
    unfold read_line in
    rw (words, decrypt_words-cracked modulus (pos password) (c ∷ w) p ps z q) refl

module _ (h0 : Hash) (pw : Text) (e : strtoint pw ≡ some (true, pos password)) where
  read-lines :
      (str : Text) → read (some str) pw h0 ≡ read_lines (pos password) (words_from [] str) h0
  unfolding read
  read-lines str = rw e refl

  read_saved :
      (ns : Nodes) (rest : Text)
      → All IsSavable ns
      → read_lines (pos password) (words_from [] (save_chain ns ++ rest)) h0
        ≡ read_lines (pos password) (words_from [] rest) (restore ns h0)
  read_saved ns rest a =
      ap (λ (ws : List Text). read_lines (pos password) ws h0) (words_from-save_chain ns rest)
      ∙ read_lines-restore ns (words_from [] rest) h0 a

  -- Reading, with the password, the file that `save` wrote of a well-formed table into a
  -- well-formed table ends without a crash or a return of false and leaves a well-formed table, in
  -- which every saved key has its saved levels and what its value is read back as, and all other
  -- keys are as before. The keys hold no comma, the levels are bytes, keys and values have no NUL,
  -- and no map counts nodes and prints as the empty text.
  pub read-save :
      (h : Hash)
      → IsTable h
      → IsTable h0
      → All IsSavable (nodes h)
      → (h' : Hash) × (read (some (save h)) pw h0 ≡ done h')
        × ((key : Text) → find_node key h' ≡ restored key (find_node key h) (find_node key h0))
        × IsTable h'
  read-save h is is0 a =
      let found = λ (key : Text). restore-find_node (nodes h) h0 key is0 (Unique-nodes h is) in
      (
        restore (nodes h) h0,
        read-lines (save h)
            ∙ ap (λ (t : Text). read_lines (pos password) (words_from [] t) h0) (save-nodes h)
            ∙ read_saved (nodes h) [] a
            ∙ read_lines-nothing (restore (nodes h) h0),
        λ key.
            (found key).0
            ∙ ap (λ (o : Option Kv). restored key o (find_node key h0)) (find-nodes h is key),
        (found []).1,
      )

  -- If a line of the file with no white space, which stands behind the lines that `save` wrote of
  -- some nodes, starts with a word that is no number, then `read` with the password returns false,
  -- and the table has the nodes before it restored, whatever follows the line. The keys of the
  -- nodes hold no comma, their levels are bytes, keys and values have no NUL, and no map counts
  -- nodes and prints as the empty text.
  pub read-cracked :
      (ns : Nodes) (w rest : Text) (z : ℤ)
      → All IsSavable ns
      → Free backslash w
      → w ≢ []
      → strtoint w ≡ some (false, z)
      → All NotBlank w
      → All NotBlank rest
      → (more : Text)
      → read (some (save_chain ns ++ (w ++ backslash ∷ rest) ++ newline ∷ more)) pw h0
        ≡ damaged (restore ns h0)
  read-cracked ns w rest z a f ne q b c more =
      let line = w ++ backslash ∷ rest in
      read-lines (save_chain ns ++ line ++ newline ∷ more)
      ∙ ap (λ (t : Text). read_lines (pos password) (words_from [] t) h0)
          (append_assoc (save_chain ns) line (newline ∷ more))
      ∙ read_saved ns (line ++ newline ∷ more) a
      ∙ ap (λ (ws : List Text). read_lines (pos password) ws (restore ns h0))
          (words_from-line [] line more (All-append NotBlank w (backslash ∷ rest) b (refl, c))
            ∙ flush-ne-nil line (words_from [] more) (append-cons-ne-nil w backslash rest))
      ∙ read_lines-damaged line (words_from [] more) (restore ns h0) (restore ns h0)
          (read_line-cracked w rest z (restore ns h0) f ne q)
