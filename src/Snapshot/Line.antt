-- ===== src/Snapshot/Line.antt =====
-- One line of the snapshot: reading it sets the key to the value that its text encodes.
use muse_kv.Prelude.{
  ℕ, ◌%◌, ◌<◌, ◌≡◌, ◌≢◌, refl, sym, ap, ◌∙◌, true, false, some, List, [], ◌∷◌, ◌++◌, All,
  All-append, arith, ltb, length, get_or,
}
use muse_kv.Prelude.Int.{pos}
use muse_kv.Text.{Text, comma, count, split, merge}
use muse_kv.Text.Split.{
  Free, pieces, split-pieces, pieces-append, pieces-cons, merge-pieces, pieces-Free,
}
use muse_kv.Text.Number.{to_string_ℕ, strtoint, strtoint-to_string_ℕ}
use muse_kv.Hashmap.{Hashmap}
use muse_kv.Kv
use muse_kv.Kv.{Kv, Value, string, list, set, hashmap, Dtype, string_type}
use muse_kv.Kv.Encode.{value_of-data_decode}
use muse_kv.Hash
use muse_kv.Hash.{Hash}
use muse_kv.Encrypt.Inverse.{password}
use muse_kv.Encrypt.Strings.{
  IsChar, to_string-Free, to_string-IsChar, decrypt_words-split, c_string_lem,
}
use muse_kv.Snapshot.{
  dtype_of, dtype_text, get_kv_str, save_line, done, read_value, read_args, read_line,
}

-- The value that a read makes of what a save wrote: a string up to its first comma, and of the
-- others the decoding of the printed value.
unfoldable pub reread : Value → Value
reread (string s) = string (get_or (pieces comma s) 0 [])
reread (list l) = Kv.value_of (Kv.data_decode (list l)) (dtype_of (list l))
reread (set s) = Kv.value_of (Kv.data_decode (set s)) (dtype_of (set s))
reread (hashmap m) = Kv.value_of (Kv.data_decode (hashmap m)) (dtype_of (hashmap m))

-- What a node must be to be saved: levels that are bytes, as in every node, a key with no comma,
-- no NUL and no other than bytes in the key and the value, and not a map that counts nodes but has
-- none to print.
pub record IsSavable (node : Kv) : Type 0 where
  pub authr : node.authr < 256
  pub authw : node.authw < 256
  pub key : Free comma node.k
  pub key_chars : All IsChar node.k
  pub value_chars : All IsChar (Kv.data_decode node.v)
  pub map_text : (m : Hashmap) → node.v ≡ hashmap m → Kv.data_decode node.v ≢ []

-- The fields of a saved line.
abbrev fields : Kv → List Text
fields node =
    dtype_text node.v
    ∷ to_string_ℕ node.authw
    ∷ to_string_ℕ node.authr
    ∷ node.k
    ∷ pieces comma (Kv.data_decode node.v)

dtype_text-Free : (v : Value) → Free comma (dtype_text v)
unfolding dtype_text count
dtype_text-Free (string s) = refl
dtype_text-Free (list l) = refl
dtype_text-Free (set s) = refl
dtype_text-Free (hashmap m) = refl

pieces-get_kv_str : (node : Kv) → IsSavable node → pieces comma (get_kv_str node) ≡ fields node
unfolding get_kv_str
pieces-get_kv_str node is =
    pieces-append comma (dtype_text node.v) _ (dtype_text-Free node.v)
    ∙ ap (λ (r : List Text). dtype_text node.v ∷ r)
        (pieces-append comma (to_string_ℕ node.authw) _
            (to_string-Free comma node.authw (λ d h q. omega arith))
          ∙ ap (λ (r : List Text). to_string_ℕ node.authw ∷ r)
              (pieces-append comma (to_string_ℕ node.authr) _
                  (to_string-Free comma node.authr (λ d h q. omega arith))
                ∙ ap (λ (r : List Text). to_string_ℕ node.authr ∷ r)
                    (pieces-append comma node.k _ is.key)))

dtype_text-IsChar : (v : Value) → All IsChar (dtype_text v)
unfolding dtype_text
dtype_text-IsChar (string s) = omega arith
dtype_text-IsChar (list l) = omega arith
dtype_text-IsChar (set s) = omega arith
dtype_text-IsChar (hashmap m) = omega arith

after_comma : (x y : Text) → All IsChar x → All IsChar y → All IsChar (x ++ comma ∷ y)
after_comma x y a b = All-append IsChar x (comma ∷ y) a ((omega arith, omega arith), b)

get_kv_str-IsChar : (node : Kv) → IsSavable node → All IsChar (get_kv_str node)
unfolding get_kv_str
get_kv_str-IsChar node is = after_comma (dtype_text node.v) _ (dtype_text-IsChar node.v) (
    after_comma (to_string_ℕ node.authw) _ (to_string-IsChar node.authw) (
      after_comma (to_string_ℕ node.authr) _ (to_string-IsChar node.authr)
        (after_comma node.k _ is.key_chars is.value_chars)))

or_empty-ne-nil : (t : Text) → Kv.or_empty t ≢ []
unfolding Kv.or_empty
or_empty-ne-nil [] q = cc
or_empty-ne-nil (c ∷ t) q = cc

printed-ne-nil :
    (v : Value)
    → dtype_of v ≢ string_type
    → ((m : Hashmap) → v ≡ hashmap m → Kv.data_decode v ≢ [])
    → Kv.data_decode v ≢ []
unfolding dtype_of Kv.data_decode
printed-ne-nil (string s) ns f = absurd (ns refl)
printed-ne-nil (list l) ns f = or_empty-ne-nil _
printed-ne-nil (set s) ns f = or_empty-ne-nil _
printed-ne-nil (hashmap m) ns f = f m refl

encoded :
    (str : Text) (dtype : Dtype)
    → str ≢ []
    → Kv.data_encode str dtype ≡ some (Kv.value_of str dtype)
unfolding Kv.data_encode
encoded [] dtype ne = absurd (ne refl)
encoded (c ∷ str) Kv.string_type ne = refl
encoded (c ∷ str) Kv.list_type ne = refl
encoded (c ∷ str) Kv.set_type ne = refl
encoded (c ∷ str) Kv.hashmap_type ne = refl

-- the text of `args[4]` and those behind it, as one of the three other types
merged :
    (v : Value) (dtype : Dtype)
    → Kv.data_decode v ≢ []
    → Kv.data_encode (merge comma (pieces comma (Kv.data_decode v))) dtype
      ≡ some (Kv.value_of (Kv.data_decode v) dtype)
merged v dtype ne =
    ap (λ (t : Text). Kv.data_encode t dtype) (merge-pieces comma _) ∙ encoded _ dtype ne

-- `dtype` is read back, and the value with it.
read_value-fields :
    (v : Value) (a b c : Text)
    → ((m : Hashmap) → v ≡ hashmap m → Kv.data_decode v ≢ [])
    → (n : ℕ) × (strtoint (dtype_text v) ≡ some (true, pos n))
      × (read_value (pos n) (dtype_text v ∷ a ∷ b ∷ c ∷ pieces comma (Kv.data_decode v))
          ≡ some (some (reread v)))
unfolding read_value dtype_text reread dtype_of strtoint Kv.data_encode
read_value-fields (string s) a b c f = (0, refl, unfold Kv.data_decode Kv.value_of in refl)
read_value-fields (list l) a b c f =
    (1, refl, ap some (merged (list l) Kv.list_type (printed-ne-nil (list l) (λ q. cc) f)))
read_value-fields (set s) a b c f =
    (2, refl, ap some (merged (set s) Kv.set_type (printed-ne-nil (set s) (λ q. cc) f)))
read_value-fields (hashmap m) a b c f =
    (3, refl, ap some (merged (hashmap m) Kv.hashmap_type (f m refl)))

dtype_text-cons :
    (v : Value) (rest : Text) → (c : ℕ) × (str : Text) × (dtype_text v ++ rest ≡ c ∷ str)
unfolding dtype_text
dtype_text-cons (string s) rest = (_, _, refl)
dtype_text-cons (list l) rest = (_, _, refl)
dtype_text-cons (set s) rest = (_, _, refl)
dtype_text-cons (hashmap m) rest = (_, _, refl)

fields_many : (node : Kv) → ltb (length (fields node)) 5 ≡ false
fields_many node = let (p, ps, e) = pieces-cons comma (Kv.data_decode node.v) in rw e (ground arith)

read_args-fields :
    (node : Kv) (h : Hash)
    → IsSavable node
    → read_args (fields node) h ≡ done (Hash.set node.k (reread node.v) node.authr node.authw h)
unfolding read_args
read_args-fields node h is =
    let (n, e, q) =
      read_value-fields node.v (to_string_ℕ node.authw) (to_string_ℕ node.authr) node.k
        is.map_text in
    let w = strtoint-to_string_ℕ node.authw (omega (arith, is.authw)) in
    let r = strtoint-to_string_ℕ node.authr (omega (arith, is.authr)) in
    let r' : node.authr % 256 ≡ node.authr = omega (arith, is.authr) in
    let w' : node.authw % 256 ≡ node.authw = omega (arith, is.authw) in
    rw (fields_many node, e, w, r, q, r', w') refl

get_kv_str-cons : (node : Kv) → (c : ℕ) × (str : Text) × (get_kv_str node ≡ c ∷ str)
unfolding get_kv_str
get_kv_str-cons node = dtype_text-cons node.v _

pub get_kv_str-ne-nil : (node : Kv) → get_kv_str node ≢ []
get_kv_str-ne-nil node q = let (c, str, e) = get_kv_str-cons node in cc

split-get_kv_str : (node : Kv) → IsSavable node → split (get_kv_str node) comma ≡ fields node
split-get_kv_str node is =
    let (c, str, e) = get_kv_str-cons node in
    ap (λ (t : Text). split t comma) e
    ∙ split-pieces c comma str
    ∙ ap (pieces comma) (sym e)
    ∙ pieces-get_kv_str node is

-- Reading, with the password, the line that `save` wrote for a node sets its key to its two levels
-- and to what its value is read back as: a string up to its first comma, another value as it is
-- decoded and encoded. The key holds no comma, the levels are bytes, and key and value have no
-- NUL.
pub read_line-save_line :
    (node : Kv) (h : Hash)
    → IsSavable node
    → read_line (pos password) (save_line node) h
      ≡ done (Hash.set node.k (reread node.v) node.authr node.authw h)
unfolding read_line
read_line-save_line node h is =
    rw
      (
        decrypt_words-split (get_kv_str node) (get_kv_str-IsChar node is) (get_kv_str-ne-nil node),
        c_string_lem (get_kv_str node) (get_kv_str-IsChar node is),
        split-get_kv_str node is,
      )
      (read_args-fields node h is)

-- A string with no comma is read back as it was.
pub reread-string : (s : Text) → Free comma s → reread (string s) ≡ string s
unfolding reread
reread-string s f = rw (pieces-Free comma s f) refl

-- So is a list whose texts hold no comma, if it does not print to the empty text.
pub reread-list :
    (l : List Text) → All (Free comma) l → merge comma l ≢ [] → reread (list l) ≡ list l
unfolding reread dtype_of
reread-list l f ne = value_of-data_decode l f ne
