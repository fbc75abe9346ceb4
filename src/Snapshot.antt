-- ===== src/Snapshot.antt =====
-- The snapshot file: `save` and `read` of src/hash.cpp, `get_kv_str` of src/hashnode.cpp. A file is
-- its bytes, and `none` a file that cannot be opened.
pub mod Line
pub mod Nodes
pub mod File
pub mod Kept
use muse_kv.Prelude.{
  ℕ, zero, suc, ◌+◌, ◌-◌, ◌%◌, Bool, true, false, not, ◌&&◌, ◌||◌, Option, none, some, List, [],
  ◌∷◌, ◌++◌, ◌==◌, ltb, leb, if◌then◌else◌, length, get_or, drop,
}
use muse_kv.Prelude.Int.{ℤ, pos, negsuc}
use muse_kv.Text.{Text, comma, split, merge}
use muse_kv.Text.Atoi.{is_blank}
use muse_kv.Text.Number.{strtoint, to_string_ℕ}
use muse_kv.Kv
use muse_kv.Kv.{
  Kv, Value, string, list, set, hashmap, Dtype, string_type, list_type, set_type, hashmap_type,
}
use muse_kv.Encrypt.{backslash, encrypt_string, Decrypted, plain, cracked, decrypt_words, c_string}
use muse_kv.Encrypt.Inverse.{modulus, encrypt_key}
use muse_kv.Hash
use muse_kv.Hash.{Hash}

-- `data_encode_node` and `data_decode_node` repeat `data_encode` and `data_decode`.
abbrev pub data_encode_node : Text → Dtype → Option Value
data_encode_node = Kv.data_encode

abbrev pub data_decode_node : Value → Text
data_decode_node = Kv.data_decode

unfoldable pub dtype_of : Value → Dtype
dtype_of (string s) = string_type
dtype_of (list l) = list_type
dtype_of (set s) = set_type
dtype_of (hashmap m) = hashmap_type

unfoldable pub dtype_text : Value → Text
dtype_text (string s) = b'0' ∷ []
dtype_text (list l) = b'1' ∷ []
dtype_text (set s) = b'2' ∷ []
dtype_text (hashmap m) = b'3' ∷ []

unfoldable pub get_kv_str : Kv → Text
get_kv_str node =
    dtype_text node.v
    ++ (comma ∷ to_string_ℕ node.authw
        ++ (comma ∷ to_string_ℕ node.authr
            ++ (comma ∷ node.k ++ (comma ∷ data_decode_node node.v))))

abbrev pub newline : ℕ
newline = 10

abbrev pub save_line : Kv → Text
save_line node = encrypt_string modulus encrypt_key (get_kv_str node)

-- the walk along a chain
unfoldable pub save_chain : Hash.Nodes → Text
save_chain [] = []
save_chain (node ∷ nodes) = save_line node ++ newline ∷ save_chain nodes

unfoldable pub save_from : ℕ → ℕ → Hash → Text
save_from zero i h = []
save_from (suc left) i h = save_chain (h.h i) ++ save_from left (suc i) h

-- what `save` writes into the file, when it can be opened
unfoldable pub save : Hash → Text
unfolding save_from save_chain
save h = save_from h.table_s 0 h

-- What a read leaves: a crash of the server; the table before the first line of a type that is no
-- type, for which the code stores an address that points nowhere and reads on, which is not followed
-- any further; a return of false; or the table.
pub data Read : Type 0 where
  crash : Read
  dangling damaged : Hash → Read
  done : Hash → Read

-- the conversion of an `int` to `uint8_t`
abbrev pub to_uint8 : ℤ → ℕ
to_uint8 (pos n) = n % 256
to_uint8 (negsuc n) = 255 - n % 256

-- The value of each type; a string is `args[4]` alone, the others all from there on. `none` is a type
-- that is no type, `some none` a crash.
unfoldable pub read_value : ℤ → List Text → Option (Option Value)
read_value (pos zero) args = some (data_encode_node (get_or args 4 []) string_type)
read_value (pos (suc zero)) args = some (data_encode_node (merge comma (drop 4 args)) list_type)
read_value (pos (suc (suc zero))) args =
    some (data_encode_node (merge comma (drop 4 args)) set_type)
read_value (pos (suc (suc (suc zero)))) args =
    some (data_encode_node (merge comma (drop 4 args)) hashmap_type)
read_value _ args = none

store_value : List Text → ℤ → ℤ → Option (Option Value) → Hash → Read
store_value args authw authr none h = dangling h
store_value args authw authr (some none) h = crash
store_value args authw authr (some (some value)) h =
    done (Hash.set (get_or args 3 []) value (to_uint8 authr) (to_uint8 authw) h)

-- the three tests for numbers, after the three calls, each of which throws on an empty text
read_numbers : List Text → Option (Bool × ℤ) → Option (Bool × ℤ) → Option (Bool × ℤ) → Hash → Read
read_numbers args (some (a0, dtype)) (some (a1, authw)) (some (a2, authr)) h =
    if not a0
    then damaged h
    else if not a1
    then damaged h
    else if not a2
    then damaged h
    else store_value args authw authr (read_value dtype args) h
read_numbers args _ _ _ h = crash

unfoldable pub read_args : List Text → Hash → Read
unfolding read_numbers store_value
read_args args h =
    if ltb (length args) 5
    then damaged h
    else read_numbers args (strtoint (get_or args 0 [])) (strtoint (get_or args 1 []))
        (strtoint (get_or args 2 [])) h

read_message : Option Decrypted → Hash → Read
read_message none h = crash
read_message (some cracked) h = damaged h
read_message (some (plain str)) h = read_args (split (c_string str) comma) h

-- the body of `while(in)` for a line that is not empty
unfoldable pub read_line : ℤ → Text → Hash → Read
unfolding read_message
read_line password line h = read_message (decrypt_words modulus password (split line backslash)) h

and_then : Read → (Hash → Read) → Read
and_then (done h) k = k h
and_then (damaged h) k = damaged h
and_then crash k = crash
and_then (dangling h) k = dangling h

unfoldable pub read_lines : ℤ → List Text → Hash → Read
unfolding and_then
read_lines password [] h = done h
read_lines password (line ∷ lines) h =
    and_then (read_line password line h) (read_lines password lines)

-- `in >> line`, until it gives nothing: the words of the file between white space
abbrev pub flush : Text → List Text → List Text
flush [] words = words
flush (c ∷ word) words = (c ∷ word) ∷ words

unfoldable pub words_from : Text → Text → List Text
words_from word [] = flush word []
words_from word (c ∷ str) =
    let ended = flush word (words_from [] str) in
    let longer = words_from (word ++ c ∷ []) str in if is_blank c then ended else longer

read_file : Bool × ℤ → Text → Hash → Read
read_file (true, password) str h = read_lines password (words_from [] str) h
read_file (false, z) str h = damaged h

read_open : Option (Bool × ℤ) → Text → Hash → Read
unfolding read_file
read_open none str h = crash
read_open (some r) str h = read_file r str h

unfoldable pub read : Option Text → Text → Hash → Read
unfolding read_open
read none pw h = damaged h
read (some str) pw h = read_open (strtoint pw) str h
