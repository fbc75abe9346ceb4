-- ===== src/Tests/Files.antt =====
-- Texts for src/encrypt.cpp, and snapshot files for `save` and `read` of src/hash.cpp.
use muse_kv.Prelude.{
  ℕ, ◌≡◌, refl, true, false, some, [], ◌∷◌, ◌++◌, ◌==◌, All, arith, Bool-cases, inl, inr,
}
use muse_kv.Prelude.Int.{pos}
use muse_kv.Text.{Text, count}
use muse_kv.Text.Number.{strtoint, to_string_ℕ, strtoint-to_string_ℕ}
use muse_kv.Kv
use muse_kv.Kv.{Kv, Value, string}
use muse_kv.Hash
use muse_kv.Hash.{Hash, find_node}
use muse_kv.Hash.Laws.{IsTable, new-IsTable, set-find_node}
use muse_kv.Encrypt.{get_decrypt_key, encrypt_string, decrypt_string, plain, backslash}
use muse_kv.Encrypt.Keys.{KeyFrom, get_decrypt_key_lem}
use muse_kv.Encrypt.Inverse.{modulus, encrypt_key, password}
use muse_kv.Encrypt.Strings.{IsChar, decrypt_string-encrypt_string}
use muse_kv.Snapshot.{newline, save, save_chain, read, done, damaged}
use muse_kv.Snapshot.Line.{IsSavable}
use muse_kv.Snapshot.Nodes.{nodes-All, restore, restored}
use muse_kv.Snapshot.Kept.{Leaves, read-Leaves}
use muse_kv.Snapshot.File.{read-save, read-cracked}
use muse_kv.Command.Dispatch.{codes}

get_decrypt_key_example : KeyFrom 1 40 7 (get_decrypt_key 40 7)
get_decrypt_key_example = get_decrypt_key_lem 40 7 (omega arith) (omega arith) (omega arith)

fig-IsChar : All IsChar (codes "fig")
fig-IsChar =
    ((omega arith, omega arith), ((omega arith, omega arith), ((omega arith, omega arith), tt)))

decrypt_string-encrypt_string_example :
    decrypt_string modulus (pos password) (encrypt_string modulus encrypt_key (codes "fig"))
    ≡ some (plain (codes "fig"))
decrypt_string-encrypt_string_example =
    decrypt_string-encrypt_string (codes "fig") fig-IsChar (λ q. cc)

abbrev fresh_table : Hash
fresh_table = Hash.new 8000

fresh_table-IsTable : IsTable fresh_table
fresh_table-IsTable = (new-IsTable 8000).1

abbrev fruit : Kv
fruit = Kv.new (codes "fig") (string (codes "fig")) 3 5

fruit-IsSavable : IsSavable fruit
unfolding Kv.data_decode Kv.new count
fruit-IsSavable = record {
  authr = omega arith;
  authw = omega arith;
  key = refl;
  key_chars = fig-IsChar;
  value_chars = fig-IsChar;
  map_text = λ m e q. cc;
}

abbrev saved_table : Hash
saved_table = Hash.set (codes "fig") (string (codes "fig")) 3 5 fresh_table

saved_table-IsTable : IsTable saved_table
saved_table-IsTable =
    (set-find_node (codes "fig") (string (codes "fig")) 3 5 fresh_table fresh_table-IsTable).1

chains-IsSavable : (j : ℕ) → All IsSavable (saved_table.h j)
unfolding Hash.set Hash.new
chains-IsSavable j =
    rw ((new-IsTable 8000).0 (codes "fig"), Hash.set)
      (elim (Bool-cases (j == Hash.hash_func (codes "fig") fresh_table)) [
        | inl y ↦ rw y (fruit-IsSavable, tt)
        | inr x ↦ rw x tt
      ])

abbrev pass : Text
pass = to_string_ℕ password

pass-number : strtoint pass ≡ some (true, pos password)
pass-number = strtoint-to_string_ℕ password (omega arith)

read-save_example :
    (h' : Hash) × (read (some (save saved_table)) pass fresh_table ≡ done h')
    × ((key : Text)
        → find_node key h' ≡ restored key (find_node key saved_table) (find_node key fresh_table))
    × IsTable h'
read-save_example =
    read-save fresh_table pass pass-number saved_table saved_table-IsTable fresh_table-IsTable
      (nodes-All IsSavable saved_table chains-IsSavable)

no_number : strtoint (codes "x1") ≡ some (false, pos 0)
unfolding strtoint
no_number = refl

read-cracked_example :
    read
      (some
        (save_chain (fruit ∷ []) ++ (codes "x1" ++ backslash ∷ codes "7") ++ newline ∷ codes "8"))
      pass
      fresh_table
    ≡ damaged (restore (fruit ∷ []) fresh_table)
read-cracked_example =
    read-cracked fresh_table pass pass-number (fruit ∷ []) (codes "x1") (codes "7") (pos 0)
      (fruit-IsSavable, tt) (unfold count in refl) (λ q. cc) no_number (refl, (refl, tt)) (refl, tt)
      (codes "8")

-- a file whose first line is no message
read-Leaves_example : Leaves fresh_table (read (some (codes "7")) pass fresh_table)
read-Leaves_example = read-Leaves (some (codes "7")) pass fresh_table fresh_table-IsTable
