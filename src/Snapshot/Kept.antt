-- ===== src/Snapshot/Kept.antt =====
-- A read of any file, whatever it holds, leaves a well-formed table: `read` of src/hash.cpp.
use muse_kv.Prelude.{
  Bool, true, false, not, ltb, Option, none, some, List, [], ◌∷◌, if◌then◌else◌, length,
}
use muse_kv.Prelude.Int.{ℤ}
use muse_kv.Text.{Text}
use muse_kv.Text.Number.{strtoint}
use muse_kv.Kv.{Value}
use muse_kv.Encrypt.{Decrypted, plain, cracked}
use muse_kv.Hash.{Hash}
use muse_kv.Hash.Laws.{IsTable}
use muse_kv.Hash.Frame.{Kept, Kept-refl, Kept-trans, set-Kept}
use muse_kv.Snapshot.{
  Read, crash, dangling, damaged, done, store_value, read_numbers, read_args, read_value,
  read_message, read_line, and_then, read_lines, read_file, read_open, read, words_from,
}

-- The table that a read leaves, where the server goes on, is well formed.
abbrev pub Leaves : Hash → Read → Type 0
Leaves h crash = Unit
Leaves h (dangling h') = Kept h h'
Leaves h (damaged h') = Kept h h'
Leaves h (done h') = Kept h h'

if-Leaves :
    (h : Hash) (b : Bool) (x y : Read) → Leaves h x → Leaves h y → Leaves h (if b then x else y)
if-Leaves h true x y p q = p
if-Leaves h false x y p q = q

store_value-Leaves :
    (args : List Text) (authw authr : ℤ) (o : Option (Option Value)) (h : Hash)
    → IsTable h
    → Leaves h (store_value args authw authr o h)
unfolding store_value
store_value-Leaves args authw authr none h ok = Kept-refl h ok
store_value-Leaves args authw authr (some none) h ok = tt
store_value-Leaves args authw authr (some (some v)) h ok = set-Kept _ v _ _ h ok

read_numbers-Leaves :
    (args : List Text) (a b c : Option (Bool × ℤ)) (h : Hash)
    → IsTable h
    → Leaves h (read_numbers args a b c h)
unfolding read_numbers
read_numbers-Leaves args none b c h ok = tt
read_numbers-Leaves args (some a) none c h ok = tt
read_numbers-Leaves args (some a) (some b) none h ok = tt
read_numbers-Leaves args (some (a0, t)) (some (a1, w)) (some (a2, r)) h ok =
    if-Leaves h (not a0) _ _ (Kept-refl h ok) (
      if-Leaves h (not a1) _ _ (Kept-refl h ok) (
        if-Leaves h (not a2) _ _ (Kept-refl h ok)
          (store_value-Leaves args w r (read_value t args) h ok)))

read_args-Leaves : (args : List Text) (h : Hash) → IsTable h → Leaves h (read_args args h)
unfolding read_args
read_args-Leaves args h ok =
    if-Leaves h (ltb (length args) 5) _ _ (Kept-refl h ok) (read_numbers-Leaves args _ _ _ h ok)

read_message-Leaves : (m : Option Decrypted) (h : Hash) → IsTable h → Leaves h (read_message m h)
unfolding read_message
read_message-Leaves none h ok = tt
read_message-Leaves (some cracked) h ok = Kept-refl h ok
read_message-Leaves (some (plain str)) h ok = read_args-Leaves _ h ok

and_then-Leaves :
    (h : Hash) (r : Read) (k : Hash → Read)
    → Leaves h r
    → ((g : Hash) → IsTable g → Leaves g (k g))
    → Leaves h (and_then r k)
unfolding and_then
and_then-Leaves h crash k a f = tt
and_then-Leaves h (dangling g) k a f = a
and_then-Leaves h (damaged g) k a f = a
and_then-Leaves h (done g) k a f = Leaves-trans (k g) (f g a.is)
  where
    Leaves-trans : (r : Read) → Leaves g r → Leaves h r
    Leaves-trans crash b = tt
    Leaves-trans (dangling e) b = Kept-trans h g e a b
    Leaves-trans (damaged e) b = Kept-trans h g e a b
    Leaves-trans (done e) b = Kept-trans h g e a b

read_lines-Leaves :
    (password : ℤ) (lines : List Text) (h : Hash)
    → IsTable h
    → Leaves h (read_lines password lines h)
unfolding read_lines read_line
read_lines-Leaves password [] h ok = Kept-refl h ok
read_lines-Leaves password (line ∷ lines) h ok =
    and_then-Leaves h _ _ (read_message-Leaves _ h ok) (read_lines-Leaves password lines)

read_open-Leaves :
    (r : Option (Bool × ℤ)) (str : Text) (h : Hash) → IsTable h → Leaves h (read_open r str h)
unfolding read_open read_file
read_open-Leaves none str h ok = tt
read_open-Leaves (some (false, z)) str h ok = Kept-refl h ok
read_open-Leaves (some (true, z)) str h ok = read_lines-Leaves z (words_from [] str) h ok

-- A read of a file with any contents on a well-formed table crashes, or leaves a well-formed table
-- with the slots that it had, also where it gives up in the middle; of a file with a line of a
-- type that is no type, which is stored with an address that points nowhere, this is said of the
-- table before the first such line.
pub read-Leaves :
    (file : Option Text) (pw : Text) (h : Hash) → IsTable h → Leaves h (read file pw h)
unfolding read
read-Leaves none pw h ok = Kept-refl h ok
read-Leaves (some str) pw h ok = read_open-Leaves (strtoint pw) str h ok
