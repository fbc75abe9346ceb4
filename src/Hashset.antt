-- ===== src/Hashset.antt =====
-- src/hashset.h and src/hashset.cpp: a table of 97 lists. Each list is its contents, which the
-- pointer code of LinkedList refines.
pub mod Count
pub mod Laws
pub mod Pop
use muse_kv.Prelude.{
  ℕ, zero, suc, ◌+◌, Bool, true, false, Option, none, some, List, [], ◌∷◌, ◌++◌, ◌==◌, ltb,
  if◌then◌else◌, length, get_or, set, replicate,
}
use muse_kv.Prelude.Int.{pos}
use muse_kv.Text.{Text, comma}
use muse_kv.Hashing.{hash_loop, reduce}
use muse_kv.LinkedList.Sequence
use muse_kv.LinkedList.Sequence.{Sequence}

abbrev pub table_s : ℕ
table_s = 97

abbrev pub Hashset : Type 0
Hashset = List Sequence

pub new : Hashset
new = replicate table_s []

-- `str[i] - 'a' + 1`
pub hash_func : Text → ℕ
hash_func str = reduce (hash_loop 96 53 0 str) table_s

pub push : Text → Hashset → Hashset
push content table =
    let index = hash_func content in
    let bucket = get_or table index [] in
    elim (Sequence.find content bucket) [
      | none ↦ set table index (bucket ++ content ∷ [])
      | some _ ↦ table
    ]

-- the first list that is not empty gives its last element
pub pop : Hashset → Text × Hashset
pop [] = ([], [])
pop (b ∷ table) =
    let (res, rest) = pop table in
    let (last, front) = Sequence.pop_back b in
    if ltb 0 (length b) then (last, front ∷ table) else (res, b ∷ rest)

pub del : Text → Hashset → Bool × Hashset
del content [] = (false, [])
del content (b ∷ table) =
    let (found, rest) = del content table in
    elim (Sequence.find content b) [
      | some index ↦ (true, Sequence.del (pos index) b ∷ table)
      | none ↦ (found, b ∷ rest)
    ]

pub get_length : Hashset → ℕ
get_length [] = 0
get_length (b ∷ table) = length b + get_length table

pub is_empty : Hashset → Bool
is_empty table = get_length table == 0

-- `start` and `str` of the loop
print_loop : Bool → Text → Hashset → Text
print_loop start str [] = str
print_loop start str (b ∷ table) =
    let printed = Sequence.print b in
    let skip = print_loop start str table in
    let next = print_loop false (if start then str ++ printed else str ++ comma ∷ printed) table in
    if Sequence.is_empty b then skip else next

pub print : Hashset → Text
unfolding print_loop
print table = print_loop true [] table
