-- ===== src/Text.antt =====
-- src/kvstore.cpp: `split`, `merge`, `trim`. A `std::string` is the list of its bytes.
pub mod Equal
pub mod Split
pub mod Trim
pub mod Words
pub mod Number
pub mod Atoi
use muse_kv.Prelude.{
  ℕ, zero, suc, ◌+◌, Bool, true, false, ◌&&◌, Option, none, some, List, [], ◌∷◌, ◌++◌, ◌==◌,
  if◌then◌else◌, length, get_or, take, drop,
}

abbrev pub Text : Type 0
Text = List ℕ

abbrev pub space : ℕ
space = b' '

abbrev pub comma : ℕ
comma = b','

-- `str.find(token)`: the first position, or `npos`
unfoldable pub find : ℕ → Text → Option ℕ
find token [] = none
find token (c ∷ str) =
    if c == token then some 0 else elim (find token str) [ none ↦ none | some i ↦ some (suc i) ]

-- how often `token` occurs: the first loop of `split` adds it to `len`
unfoldable pub count : ℕ → Text → ℕ
count token [] = 0
count token (c ∷ str) = (if c == token then 1 else 0) + count token str

-- the `while(true)` of `split`; `none` means that the fuel ran out
pub split_loop : ℕ → ℕ → Text → Option (List Text)
split_loop zero token str = none
split_loop (suc fuel) token str = elim (find token str) [
  | none ↦ some (str ∷ [])
  | some i ↦ elim (split_loop fuel token (drop (suc i) str)) [
    | none ↦ none
    | some rest ↦ some (take i str ∷ rest)
  ]
]

or_nil : Option (List Text) → List Text
or_nil none = []
or_nil (some xs) = xs

-- the array `splited`; its length is `len`
pub split : Text → ℕ → List Text
unfolding split_loop or_nil
split [] token = []
split (c ∷ str) token = or_nil (split_loop (length (c ∷ str) + 1) token (c ∷ str))

-- the loop `str += token + splited[i]`
unfoldable pub merge_onto : Text → ℕ → List Text → Text
merge_onto str token [] = str
merge_onto str token (x ∷ xs) = merge_onto (str ++ token ∷ x) token xs

unfoldable pub merge : ℕ → List Text → Text
unfolding merge_onto
merge token [] = []
merge token (x ∷ xs) = merge_onto x token xs

-- the three loops of `trim`
pub skip_spaces : Text → Text
skip_spaces [] = []
skip_spaces (c ∷ str) = if c == space then skip_spaces str else c ∷ str

-- one more than the `i` at which `while(str[i] == ' ' && i >= 0) i--` stops, from `i + 1`
kept : ℕ → Text → ℕ
kept zero str = 0
kept (suc i) str = let less = kept i str in if get_or str i 0 == space then less else suc i

pub collapse : Text → Text
collapse [] = []
collapse (c ∷ []) = c ∷ []
collapse (c ∷ d ∷ str) =
    let rest = collapse (d ∷ str) in if (c == space) && (d == space) then rest else c ∷ rest

pub trim : Text → Text
unfolding skip_spaces kept collapse
trim str = let led = skip_spaces str in collapse (take (kept (length led) led) led)
