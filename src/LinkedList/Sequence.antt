-- ===== src/LinkedList/Sequence.antt =====
-- What a list promises, without pointers: its operations on the contents from the head on.
use mathlib.Core.Option
use muse_kv.Prelude.{
  ℕ, zero, suc, ◌+◌, ◌-◌, ◌%◌, Bool, true, false, Option, none, some, List, [], ◌∷◌, ◌++◌, ◌==◌,
  if◌then◌else◌, length, get_or,
}
use muse_kv.Prelude
use muse_kv.Prelude.Int.{ℤ, pos, negsuc, negated}
use muse_kv.Text.{Text, comma, merge}
use muse_kv.Text.Equal.{◌===◌}

abbrev pub Sequence : Type 0
Sequence = List Text

abbrev pub is_empty : Sequence → Bool
is_empty [] = true
is_empty (x ∷ xs) = false

-- An empty list gives the empty text.
unfoldable pub pop_front : Sequence → Text × Sequence
pop_front [] = ([], [])
pop_front (x ∷ xs) = (x, xs)

unfoldable pub pop_back : Sequence → Text × Sequence
pop_back [] = ([], [])
pop_back (x ∷ []) = (x, [])
pop_back (x ∷ y ∷ xs) = let (res, rest) = pop_back (y ∷ xs) in (res, x ∷ rest)

unfoldable pub find : Text → Sequence → Option ℕ
find s [] = none
find s (x ∷ xs) = let rest = find s xs in if x === s then some 0 else Option.map suc rest

-- An index counts round the list, a negative one backwards from the head.
unfoldable pub position : ℤ → ℕ → ℕ
position (pos i) n = i % n
position (negsuc i) n = let back = negated i % n in if back == 0 then 0 else n - back

unfoldable pub remove_at {ℓ} : {A : Type ℓ} → ℕ → List A → List A
remove_at i [] = []
remove_at zero (x ∷ xs) = xs
remove_at (suc i) (x ∷ xs) = x ∷ remove_at i xs

abbrev pub get : ℤ → Sequence → Text
get index xs = get_or xs (position index (length xs)) []

abbrev pub set : ℤ → Text → Sequence → Sequence
set index s xs = Prelude.set xs (position index (length xs)) s

abbrev pub del : ℤ → Sequence → Sequence
del index xs = remove_at (position index (length xs)) xs

abbrev pub print : Sequence → Text
print xs = merge comma xs
