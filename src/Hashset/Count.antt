-- ===== src/Hashset/Count.antt =====
-- How often a text occurs, in a list and in a table of lists.
use muse_kv.Prelude.{
  ℕ, zero, suc, ◌+◌, ◌<◌, ◌≡◌, refl, ap, Bool, true, false, none, some, [], ◌∷◌, ◌++◌, arith,
  length, get_or, set,
}
use muse_kv.Prelude.Int.{pos}
use muse_kv.Text.{Text}
use muse_kv.Text.Equal.{◌===◌, eq_iff}
use muse_kv.LinkedList.Sequence
use muse_kv.LinkedList.Sequence.{Sequence, position, remove_at}
use muse_kv.Hashset.{Hashset}

unfoldable pub one_if : Bool → ℕ
one_if true = 1
one_if false = 0

unfoldable pub count : Text → Sequence → ℕ
unfolding one_if
count s [] = 0
count s (x ∷ xs) = one_if (x === s) + count s xs

unfoldable pub total : Text → Hashset → ℕ
total s [] = 0
total s (b ∷ table) = count s b + total s table

pub count-append : (s : Text) (xs ys : Sequence) → count s (xs ++ ys) ≡ count s xs + count s ys
unfolding count
count-append s [] ys = omega arith
count-append s (x ∷ xs) ys = omega (arith, count-append s xs ys)

-- `find` fails exactly if the text does not occur.
pub find-none-count : (s : Text) (xs : Sequence) → Sequence.find s xs ≡ none → count s xs ≡ 0
unfolding count Sequence.find
find-none-count s [] h = refl
find-none-count s (x ∷ xs) h = ground (arith, find-none-count s xs)

find_zero : (s x : Text) (xs : Sequence) → Sequence.find s (x ∷ xs) ≡ some 0 → (x === s) ≡ true
unfolding Sequence.find
find_zero s x xs h = ground arith

find-suc :
    (s x : Text) (xs : Sequence) (i : ℕ)
    → Sequence.find s (x ∷ xs) ≡ some (suc i)
    → Sequence.find s xs ≡ some i
unfolding Sequence.find
find-suc s x xs i h = ground arith

-- Where `find` points, the text stands; without it, the list has it once less.
pub find-some-count :
    (s : Text) (xs : Sequence) (i : ℕ)
    → Sequence.find s xs ≡ some i
    → (i < length xs)
      × ((q : Text) → count q (remove_at i xs) + one_if (s === q) ≡ count q xs)
      × (length (remove_at i xs) + 1 ≡ length xs)
unfolding count Sequence.find remove_at
find-some-count s [] i h = (cc, λ q. cc, cc)
find-some-count s (x ∷ xs) zero h =
    let e = (eq_iff x s).0 (find_zero s x xs h) in
    (omega arith, (λ q. rw e (omega arith)), omega arith)
find-some-count s (x ∷ xs) (suc i) h =
    let (b, counted, len) = find-some-count s xs i (find-suc s x xs i h) in
    (omega arith, (λ q. omega (arith, counted q)), omega arith)

pub del-inside : (i : ℕ) (xs : Sequence) → i < length xs → Sequence.del (pos i) xs ≡ remove_at i xs
unfolding position
del-inside i xs h = ap (λ (n : ℕ). remove_at n xs) (grind arith)

pub total-set :
    (s : Text) (table : Hashset) (i : ℕ) (b : Sequence)
    → i < length table
    → total s (set table i b) + count s (get_or table i []) ≡ total s table + count s b
unfolding total
total-set s [] i b h = absurd (omega arith)
total-set s (x ∷ table) zero b h = omega arith
total-set s (x ∷ table) (suc i) b h = omega (arith, total-set s table i b (omega arith))

-- The last text of a list that is not empty is what `pop_back` takes off.
pub pop_back-count :
    (q : Text) (x : Text) (xs : Sequence)
    → count q (Sequence.pop_back (x ∷ xs)).1 + one_if ((Sequence.pop_back (x ∷ xs)).0 === q)
      ≡ count q (x ∷ xs)
unfolding count Sequence.pop_back
pop_back-count q x [] = omega arith
pop_back-count q x (y ∷ xs) = omega (arith, pop_back-count q y xs)
