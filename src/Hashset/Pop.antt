-- ===== src/Hashset/Pop.antt =====
-- `pop` of a set takes one element out, whichever it is, as long as there is one.
use muse_kv.Prelude.{
  ℕ, zero, suc, ◌+◌, ◌≤◌, ◌≡◌, ◌≢◌, refl, ap, ◌∙◌, [], ◌∷◌, arith, length, get_or,
}
use muse_kv.Text.{Text}
use muse_kv.Text.Equal.{◌===◌}
use muse_kv.LinkedList.Sequence
use muse_kv.LinkedList.Sequence.{Sequence}
use muse_kv.Hashset.{Hashset, pop, get_length}
use muse_kv.Hashset.Count.{one_if, count, total, pop_back-count}
use muse_kv.Hashset.Laws.{IsHashset}

length-pop_back : (x : Text) (xs : Sequence) → length (Sequence.pop_back (x ∷ xs)).1 ≡ length xs
unfolding Sequence.pop_back
length-pop_back x [] = refl
length-pop_back x (y ∷ xs) = ap suc (length-pop_back y xs)

pop-skip : (table : Hashset) → pop ([] ∷ table) ≡ ((pop table).0, [] ∷ (pop table).1)
unfolding pop
pop-skip table = refl

pop-here :
    (x : Text) (b : Sequence) (table : Hashset)
    → pop ((x ∷ b) ∷ table) ≡ ((Sequence.pop_back (x ∷ b)).0, (Sequence.pop_back (x ∷ b)).1 ∷ table)
unfolding pop
pop-here x b table = ground arith

-- One pop, on any table that is not empty.
pop-total :
    (table : Hashset)
    → get_length table ≢ 0
    → ((q : Text) → total q (pop table).1 + one_if ((pop table).0 === q) ≡ total q table)
      × (get_length (pop table).1 + 1 ≡ get_length table)
      × (length (pop table).1 ≡ length table)
      × ((q : Text) (i : ℕ) → count q (get_or (pop table).1 i []) ≤ count q (get_or table i []))
unfolding get_length total
pop-total [] ne = absurd (ne refl)
pop-total ([] ∷ table) ne =
    let (t, g, l, p) = pop-total table (λ e. ne (omega arith)) in
    rw (pop-skip table) (
      (λ q. omega (arith, t q)),
      omega arith,
      omega arith,
      λ q i.
          elim i
            as (λ j.
              count q (get_or ([] ∷ (pop table).1) j []) ≤ count q (get_or ([] ∷ table) j [])) [
                | zero ↦ omega arith
                | suc j ↦ p q j
              ],
    )
pop-total ((x ∷ b) ∷ table) ne = rw (pop-here x b table) (
  (λ q. omega (arith, pop_back-count q x b)),
  omega (arith, length-pop_back x b),
  refl,
  λ q i.
      elim i
        as (λ j.
          count q (get_or ((Sequence.pop_back (x ∷ b)).1 ∷ table) j [])
          ≤ count q (get_or ((x ∷ b) ∷ table) j [])) [
            | zero ↦ omega (arith, pop_back-count q x b)
            | suc j ↦ omega arith
          ],
)

-- A well-formed set that is not empty loses exactly the element that `pop` returns, counts one
-- less, and stays well formed.
pub pop_lem :
    (table : Hashset)
    → IsHashset table
    → get_length table ≢ 0
    → ((q : Text) → total q (pop table).1 + one_if ((pop table).0 === q) ≡ total q table)
      × (get_length (pop table).1 + 1 ≡ get_length table)
      × IsHashset (pop table).1
pop_lem table is ne =
    let (t, g, l, p) = pop-total table ne in
    (
      t,
      g,
      record {
        width = l ∙ is.width;
        once = λ q. omega (arith, t q, is.once q);
        placed = λ q i n. omega (arith, p q i, is.placed q i n);
      },
    )
