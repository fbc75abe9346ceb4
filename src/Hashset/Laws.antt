-- ===== src/Hashset/Laws.antt =====
-- The table is a set: a text stands in it once, in the list that its hash names.
use muse_kv.Prelude.{
  ℕ, zero, suc, ◌+◌, ◌≤◌, ◌<◌, ◌≡◌, ◌≢◌, refl, ap, ◌∙◌, true, ◌&&◌, none, some, [], ◌∷◌, ◌++◌,
  arith, if◌then◌else◌, length, get_or, set, replicate, Option-cases, inl, inr, length-set,
  get_or-set_self, get_or-set_ne, get_or-replicate, length-append, ltb,
}
use native.Mathlib.Decide.{ℕ_discrete}
use muse_kv.Text.{Text}
use muse_kv.Text.Equal.{◌===◌, eq_iff, eq_refl}
use muse_kv.Hashing.{hash_loop, reduce-lt}
use muse_kv.LinkedList.Sequence
use muse_kv.LinkedList.Sequence.{Sequence, remove_at}
use muse_kv.Hashset.{Hashset, table_s, new, hash_func, push, del, get_length}
use muse_kv.Hashset.Count.{
  one_if, count, total, count-append, find-none-count, find-some-count, del-inside, total-set,
}

-- A hash is always an index of the table.
pub hash_func-lt : (str : Text) → hash_func str < 97
unfolding hash_func
hash_func-lt str = reduce-lt (hash_loop 96 53 0 str) 97 (omega arith)

pub record IsHashset (table : Hashset) : Type 0 where
  pub width : length table ≡ table_s
  pub once : (q : Text) → total q table ≤ 1
  pub placed : (q : Text) (i : ℕ) → i ≢ hash_func q → count q (get_or table i []) ≡ 0

total_zero :
    (q : Text) (table : Hashset) → ((i : ℕ) → count q (get_or table i []) ≡ 0) → total q table ≡ 0
unfolding total
total_zero q [] z = refl
total_zero q (b ∷ table) z = omega (arith, z 0, total_zero q table (λ i. z (suc i)))

count-nil : (q : Text) → count q [] ≡ 0
unfolding count
count-nil q = refl

count-single : (q c : Text) → count q (c ∷ []) ≡ one_if (c === q)
unfolding count
count-single q c = omega arith

total-ge-count :
    (q : Text) (table : Hashset) (i : ℕ)
    → i < length table
    → count q (get_or table i []) ≤ total q table
total-ge-count q table i h = omega (arith, total-set q table i [] h, count-nil q)

-- `get_length` after one list is replaced.
length-set_list :
    (table : Hashset) (i : ℕ) (b : Sequence)
    → i < length table
    → get_length (set table i b) + length (get_or table i []) ≡ get_length table + length b
unfolding get_length
length-set_list [] i b h = absurd (omega arith)
length-set_list (x ∷ table) zero b h = omega arith
length-set_list (x ∷ table) (suc i) b h = omega (arith, length-set_list table i b (omega arith))

push-new :
    (c : Text) (table : Hashset)
    → Sequence.find c (get_or table (hash_func c) []) ≡ none
    → push c table ≡ set table (hash_func c) (get_or table (hash_func c) [] ++ c ∷ [])
unfolding push
push-new c table e = rw (e, push)

push-old :
    (c : Text) (table : Hashset) (k : ℕ)
    → Sequence.find c (get_or table (hash_func c) []) ≡ some k
    → push c table ≡ table
unfolding push
push-old c table k e = rw (e, push)

del-here :
    (c : Text) (b : Sequence) (table : Hashset) (k : ℕ)
    → Sequence.find c b ≡ some k
    → k < length b
    → del c (b ∷ table) ≡ (true, remove_at k b ∷ table)
unfolding del
del-here c b table k e h = rw (e, del) (ap (λ (r : Sequence). (true, r ∷ table)) (del-inside k b h))

del-later :
    (c : Text) (b : Sequence) (table : Hashset)
    → Sequence.find c b ≡ none
    → del c (b ∷ table) ≡ ((del c table).0, b ∷ (del c table).1)
unfolding del
del-later c b table e = rw (e, del)

module _ (c : Text) (table : Hashset) (is : IsHashset table) where
  inside : hash_func c < length table
  inside = rw is.width (hash_func-lt c)

  absent-total : count c (get_or table (hash_func c) []) ≡ 0 → total c table ≡ 0
  absent-total z =
      total_zero c table
        (λ i. elim (ℕ_discrete i (hash_func c)) [ yes e ↦ rw e z | no n ↦ is.placed c i n ])

  apart : (q : Text) → hash_func c ≢ hash_func q → one_if (c === q) ≡ 0
  unfolding one_if
  apart q n = ground (arith, eq_iff c q, ap hash_func)

  placed-push :
      (q : Text) (j : ℕ)
      → j ≢ hash_func q
      → count q (get_or (set table (hash_func c) (get_or table (hash_func c) [] ++ c ∷ [])) j [])
        ≡ 0
  placed-push q j n =
      let i = hash_func c in
      let bucket = get_or table i [] in
      elim (ℕ_discrete i j) [
        | yes e ↦
            rw (← e, get_or-set_self table i (bucket ++ c ∷ []) [] inside)
              (omega (
                arith,
                count-append q bucket (c ∷ []),
                count-single q c,
                is.placed q i (rw (← e) at n),
                apart q (rw (← e) at n),
              ))
        | no d ↦ rw (get_or-set_ne table i j (bucket ++ c ∷ []) [] d) (is.placed q j n)
      ]

  -- On a well-formed set, after a push the text is there once and every other text as often as
  -- before, the length has grown by one unless the text was there, and the set is well formed.
  pub push_lem :
      ((q : Text) → total q (push c table) ≡ (if c === q then 1 else total q table))
      × (get_length (push c table) + total c table ≡ get_length table + 1)
      × IsHashset (push c table)
  push_lem =
      let i = hash_func c in
      let bucket = get_or table i [] in
      elim (Option-cases (Sequence.find c bucket)) [
        | inl e ↦
            let z = find-none-count c bucket e in
            let t0 = absent-total z in
            let grown : (q : Text)
                → total q (set table i (bucket ++ c ∷ [])) ≡ total q table + one_if (c === q) =
              λ q. omega (
                arith,
                total-set q table i (bucket ++ c ∷ []) inside,
                count-append q bucket (c ∷ []),
                count-single q c,
              ) in
            let law : (q : Text)
                → total q (set table i (bucket ++ c ∷ []))
                  ≡ (if c === q then 1 else total q table) =
              λ q. unfold one_if in ground (arith, grown q, eq_iff c q, t0) in
            rw (push-new c table e) (
              law,
              omega (
                arith,
                length-set_list table i (bucket ++ c ∷ []) inside,
                length-append bucket (c ∷ []),
                t0,
              ),
              record {
                width = length-set table i (bucket ++ c ∷ []) ∙ is.width;
                once = λ q. ground (arith, law q, is.once q);
                placed = λ q j n. placed-push q j n;
              },
            )
        | inr (k, e) ↦
            let found = (find-some-count c bucket k e).1 c in
            let t1 : total c table ≡ 1 =
              unfold one_if in
              omega (arith, is.once c, total-ge-count c table i inside, rw eq_refl at found) in
            rw (push-old c table k e) ((λ q. ground (arith, eq_iff c q, t1)), omega (arith, t1), is)
      ]

-- Deleting, on any table: the text goes once if it is there, nothing else changes.
del-total :
    (c : Text) (table : Hashset)
    → ((q : Text) → total q (del c table).1 + one_if ((c === q) && (del c table).0) ≡ total q table)
      × ((del c table).0 ≡ ltb 0 (total c table))
      × (length (del c table).1 ≡ length table)
      × ((q : Text) (i : ℕ) → count q (get_or (del c table).1 i []) ≤ count q (get_or table i []))
unfolding total one_if
del-total c [] = unfold del in ((λ q. ground arith), refl, refl, λ q i. omega arith)
del-total c (b ∷ table) =
    let (t, f, l, p) = del-total c table in
    elim (Option-cases (Sequence.find c b)) [
      | inl e ↦ rw (del-later c b table e) (
        (λ q. omega (arith, t q)),
        ground (arith, find-none-count c b e, f),
        omega (arith, l),
        λ q i.
            elim i
              as (λ j.
                count q (get_or (b ∷ (del c table).1) j []) ≤ count q (get_or (b ∷ table) j [])) [
                  | zero ↦ omega arith
                  | suc j ↦ p q j
                ],
      )
      | inr (k, e) ↦
          let (inside, counted, len) = find-some-count c b k e in
          rw (del-here c b table k e inside) (
            (λ q. ground (arith, counted q)),
            ground (arith, rw eq_refl at (counted c)),
            refl,
            λ q i.
                elim i
                  as (λ j.
                    count q (get_or (remove_at k b ∷ table) j [])
                    ≤ count q (get_or (b ∷ table) j [])) [
                      | zero ↦ omega (arith, counted q)
                      | suc j ↦ omega arith
                    ],
          )
    ]

-- On a well-formed set, deleting a text reports whether it was there, removes it, keeps all else,
-- and leaves a well-formed set.
pub del_lem :
    (c : Text) (table : Hashset)
    → IsHashset table
    → ((del c table).0 ≡ ltb 0 (total c table))
      × ((q : Text) → total q (del c table).1 ≡ (if c === q then 0 else total q table))
      × IsHashset (del c table).1
del_lem c table is =
    let (t, f, l, p) = del-total c table in
    let law : (q : Text) → total q (del c table).1 ≡ (if c === q then 0 else total q table) =
      λ q. unfold one_if in ground (arith, t q, f, eq_iff c q, is.once q) in
    (
      f,
      law,
      record {
        width = l ∙ is.width;
        once = λ q. ground (arith, law q, is.once q);
        placed = λ q i n. omega (arith, p q i, is.placed q i n);
      },
    )

-- `new` is a set of nothing.
total-replicate : (q : Text) (n : ℕ) → total q (replicate n []) ≡ 0
unfolding total count
total-replicate q zero = refl
total-replicate q (suc n) = omega (arith, total-replicate q n)

pub new-IsHashset : ((q : Text) → total q new ≡ 0) × IsHashset new
unfolding new
new-IsHashset = (
  λ q. total-replicate q table_s,
  record {
    width = refl;
    once = λ q. rw (total-replicate q table_s) (omega arith);
    placed = λ q i n. rw (get_or-replicate table_s i) (count-nil q);
  },
)
