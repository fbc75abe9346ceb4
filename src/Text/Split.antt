-- ===== src/Text/Split.antt =====
-- `split` and `merge` of src/kvstore.cpp: the fuel of the loop, the bounds of the array that it
-- fills, and how the two undo each other.
use mathlib.Core.List.{append-nil, append_assoc}
use muse_kv.Prelude.{
  ℕ, zero, suc, ◌+◌, ◌<◌, ◌≡◌, ◌≢◌, refl, sym, ap, ◌∙◌, none, some, List, [], ◌∷◌, ◌++◌, arith,
  ◌==◌, if◌then◌else◌, Option-cases, Bool-cases, inl, inr, length, take, drop, length-drop, All,
}
use muse_kv.Text.{Text, find, count, split_loop, or_nil, split, merge_onto, merge}

unfoldable pub cons_head : ℕ → List Text → List Text
cons_head c [] = (c ∷ []) ∷ []
cons_head c (p ∷ ps) = (c ∷ p) ∷ ps

-- The pieces of a text between the tokens, by recursion on the text.
unfoldable pub pieces : ℕ → Text → List Text
pieces token [] = [] ∷ []
pieces token (c ∷ str) =
    let rest = pieces token str in if c == token then [] ∷ rest else cons_head c rest

find-none : (token : ℕ) (str : Text) → find token str ≡ none → pieces token str ≡ str ∷ []
unfolding find pieces cons_head
find-none token [] h = refl
find-none token (c ∷ str) h = ground (arith, find-none token str)

find-some :
    (token : ℕ) (str : Text) (i : ℕ)
    → find token str ≡ some i
    → (i < length str) × (pieces token str ≡ take i str ∷ pieces token (drop (suc i) str))
unfolding find pieces cons_head
find-some token [] i h = (cc, cc)
find-some token (c ∷ str) zero h = ground arith
find-some token (c ∷ str) (suc i) h = ground (arith, find-some token str i)

split_loop-pieces :
    (fuel token : ℕ) (str : Text)
    → length str < fuel
    → split_loop fuel token str ≡ some (pieces token str)
unfolding split_loop
split_loop-pieces zero token str h = absurd (omega arith)
split_loop-pieces (suc fuel) token str h = elim (Option-cases (find token str)) [
  | inl e ↦ ground (arith, find-none token str e)
  | inr (i, e) ↦
      let (inside, eq) = find-some token str i e in
      let ih =
        split_loop-pieces fuel token (drop (suc i) str) (omega (arith, length-drop (suc i) str)) in
      rw (e, split_loop) (ground (arith, ih, eq))
]

-- The loop of `split` never runs out of fuel, and cuts the text at each token.
pub split-pieces : (c token : ℕ) (str : Text) → split (c ∷ str) token ≡ pieces token (c ∷ str)
unfolding split
split-pieces c token str =
    rw (split_loop-pieces (length (c ∷ str) + 1) token (c ∷ str) (omega arith), or_nil)

pub pieces-cons :
    (token : ℕ) (str : Text) → (p : Text) × (ps : List Text) × (pieces token str ≡ p ∷ ps)
unfolding pieces cons_head
pieces-cons token [] = ([], [], refl)
pieces-cons token (c ∷ str) =
    let (p, ps, e) = pieces-cons token str in
    elim (Bool-cases (c == token)) [
      | inl t ↦ ([], p ∷ ps, rw (t, e))
      | inr f ↦ (c ∷ p, ps, rw (f, e))
    ]

length-pieces : (token : ℕ) (str : Text) → length (pieces token str) ≡ count token str + 1
unfolding pieces count cons_head
length-pieces token [] = refl
length-pieces token (c ∷ str) =
    let (p, ps, e) = pieces-cons token str in ground (arith, e, length-pieces token str)

-- What follows the first piece when the pieces are joined again.
glue : ℕ → List Text → Text
glue token [] = []
glue token (x ∷ xs) = token ∷ (x ++ glue token xs)

joined : ℕ → List Text → Text
joined token [] = []
joined token (x ∷ xs) = x ++ glue token xs

merge_onto-glue :
    (token : ℕ) (str : Text) (xs : List Text) → merge_onto str token xs ≡ str ++ glue token xs
unfolding merge_onto glue
merge_onto-glue token str [] = sym (append-nil str)
merge_onto-glue token str (x ∷ xs) =
    merge_onto-glue token (str ++ token ∷ x) xs ∙ append_assoc str (token ∷ x) (glue token xs)

merge-joined : (token : ℕ) (xs : List Text) → merge token xs ≡ joined token xs
unfolding merge joined
merge-joined token [] = refl
merge-joined token (x ∷ xs) = merge_onto-glue token x xs

joined-pieces : (token : ℕ) (str : Text) → joined token (pieces token str) ≡ str
unfolding pieces joined glue cons_head
joined-pieces token [] = refl
joined-pieces token (c ∷ str) =
    let (p, ps, e) = pieces-cons token str in ground (arith, e, joined-pieces token str)

-- A text that holds no token.
abbrev pub Free : ℕ → Text → Type 0
Free token str = count token str ≡ 0

pub pieces-Free : (token : ℕ) (x : Text) → Free token x → pieces token x ≡ x ∷ []
unfolding pieces cons_head count
pieces-Free token [] h = refl
pieces-Free token (c ∷ x) h = ground (arith, pieces-Free token x)

pub pieces-append :
    (token : ℕ) (x rest : Text)
    → Free token x
    → pieces token (x ++ token ∷ rest) ≡ x ∷ pieces token rest
unfolding pieces cons_head count
pieces-append token [] rest h = ground arith
pieces-append token (c ∷ x) rest h = ground (arith, pieces-append token x rest)

pieces-joined :
    (token : ℕ) (x : Text) (xs : List Text)
    → All (Free token) (x ∷ xs)
    → pieces token (joined token (x ∷ xs)) ≡ x ∷ xs
unfolding joined glue
pieces-joined token x [] h = rw (append-nil x) (pieces-Free token x h.0)
pieces-joined token x (y ∷ ys) h =
    pieces-append token x (y ++ glue token ys) h.0
    ∙ ap (λ (r : List Text). x ∷ r) (pieces-joined token y ys h.1)

-- `split` fills its array exactly: one piece more than there are tokens, which is what the first
-- loop counted into `len`.
pub length-split :
    (c token : ℕ) (str : Text) → length (split (c ∷ str) token) ≡ count token (c ∷ str) + 1
length-split c token str = rw (split-pieces c token str) (length-pieces token (c ∷ str))

pub merge-pieces : (token : ℕ) (str : Text) → merge token (pieces token str) ≡ str
merge-pieces token str = merge-joined token (pieces token str) ∙ joined-pieces token str

-- Merging what `split` returned, with the same token, gives the text back.
pub merge-split : (token : ℕ) (str : Text) → merge token (split str token) ≡ str
unfolding split merge
merge-split token [] = refl
merge-split token (c ∷ str) = rw (split-pieces c token str) (merge-pieces token (c ∷ str))

-- Splitting a merged text gives the parts back, if no part holds the token and the merged text is
-- not empty.
pub split-merge :
    (token : ℕ) (xs : List Text)
    → All (Free token) xs
    → merge token xs ≢ []
    → split (merge token xs) token ≡ xs
split-merge token [] free ne = absurd (ne (unfold merge in refl))
split-merge token (x ∷ xs) free ne = go (merge token (x ∷ xs)) refl
  where
    go : (m : Text) → merge token (x ∷ xs) ≡ m → split m token ≡ x ∷ xs
    go [] e = absurd (ne e)
    go (c ∷ m) e =
        split-pieces c token m
        ∙ ap (pieces token) (sym e ∙ merge-joined token (x ∷ xs))
        ∙ pieces-joined token x xs free
