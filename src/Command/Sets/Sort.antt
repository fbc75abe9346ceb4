-- ===== src/Command/Sets/Sort.antt =====
-- `std::sort` on an array of `std::string`: ordered by bytes, with the same elements.
use muse_kv.Prelude.{
  ◌≡◌, refl, ◌∙◌, Bool, true, false, List, [], ◌∷◌, arith, ◌==◌, ltb, if◌then◌else◌, Bool-cases,
  inl, inr,
}
use muse_kv.Text.{Text}
use muse_kv.Hashset.Count.{count}

unfoldable pub text_leb : Text → Text → Bool
text_leb [] t = true
text_leb (c ∷ s) [] = false
text_leb (c ∷ s) (d ∷ t) =
    let rest = text_leb s t in if ltb c d then true else if c == d then rest else false

insert : Text → List Text → List Text
insert x [] = x ∷ []
insert x (y ∷ ys) = if text_leb x y then x ∷ y ∷ ys else y ∷ insert x ys

unfoldable pub sort_texts : List Text → List Text
unfolding insert
sort_texts [] = []
sort_texts (x ∷ xs) = insert x (sort_texts xs)

abbrev pub IsSorted : List Text → Type 0
IsSorted [] = Unit
IsSorted (x ∷ []) = Unit
IsSorted (x ∷ y ∷ xs) = (text_leb x y ≡ true) × IsSorted (y ∷ xs)

text_leb_total : (s t : Text) → text_leb s t ≡ false → text_leb t s ≡ true
unfolding text_leb
text_leb_total [] t h = cc
text_leb_total (c ∷ s) [] h = refl
text_leb_total (c ∷ s) (d ∷ t) h = ground (arith, text_leb_total s t)

insert-IsSorted : (x : Text) (ys : List Text) → IsSorted ys → IsSorted (insert x ys)
unfolding insert
insert-IsSorted x [] h = tt
insert-IsSorted x (y ∷ []) h = elim (Bool-cases (text_leb x y)) [
  | inl e ↦ rw e (e, tt)
  | inr n ↦ rw n (text_leb_total x y n, tt)
]
insert-IsSorted x (y ∷ z ∷ ys) h = elim (Bool-cases (text_leb x y)) [
  | inl e ↦ rw e (e, h)
  | inr n ↦ rw n (elim (Bool-cases (text_leb x z)) [
    | inl e ↦ rw e (text_leb_total x y n, rw e at (insert-IsSorted x (z ∷ ys) h.1))
    | inr m ↦ rw m (h.0, rw m at (insert-IsSorted x (z ∷ ys) h.1))
  ])
]

count-insert : (q x : Text) (ys : List Text) → count q (insert x ys) ≡ count q (x ∷ ys)
unfolding insert count
count-insert q x [] = refl
count-insert q x (y ∷ ys) = elim (Bool-cases (text_leb x y)) [
  | inl e ↦ rw e
  | inr n ↦ rw n (omega (arith, count-insert q x ys))
]

-- The texts that `sort` orders come out in order by bytes, each as often as before.
pub sort_texts_lem :
    (xs : List Text)
    → IsSorted (sort_texts xs) × ((q : Text) → count q (sort_texts xs) ≡ count q xs)
unfolding sort_texts count
sort_texts_lem [] = (tt, λ q. refl)
sort_texts_lem (x ∷ xs) =
    let (s, c) = sort_texts_lem xs in
    (
      insert-IsSorted x (sort_texts xs) s,
      λ q. count-insert q x (sort_texts xs) ∙ omega (arith, c q),
    )
