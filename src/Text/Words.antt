-- ===== src/Text/Words.antt =====
-- What the command layer relies on: `trim` followed by `split` at spaces gives the words.
use muse_kv.Prelude.{
  ℕ, ◌≡◌, ◌≢◌, refl, sym, ap, ◌∙◌, true, false, ◌&&◌, List, [], ◌∷◌, ◌++◌, arith, ◌==◌, Bool-cases,
  inl, inr, All,
}
use muse_kv.Text.{Text, space, split, skip_spaces, collapse, trim}
use muse_kv.Text.Split.{Free, pieces, cons_head, pieces-cons, pieces-Free, split-pieces}
use muse_kv.Text.Trim.{
  onto, drop_trailing, trim-passes, is_space, starts_clean, ends_clean, single_spaced, trim_clean,
}

put_word : Text → List Text → List Text
put_word [] ws = ws
put_word (c ∷ w) ws = (c ∷ w) ∷ ws

keep_words : List Text → List Text
keep_words [] = []
keep_words (p ∷ ps) = put_word p (keep_words ps)

-- The words of a text: what stands between its spaces, without what is empty.
pub words : Text → List Text
words str = keep_words (pieces space str)

-- Two lists of pieces with the same first piece and the same words behind it.
record SameWords (xs ys : List Text) : Type 0 where
  front : Text
  xs_rest : List Text
  ys_rest : List Text
  xs_eq : xs ≡ front ∷ xs_rest
  ys_eq : ys ≡ front ∷ ys_rest
  rest_eq : keep_words xs_rest ≡ keep_words ys_rest

SameWords-keep_words : {xs ys : List Text} → SameWords xs ys → keep_words xs ≡ keep_words ys
unfolding keep_words
SameWords-keep_words s = rw (s.xs_eq, s.ys_eq) (ap (put_word s.front) s.rest_eq)

SameWords-refl : (str : Text) → SameWords (pieces space str) (pieces space str)
SameWords-refl str =
    let (p, ps, e) = pieces-cons space str in
    record { front = p; xs_rest = ps; ys_rest = ps; xs_eq = e; ys_eq = e; rest_eq = refl }

-- Equal words stay equal under one more character.
SameWords-cons :
    (c : ℕ) (a b : Text)
    → SameWords (pieces space a) (pieces space b)
    → SameWords (pieces space (c ∷ a)) (pieces space (c ∷ b))
unfolding pieces cons_head keep_words
SameWords-cons c a b s = elim (Bool-cases (c == space)) [
  | inl t ↦ record {
    front = [];
    xs_rest = pieces space a;
    ys_rest = pieces space b;
    xs_eq = rw t;
    ys_eq = rw t;
    rest_eq = SameWords-keep_words s;
  }
  | inr f ↦ record {
    front = c ∷ s.front;
    xs_rest = s.xs_rest;
    ys_rest = s.ys_rest;
    xs_eq = rw (f, s.xs_eq);
    ys_eq = rw (f, s.ys_eq);
    rest_eq = s.rest_eq;
  }
]

words-skip_spaces : (str : Text) → words (skip_spaces str) ≡ words str
unfolding words skip_spaces pieces keep_words put_word
words-skip_spaces [] = refl
words-skip_spaces (c ∷ str) = ground (arith, words-skip_spaces str)

SameWords-onto :
    (c : ℕ) (rest : Text) → SameWords (pieces space (onto c rest)) (pieces space (c ∷ rest))
unfolding onto pieces keep_words cons_head put_word
SameWords-onto c [] = elim (Bool-cases (c == space)) [
  | inl t ↦ record {
    front = [];
    xs_rest = [];
    ys_rest = [] ∷ [];
    xs_eq = rw t;
    ys_eq = rw t;
    rest_eq = refl;
  }
  | inr f ↦ record {
    front = c ∷ [];
    xs_rest = [];
    ys_rest = [];
    xs_eq = ground arith;
    ys_eq = ground arith;
    rest_eq = refl;
  }
]
SameWords-onto c (d ∷ rest) = SameWords-refl (c ∷ d ∷ rest)

SameWords-trans : {xs ys zs : List Text} → SameWords xs ys → SameWords ys zs → SameWords xs zs
SameWords-trans s t = record {
  front = s.front;
  xs_rest = s.xs_rest;
  ys_rest = t.ys_rest;
  xs_eq = s.xs_eq;
  ys_eq = cc (s.ys_eq, t.xs_eq, t.ys_eq);
  rest_eq = ground (arith, s.ys_eq, t.xs_eq, s.rest_eq, t.rest_eq);
}

SameWords-drop_trailing :
    (str : Text) → SameWords (pieces space (drop_trailing str)) (pieces space str)
unfolding drop_trailing
SameWords-drop_trailing [] = SameWords-refl []
SameWords-drop_trailing (c ∷ str) =
    SameWords-trans (SameWords-onto c (drop_trailing str))
      (SameWords-cons c (drop_trailing str) str (SameWords-drop_trailing str))

-- A second space in a row makes no word.
SameWords-double :
    (str : Text) (c d : ℕ)
    → is_space c ≡ true
    → is_space d ≡ true
    → SameWords (pieces space (d ∷ str)) (pieces space (c ∷ d ∷ str))
unfolding pieces cons_head keep_words put_word
SameWords-double str c d hc hd = record {
  front = [];
  xs_rest = pieces space str;
  ys_rest = [] ∷ pieces space str;
  xs_eq = rw hd;
  ys_eq = rw (hc, hd);
  rest_eq = refl;
}

SameWords-collapse : (str : Text) → SameWords (pieces space (collapse str)) (pieces space str)
unfolding collapse
SameWords-collapse [] = SameWords-refl []
SameWords-collapse (c ∷ []) = SameWords-refl (c ∷ [])
SameWords-collapse (c ∷ d ∷ str) =
    let ih = SameWords-collapse (d ∷ str) in
    elim (Bool-cases (is_space c && is_space d)) [
      | inl t ↦ rw t (SameWords-trans ih (SameWords-double str c d (ground arith) (ground arith)))
      | inr f ↦ rw f (SameWords-cons c (collapse (d ∷ str)) (d ∷ str) ih)
    ]

words-SameWords : (a b : Text) → SameWords (pieces space a) (pieces space b) → words a ≡ words b
unfolding words
words-SameWords a b s = SameWords-keep_words s

words-trim : (str : Text) → words (trim str) ≡ words str
words-trim str =
    let led = skip_spaces str in
    let body = drop_trailing led in
    ap words (trim-passes str)
    ∙ words-SameWords (collapse body) body (SameWords-collapse body)
    ∙ words-SameWords body led (SameWords-drop_trailing led)
    ∙ words-skip_spaces str

abbrev pub NonEmpty : Text → Type 0
NonEmpty p = p ≢ []

-- The pieces of a clean text that is not empty: behind the first all are words, and the first is
-- one too if the text does not start with a space.
clean-pieces :
    (c : ℕ) (str : Text)
    → ends_clean (c ∷ str) ≡ true
    → single_spaced (c ∷ str) ≡ true
    → (f : Text) × (r : List Text) × (pieces space (c ∷ str) ≡ f ∷ r)
      × (keep_words r ≡ r)
      × (is_space c ≡ false → keep_words (f ∷ r) ≡ f ∷ r)
unfolding ends_clean single_spaced pieces cons_head keep_words put_word
clean-pieces c [] e s = (c ∷ [], [], ground arith, refl, λ h. refl)
clean-pieces c (d ∷ str) e s =
    let (f, r, eq, rest, all) = clean-pieces d str e (ground arith) in
    elim (Bool-cases (is_space c)) [
      | inl t ↦ ([], f ∷ r, rw (t, eq), all (ground arith), λ h. cc)
      | inr n ↦ (c ∷ f, r, rw (n, eq), rest, λ h. rw rest)
    ]

split-clean :
    (str : Text)
    → (starts_clean str ≡ true) × (ends_clean str ≡ true) × (single_spaced str ≡ true)
    → split str space ≡ words str
unfolding words starts_clean
split-clean [] h = unfold split pieces keep_words put_word in refl
split-clean (c ∷ str) (h0, h1, h2) =
    let (f, r, eq, rest, all) = clean-pieces c str h1 h2 in
    split-pieces c space str ∙ eq ∙ sym (all (ground arith)) ∙ ap keep_words (sym eq)

-- `split(trim(com), ' ')` is the list of the words of the command line, whatever its spaces.
pub split-trim : (str : Text) → split (trim str) space ≡ words str
split-trim str = split-clean (trim str) (trim_clean str) ∙ words-trim str

keep_words-NonEmpty : (ps : List Text) → All NonEmpty (keep_words ps)
unfolding keep_words put_word
keep_words-NonEmpty [] = tt
keep_words-NonEmpty ([] ∷ ps) = keep_words-NonEmpty ps
keep_words-NonEmpty ((c ∷ p) ∷ ps) = (λ e. cc, keep_words-NonEmpty ps)

-- No argument of a command, as `split(trim(com), ' ')` gives them, is the empty text.
pub split-trim-NonEmpty : (str : Text) → All NonEmpty (split (trim str) space)
split-trim-NonEmpty str =
    rw (split-trim str) (unfold words in keep_words-NonEmpty (pieces space str))

pieces-apart : (a b : Text) → pieces space (a ++ space ∷ b) ≡ pieces space a ++ pieces space b
unfolding pieces cons_head
pieces-apart [] b = refl
pieces-apart (c ∷ a) b =
    let (p, ps, e) = pieces-cons space a in
    let ih = pieces-apart a b in
    elim (Bool-cases (c == space)) [ inl t ↦ rw (t, ih) refl | inr f ↦ rw (f, ih, e) refl ]

keep_words-append : (xs ys : List Text) → keep_words (xs ++ ys) ≡ keep_words xs ++ keep_words ys
unfolding keep_words put_word
keep_words-append [] ys = refl
keep_words-append ([] ∷ xs) ys = keep_words-append xs ys
keep_words-append ((c ∷ x) ∷ xs) ys = ap (λ (w : List Text). (c ∷ x) ∷ w) (keep_words-append xs ys)

-- The words on both sides of a space.
pub words-append : (a b : Text) → words (a ++ space ∷ b) ≡ words a ++ words b
unfolding words
words-append a b =
    ap keep_words (pieces-apart a b) ∙ keep_words-append (pieces space a) (pieces space b)

-- A text without spaces that is not empty is its own only word.
pub words-Free : (w : Text) → Free space w → w ≢ [] → words w ≡ w ∷ []
unfolding words keep_words put_word
words-Free [] f ne = absurd (ne refl)
words-Free (c ∷ w) f ne = rw (pieces-Free space (c ∷ w) f) refl

pub words-nil : words [] ≡ []
unfolding words pieces keep_words put_word
words-nil = refl
