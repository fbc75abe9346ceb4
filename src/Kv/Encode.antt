-- ===== src/Kv/Encode.antt =====
-- `data_encode` undoes `data_decode`.
use mathlib.Core.List.{append_assoc, append-nil}
use muse_kv.Prelude.{◌≡◌, ◌≢◌, refl, sym, ap, ◌∙◌, List, [], ◌∷◌, ◌++◌, All}
use muse_kv.Text.{Text, comma, merge}
use muse_kv.Text.Split.{Free, split-merge}
use muse_kv.LinkedList.Sequence.{Sequence}
use muse_kv.Kv.{list, list_type, push_all, or_empty, value_of, data_decode}

push_all-append : (xs : List Text) (l : Sequence) → push_all xs l ≡ l ++ xs
unfolding push_all
push_all-append [] l = sym (append-nil l)
push_all-append (x ∷ xs) l = push_all-append xs (l ++ x ∷ []) ∙ append_assoc l (x ∷ []) xs

or_empty-same : (t : Text) → t ≢ [] → or_empty t ≡ t
unfolding or_empty
or_empty-same [] ne = absurd (ne refl)
or_empty-same (c ∷ t) ne = refl

-- A list whose texts hold no comma is decoded to a text that encodes the list, unless it prints to
-- the empty text.
pub value_of-data_decode :
    (l : Sequence)
    → All (Free comma) l
    → merge comma l ≢ []
    → value_of (data_decode (list l)) list_type ≡ list l
unfolding value_of data_decode
value_of-data_decode l f ne =
    rw (or_empty-same (merge comma l) ne, split-merge comma l f ne) (ap list (push_all-append l []))
