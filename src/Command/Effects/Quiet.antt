-- ===== src/Command/Effects/Quiet.antt =====
-- Handlers of src/command.cpp that leave the store as it is, put together from their steps.
use muse_kv.Prelude.{
  ℕ, ◌≡◌, ◌≢◌, ◌⊎◌, refl, sym, ap, ◌∙◌, Bool, true, false, none, some, [], if◌then◌else◌,
  Bool-cases, Option-cases, inl, inr,
}
use muse_kv.Text.{Text}
use muse_kv.Text.Equal.{◌===◌, eq_iff}
use muse_kv.Prelude.Int.{ℤ}
use muse_kv.LinkedList.Sequence.{Sequence}
use muse_kv.Hashmap.{Hashmap}
use muse_kv.Kv
use muse_kv.Kv.{Kv, Value, string, list, set, hashmap}
use muse_kv.Hash
use muse_kv.Hash.{Hash}
use muse_kv.Hash.Laws.{IsTable, del-find_node}
use muse_kv.Command.{
  Reply, denied, invalid_index, no_such_key, Outcome, reply, with_live, unless_expired,
  drop_expired, permit,
}
use muse_kv.Command.Lists
use muse_kv.Command.Sets
use muse_kv.Command.Maps
use muse_kv.Command.Spec.{printed}
use muse_kv.Command.Access.{with_live-live, strtoint-some}

-- A key is as it was, or had expired and is gone.
abbrev pub Lasts : ℕ → Hash → Hash → Text → Type 0
Lasts t h h' k =
    (Hash.find_node k h' ≡ Hash.find_node k h)
    ⊎ ((node : Kv) × (Hash.find_node k h ≡ some node)
        × (Kv.is_expired t node ≡ true)
        × (Hash.find_node k h' ≡ none))

-- The handler answers and leaves a well-formed table in which every key lasts.
pub record Quiet (t : ℕ) (h : Hash) (o : Outcome) : Type 0 where
  pub answer : Reply
  pub after : Hash
  pub runs : o ≡ some (answer, after)
  pub is : IsTable after
  pub lasts : (k : Text) → Lasts t h after k

module _ (t : ℕ) (h : Hash) (ok : IsTable h) where
  pub kept : (r : Reply) → Quiet t h (reply r h)
  kept r = record { answer = r; after = h; runs = refl; is = ok; lasts = λ k. inl refl }

  pub if-Quiet :
      (b : Bool) (x y : Outcome) → Quiet t h x → Quiet t h y → Quiet t h (if b then x else y)
  if-Quiet true x y p q = p
  if-Quiet false x y p q = q

  pub permit-Quiet :
      (auth level : ℕ) (rest : Outcome) → Quiet t h rest → Quiet t h (permit auth level h rest)
  unfolding permit
  permit-Quiet auth level rest q = if-Quiet _ _ _ (kept denied) q

  pub list-Quiet :
      (v : Value) (rest : Sequence → Outcome)
      → ((l : Sequence) → Quiet t h (rest l))
      → Quiet t h (Lists.with_list v h rest)
  unfolding Lists.with_list
  list-Quiet (list l) rest k = k _
  list-Quiet (string s) rest k = kept _
  list-Quiet (set s) rest k = kept _
  list-Quiet (hashmap m) rest k = kept _

  pub map-Quiet :
      (v : Value) (rest : Hashmap → Outcome)
      → ((m : Hashmap) → Quiet t h (rest m))
      → Quiet t h (Maps.with_map v h rest)
  unfolding Maps.with_map
  map-Quiet (list l) rest k = kept _
  map-Quiet (string s) rest k = kept _
  map-Quiet (set s) rest k = kept _
  map-Quiet (hashmap m) rest k = k _

  pub print-Quiet :
      (v : Value) (rest : Text → Outcome)
      → ((str : Text) → printed v ≡ some str → Quiet t h (rest str))
      → Quiet t h (Sets.with_print v h rest)
  unfolding Sets.with_print
  print-Quiet (list l) rest k = k _ refl
  print-Quiet (string s) rest k = kept _
  print-Quiet (set s) rest k = k _ refl
  print-Quiet (hashmap m) rest k = kept _

  expired-Quiet :
      (k : Text) (rest : Kv → Outcome) (node : Kv)
      → Hash.find_node k h ≡ some node
      → Kv.is_expired t node ≡ true
      → Quiet t h (with_live k t h rest)
  unfolding with_live unless_expired drop_expired
  expired-Quiet k rest node e x =
      let d = del-find_node k h node e ok in
      record {
        answer = no_such_key k;
        after = d.after;
        runs = rw (e, x, d.runs, with_live, unless_expired, drop_expired) refl;
        is = d.is;
        lasts = λ j. elim (Bool-cases (k === j)) [
          | inl y ↦ inr (
            node,
            ap (λ (i : Text). Hash.find_node i h) (sym ((eq_iff k j).0 y)) ∙ e,
            x,
            d.found j ∙ rw y refl,
          )
          | inr n ↦ inl (d.found j ∙ rw n refl)
        ];
      }

  pub live-Quiet :
      (k : Text) (rest : Kv → Outcome)
      → ((node : Kv)
          → Hash.find_node k h ≡ some node
          → Kv.is_expired t node ≡ false
          → Quiet t h (rest node))
      → Quiet t h (with_live k t h rest)
  unfolding with_live
  live-Quiet k rest q = elim (Option-cases (Hash.find_node k h)) [
    | inl e ↦ rw (e, with_live) (kept (no_such_key k))
    | inr (node, e) ↦ elim (Bool-cases (Kv.is_expired t node)) [
      | inl x ↦ expired-Quiet k rest node e x
      | inr x ↦ rw (with_live-live k t h rest node e x) (q node e x)
    ]
  ]

  invalid-Quiet :
      (r : Bool × ℤ) (rest : ℤ → Outcome)
      → ((z : ℤ) → Quiet t h (rest z))
      → Quiet t h (Lists.or_invalid h rest r)
  unfolding Lists.or_invalid
  invalid-Quiet (true, z) rest q = q z
  invalid-Quiet (false, z) rest q = kept invalid_index

  pub index-Quiet :
      (str : Text) (rest : ℤ → Outcome)
      → str ≢ []
      → ((z : ℤ) → Quiet t h (rest z))
      → Quiet t h (Lists.with_index str h rest)
  unfolding Lists.with_index
  index-Quiet str rest ne q =
      let (r, e) = strtoint-some str ne in rw (e, Lists.with_index) (invalid-Quiet r rest q)
