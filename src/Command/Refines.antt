-- ===== src/Command/Refines.antt =====
-- The handlers of src/command.cpp on a table, against what they promise for the cell of their key.
pub mod Numbers
pub mod Shapes
pub mod Run
pub mod Counts
pub mod Total
pub mod Session
pub mod Served
use muse_kv.Prelude.{
  ℕ, ◌≡◌, refl, sym, ap, ◌∙◌, subst, Bool, true, false, not, ◌&&◌, Option, none, some, List, [],
  ◌∷◌, arith, ltb, if◌then◌else◌, Bool-cases, Option-cases, inl, inr, ◌>>=◌,
}
use muse_kv.Prelude.Int.{ℤ, is_negative}
use muse_kv.Text.{Text}
use muse_kv.Text.Equal.{◌===◌, eq_iff}
use muse_kv.Text.Number.{strtoint}
use muse_kv.LinkedList.Sequence.{Sequence}
use muse_kv.Hashset.{Hashset}
use muse_kv.Hashmap.{Hashmap}
use muse_kv.Kv
use muse_kv.Kv.{Kv, Value, string, list, set, hashmap}
use muse_kv.Hash
use muse_kv.Hash.{Hash, find_node}
use muse_kv.Hash.Frame.{Frame, set-Frame, del-Frame}
use muse_kv.Hash.Laws.{
  IsTable, written, set-find_node, del-find_node, find-update_node, update_node-IsTable,
}
use muse_kv.Command.{
  Command, arg, Reply, denied, invalid_type, invalid_auth, invalid_index, no_such_key, Outcome,
  reply, with_live, unless_expired, drop_expired, with_node, permit, permit_make,
}
use muse_kv.Command.Keys
use muse_kv.Command.Lists
use muse_kv.Command.Sets
use muse_kv.Command.Maps
use muse_kv.Command.Spec.{
  Cell, Effect, allowed, live, present, typed, leveled, indexed, if_level, if_number, number_level,
  as_list, as_set, as_map, printed, may_make,
}

-- The table `h'` is `h` with another cell under the key, and well formed.
pub record Sees (key : Text) (h h' : Hash) (cell : Cell) : Type 0 where
  pub found : (j : Text) → find_node j h' ≡ (if key === j then cell else find_node j h)
  pub is : IsTable h'
  pub frame : Frame h h'

-- The handler's outcome on the table is the effect on the cell: both crash, or both give the same
-- reply.
pub data Does (key : Text) (h : Hash) (o : Outcome) (e : Effect) : Type 0 where
  crashes : o ≡ none → e ≡ none → Does key h o e
  answers :
      (r : Reply) (h' : Hash) (cell : Cell)
      → o ≡ some (r, h')
      → e ≡ some (r, cell)
      → Sees key h h' cell
      → Does key h o e

at_key :
    (key j : Text) (h : Hash) (cell : Cell)
    → find_node key h ≡ cell
    → find_node j h ≡ (if key === j then cell else find_node j h)
at_key key j h cell e = elim (Bool-cases (key === j)) [
  | inl y ↦ rw y (ap (λ (i : Text). find_node i h) (sym ((eq_iff key j).0 y)) ∙ e)
  | inr n ↦ rw n refl
]

module _ (c : Command) (h : Hash) (ok : IsTable h) where
  -- a reply that leaves the table
  pub kept :
      (cell : Cell)
      → find_node (arg c 1) h ≡ cell
      → (r : Reply) → Does (arg c 1) h (reply r h) (some (r, cell))
  kept cell here r = answers r h cell refl refl (record {
    found = λ j. at_key (arg c 1) j h cell here;
    is = ok;
    frame = record { slots = refl; first = refl; last = refl };
  })

  pub if-Does :
      (b : Bool) (x y : Outcome) (e f : Effect)
      → Does (arg c 1) h x e
      → Does (arg c 1) h y f
      → Does (arg c 1) h (if b then x else y) (if b then e else f)
  if-Does true x y e f p q = p
  if-Does false x y e f p q = q

  pub set-Does :
      (cell : Cell)
      → find_node (arg c 1) h ≡ cell
      → (r : Reply) (v : Value) (authr authw : ℕ)
      → Does
          (arg c 1)
          h
          (reply r (Hash.set (arg c 1) v authr authw h))
          (some (r, some (written (arg c 1) v authr authw cell)))
  set-Does cell here r v authr authw =
      let s = set-find_node (arg c 1) v authr authw h ok in
      answers r _ _ refl refl (record {
        found = λ j.
            s.0 j
            ∙ ap
                (λ (o : Cell).
                  if arg c 1 === j then some (written (arg c 1) v authr authw o) else find_node j h)
                here;
        is = s.1;
        frame = set-Frame (arg c 1) v authr authw h;
      })

  pub update-Does :
      (node : Kv)
      → find_node (arg c 1) h ≡ some node
      → (r : Reply) (f : Kv → Kv) → ((n : Kv) → (f n).k ≡ n.k)
      → Does (arg c 1) h (reply r (Hash.update_node (arg c 1) f h)) (some (r, some (f node)))
  update-Does node here r f keep = answers r _ _ refl refl (record {
    found = find-update_node (arg c 1) f h node keep here;
    is = update_node-IsTable (arg c 1) f h node keep here ok;
    frame = unfold Hash.update_node in record { slots = refl; first = refl; last = refl };
  })

  pub del-Does :
      (node : Kv)
      → find_node (arg c 1) h ≡ some node
      → (r : Reply) (run : Option Hash → Outcome) → ((h' : Hash) → run (some h') ≡ reply r h')
      → Does (arg c 1) h (run (Hash.del (arg c 1) h)) (some (r, none))
  del-Does node here r run k =
      let d = del-find_node (arg c 1) h node here ok in
      answers r d.after none (ap run d.runs ∙ k d.after) refl (record {
        found = d.found;
        is = d.is;
        frame = del-Frame (arg c 1) h d.after node here d.runs;
      })

  module _ (t timer : ℕ) where
    pub permit-Does :
        (cell : Cell)
        → find_node (arg c 1) h ≡ cell
        → (level : ℕ) (rest : Outcome) (e : Effect) → Does (arg c 1) h rest e
        → Does (arg c 1) h (permit c.auth level h rest) (allowed t timer c cell level e)
    unfolding permit
    permit-Does cell here level rest e d = if-Does _ _ _ _ _ (kept cell here denied) d

    pub present-Does :
        (cell : Cell)
        → find_node (arg c 1) h ≡ cell
        → (rest : Kv → Outcome) (f : Kv → Effect)
        → ((node : Kv) → cell ≡ some node → Does (arg c 1) h (rest node) (f node))
        → Does (arg c 1) h (with_node (arg c 1) h rest) (present t timer c cell cell f)
    unfolding with_node
    present-Does none here rest f d = rw (here, with_node) (kept none here (no_such_key (arg c 1)))
    present-Does (some node) here rest f d = rw (here, with_node) (d node refl)

    pub live-Does :
        (cell : Cell)
        → find_node (arg c 1) h ≡ cell
        → (rest : Kv → Outcome) (f : Kv → Effect)
        → ((node : Kv) → cell ≡ some node → Does (arg c 1) h (rest node) (f node))
        → Does (arg c 1) h (with_live (arg c 1) t h rest) (live t timer c cell f)
    unfolding with_live unless_expired
    live-Does none here rest f d = rw (here, with_live) (kept none here (no_such_key (arg c 1)))
    live-Does (some node) here rest f d =
        rw (here, with_live)
          (if-Does _ _ _ _ _
            (del-Does node here (no_such_key (arg c 1)) (drop_expired (arg c 1))
              (λ h'. unfold drop_expired in refl))
            (d node refl))

    pub make-Does :
        (cell : Cell)
        → find_node (arg c 1) h ≡ cell
        → (rest : Outcome) (e : Effect) → Does (arg c 1) h rest e
        → Does (arg c 1) h (permit_make c h rest) (may_make t timer c cell cell e)
    unfolding permit_make
    make-Does none here rest e d = rw (here, permit_make) d
    make-Does (some node) here rest e d =
        rw (here, permit_make) (permit-Does (some node) here node.authw rest e d)

    module _ (cell : Cell) (here : find_node (arg c 1) h ≡ cell) where
      pub list-Does :
          (v : Value) (rest : Sequence → Outcome) (f : Sequence → Effect)
          → ((l : Sequence) → Does (arg c 1) h (rest l) (f l))
          → Does (arg c 1) h (Lists.with_list v h rest) (typed t timer c cell (as_list v) f)
      unfolding Lists.with_list
      list-Does (list l) rest f d = d l
      list-Does (string s) rest f d = kept cell here invalid_type
      list-Does (set s) rest f d = kept cell here invalid_type
      list-Does (hashmap m) rest f d = kept cell here invalid_type

      pub gather-Does :
          (v : Value) (rest : Hashset → Outcome) (f : Hashset → Effect)
          → ((s : Hashset) → Does (arg c 1) h (rest s) (f s))
          → Does (arg c 1) h (Sets.with_set v h rest) (typed t timer c cell (as_set v) f)
      unfolding Sets.with_set
      gather-Does (set s) rest f d = d s
      gather-Does (string s) rest f d = kept cell here invalid_type
      gather-Does (list l) rest f d = kept cell here invalid_type
      gather-Does (hashmap m) rest f d = kept cell here invalid_type

      pub map-Does :
          (v : Value) (rest : Hashmap → Outcome) (f : Hashmap → Effect)
          → ((m : Hashmap) → Does (arg c 1) h (rest m) (f m))
          → Does (arg c 1) h (Maps.with_map v h rest) (typed t timer c cell (as_map v) f)
      unfolding Maps.with_map
      map-Does (hashmap m) rest f d = d m
      map-Does (string s) rest f d = kept cell here invalid_type
      map-Does (list l) rest f d = kept cell here invalid_type
      map-Does (set s) rest f d = kept cell here invalid_type

      pub print-Does :
          (v : Value) (rest : Text → Outcome) (f : Text → Effect)
          → ((str : Text) → Does (arg c 1) h (rest str) (f str))
          → Does (arg c 1) h (Sets.with_print v h rest) (typed t timer c cell (printed v) f)
      unfolding Sets.with_print
      print-Does (list l) rest f d = d _
      print-Does (set s) rest f d = d _
      print-Does (string s) rest f d = kept cell here invalid_type
      print-Does (hashmap m) rest f d = kept cell here invalid_type
