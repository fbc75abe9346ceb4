-- ===== src/Command/Access.antt =====
-- What the levels of a key protect: the handlers of src/command.cpp.
pub mod Writes
pub mod Reads
use muse_kv.Prelude.{
  ℕ, ◌<◌, ◌≡◌, ◌≢◌, refl, ◌∙◌, Bool, true, false, Option, none, some, List, [], ◌∷◌, arith, ltb,
  if◌then◌else◌, Bool-cases, Option-cases, inl, inr,
}
use muse_kv.Text.{Text}
use muse_kv.Text.Number.{strtoint}
use muse_kv.Prelude.Int.{ℤ}
use muse_kv.LinkedList.Sequence.{Sequence}
use muse_kv.Hashset.{Hashset}
use muse_kv.Hashmap.{Hashmap}
use muse_kv.Kv
use muse_kv.Kv.{Kv, Value, string, list, set, hashmap}
use muse_kv.Hash
use muse_kv.Hash.{Hash}
use muse_kv.Command.{
  Command, num_args, arg, Reply, denied, invalid_type, invalid_auth, invalid_time, Outcome, reply,
  with_live, unless_expired, with_node, permit, permit_make, invalid_command,
}
use muse_kv.Command.Keys
use muse_kv.Command.Lists
use muse_kv.Command.Sets
use muse_kv.Command.Maps
use muse_kv.Command.Dispatch
use muse_kv.Command.Dispatch.{Op, Kind, read_kind, write_kind, op_kind, run}

-- The handler answers and leaves the store as it is.
abbrev pub Keeps : Hash → Outcome → Type 0
Keeps h o = (r : Reply) × (o ≡ some (r, h))

-- The key is there, has not expired, and needs a level that the client does not have.
pub record Guarded (curr_time : ℕ) (c : Command) (h : Hash) (level : Kv → ℕ) : Type 0 where
  pub node : Kv
  pub found : Hash.find_node (arg c 1) h ≡ some node
  pub live : Kv.is_expired curr_time node ≡ false
  pub above : ltb c.auth (level node) ≡ true

pub with_live-live :
    (k : Text) (curr_time : ℕ) (h : Hash) (rest : Kv → Outcome) (node : Kv)
    → Hash.find_node k h ≡ some node
    → Kv.is_expired curr_time node ≡ false
    → with_live k curr_time h rest ≡ rest node
unfolding with_live unless_expired
with_live-live k curr_time h rest node e live = rw (e, live, with_live, unless_expired) refl

pub permit-denied :
    (auth level : ℕ) (h : Hash) (rest : Outcome)
    → ltb auth level ≡ true
    → Keeps h (permit auth level h rest)
unfolding permit
permit-denied auth level h rest e = rw e (denied, refl)

pub with_list-Keeps :
    (v : Value) (h : Hash) (rest : Sequence → Outcome)
    → ((l : Sequence) → Keeps h (rest l))
    → Keeps h (Lists.with_list v h rest)
unfolding Lists.with_list
with_list-Keeps (list l) h rest k = k l
with_list-Keeps (string s) h rest k = (invalid_type, refl)
with_list-Keeps (set s) h rest k = (invalid_type, refl)
with_list-Keeps (hashmap m) h rest k = (invalid_type, refl)

pub with_set-Keeps :
    (v : Value) (h : Hash) (rest : Hashset → Outcome)
    → ((l : Hashset) → Keeps h (rest l))
    → Keeps h (Sets.with_set v h rest)
unfolding Sets.with_set
with_set-Keeps (list l) h rest k = (invalid_type, refl)
with_set-Keeps (string s) h rest k = (invalid_type, refl)
with_set-Keeps (set s) h rest k = k s
with_set-Keeps (hashmap m) h rest k = (invalid_type, refl)

pub with_map-Keeps :
    (v : Value) (h : Hash) (rest : Hashmap → Outcome)
    → ((l : Hashmap) → Keeps h (rest l))
    → Keeps h (Maps.with_map v h rest)
unfolding Maps.with_map
with_map-Keeps (list l) h rest k = (invalid_type, refl)
with_map-Keeps (string s) h rest k = (invalid_type, refl)
with_map-Keeps (set s) h rest k = (invalid_type, refl)
with_map-Keeps (hashmap m) h rest k = k m

pub if-Keeps :
    (b : Bool) (h : Hash) (x y : Outcome) → Keeps h x → Keeps h y → Keeps h (if b then x else y)
if-Keeps true h x y p q = p
if-Keeps false h x y p q = q

pub permit-Keeps :
    (auth level : ℕ) (h : Hash) (rest : Outcome) → Keeps h rest → Keeps h (permit auth level h rest)
unfolding permit
permit-Keeps auth level h rest k = if-Keeps (ltb auth level) h _ rest (denied, refl) k

pub strtoint-some : (str : Text) → str ≢ [] → (r : Bool × ℤ) × (strtoint str ≡ some r)
unfolding strtoint
strtoint-some [] ne = absurd (ne refl)
strtoint-some (x ∷ xs) ne = (_, refl)

pub with_level-Keeps :
    (str : Text) (h : Hash) (rest : ℕ → Outcome)
    → str ≢ []
    → ((n : ℕ) → Keeps h (rest n))
    → Keeps h (Keys.with_level str h rest)
unfolding Keys.with_level
with_level-Keeps str h rest ne k =
    let (r, e) = strtoint-some str ne in
    rw (e, Keys.with_level) (if-Keeps _ h _ _ (invalid_auth, refl) (k _))

module _ (curr_time : ℕ) (c : Command) (h : Hash) (level : Kv → ℕ)
    (g : Guarded curr_time c h level) where
  pub live :
      (rest : Kv → Outcome) → Keeps h (rest g.node) → Keeps h (with_live (arg c 1) curr_time h rest)
  live rest k = rw (with_live-live (arg c 1) curr_time h rest g.node g.found g.live) k

  pub node : (rest : Kv → Outcome) → Keeps h (rest g.node) → Keeps h (with_node (arg c 1) h rest)
  unfolding with_node
  node rest k = rw (g.found, with_node) k

  pub denies : (rest : Outcome) → Keeps h (permit c.auth (level g.node) h rest)
  denies rest = permit-denied c.auth (level g.node) h rest g.above
