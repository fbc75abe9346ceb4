-- ===== src/Kv.antt =====
-- src/kvstore.h: a value and the class `kv`, and the conversions between values and texts of
-- src/hash.cpp, src/hashnode.cpp and src/command.cpp.
pub mod Laws
pub mod Encode
use muse_kv.Prelude.{
  Option, none, some, ℕ, ◌+◌, ◌-◌, ◌%◌, Bool, true, false, not, List, [], ◌∷◌, ◌++◌, ◌==◌, ltb,
  if◌then◌else◌,
}
use muse_kv.Prelude.Int.{ℤ, pos, negsuc, sub_ℕ, ltb_ℤ, pos_part, neg_part}
use muse_kv.Text.{Text, comma, split}
use muse_kv.LinkedList.Sequence
use muse_kv.LinkedList.Sequence.{Sequence}
use muse_kv.Hashset
use muse_kv.Hashset.{Hashset}
use muse_kv.Hashmap
use muse_kv.Hashmap.{Hashmap}

pub data Dtype : Type 0 where
  string_type list_type set_type hashmap_type : Dtype

-- `data_dtype` with the object that `data_addr` points to, which only this value owns
pub data Value : Type 0 where
  string : Text → Value
  list : Sequence → Value
  set : Hashset → Value
  hashmap : Hashmap → Value

-- `timer` is read only after `set_ttl` has written it
pub record Kv : Type 0 where
  pub k : Text
  pub v : Value
  pub ttl : ℤ
  pub timer : ℕ
  pub finished : Bool
  pub authr : ℕ
  pub authw : ℕ

-- the conversion to `uint8_t`
abbrev pub uint8 : ℕ → ℕ
uint8 n = n % 256

unfoldable pub new : Text → Value → ℕ → ℕ → Kv
new k v authr authw = record {
  k = k;
  v = v;
  ttl = negsuc 0;
  timer = 0;
  finished = false;
  authr = uint8 authr;
  authw = uint8 authw;
}

unfoldable pub is_minus_one : ℤ → Bool
is_minus_one (pos n) = false
is_minus_one (negsuc n) = n == 0

unfoldable pub is_expired : ℕ → Kv → Bool
is_expired curr_time kv =
    if kv.finished
    then true
    else if is_minus_one kv.ttl
    then false
    else not (ltb_ℤ (sub_ℕ curr_time kv.timer) kv.ttl)

-- a - b of integers
abbrev sub_ℤ : ℤ → ℤ → ℤ
sub_ℤ a b = sub_ℕ (pos_part a + neg_part b) (neg_part a + pos_part b)

unfoldable pub get_ttl : ℕ → Kv → ℤ × Kv
get_ttl curr_time kv =
    if is_minus_one kv.ttl
    then (negsuc 0, kv)
    else if is_expired curr_time kv
    then (pos 0, record kv { finished = true })
    else (sub_ℤ kv.ttl (sub_ℕ curr_time kv.timer), kv)

unfoldable pub set_v : Value → Kv → Kv
set_v v kv = record kv { v = v }

unfoldable pub set_ttl : ℤ → ℕ → Kv → Kv
set_ttl time_ex now kv = record kv { ttl = time_ex; timer = now }

unfoldable pub set_authr : ℕ → Kv → Kv
set_authr authr kv =
    let r = uint8 authr in
    if ltb kv.authw r then record kv { authr = r; authw = r } else record kv { authr = r }

unfoldable pub set_authw : ℕ → Kv → Kv
set_authw authw kv =
    let w = uint8 authw in
    if ltb w kv.authr then record kv { authr = w; authw = w } else record kv { authw = w }

-- the three loops of `data_encode`
push_all : List Text → Sequence → Sequence
push_all [] l = l
push_all (x ∷ xs) l = push_all xs (l ++ x ∷ [])

push_each : List Text → Hashset → Hashset
push_each [] s = s
push_each (x ∷ xs) s = push_each xs (Hashset.push x s)

set_pairs : List Text → Hashmap → Hashmap
set_pairs (f ∷ v ∷ xs) m = set_pairs xs (Hashmap.set_fv f v m)
set_pairs _ m = m

-- what `data_encode` returns
unfoldable pub value_of : Text → Dtype → Value
unfolding push_all push_each set_pairs
value_of str string_type = string str
value_of str list_type = list (push_all (split str comma) [])
value_of str set_type = set (push_each (split str comma) Hashset.new)
value_of str hashmap_type = hashmap (set_pairs (split str comma) Hashmap.new)

-- For the empty text `split` sets no pointer, and `delete[]` is given one that was never set: `none`.
unfoldable pub data_encode : Text → Dtype → Option Value
data_encode str string_type = some (value_of str string_type)
data_encode [] dtype = none
data_encode (c ∷ str) dtype = some (value_of (c ∷ str) dtype)

abbrev pub empty_text : Text
empty_text = b'(' ∷ b'e' ∷ b'm' ∷ b'p' ∷ b't' ∷ b'y' ∷ b')' ∷ []

unfoldable pub or_empty : Text → Text
or_empty [] = empty_text
or_empty (c ∷ str) = c ∷ str

unfoldable pub data_decode : Value → Text
unfolding or_empty
data_decode (string str) = str
data_decode (list l) = or_empty (Sequence.print l)
data_decode (set s) = or_empty (Hashset.print s)
data_decode (hashmap m) = if Hashmap.is_empty m then empty_text else Hashmap.fvs m
