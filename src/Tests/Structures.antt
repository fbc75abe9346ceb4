-- ===== src/Tests/Structures.antt =====
-- A list of two nodes, small sets and small maps.
use muse_kv.Prelude.{
  ◌+◌, ◌≡◌, ◌≢◌, refl, true, ◌||◌, ◌==◌, none, some, List, [], ◌∷◌, ◌++◌, ltb, if◌then◌else◌, arith,
}
use muse_kv.Prelude.Int.{pos, negsuc}
use muse_kv.Text.{Text}
use muse_kv.Text.Equal.{◌===◌}
use muse_kv.LinkedList.{
  Heap, LinkedList, push_back, destroy, push_front, pop_back, pop_front, find, print, get, del,
}
use muse_kv.LinkedList.Sequence
use muse_kv.LinkedList.Destroy.{destroy_ends}
use muse_kv.LinkedList.{set}
use muse_kv.LinkedList.Set.{Writes, set_refines}
use muse_kv.LinkedList.Refines.{
  IsList, Yields, Grows, push_refines, pop_refines, read_refines, get_refines, del_refines,
}
use muse_kv.Hashset
use muse_kv.Hashset.{Hashset}
use muse_kv.Hashset.Count.{total, one_if}
use muse_kv.Hashset.Laws.{IsHashset, push_lem, del_lem, new-IsHashset}
use muse_kv.Hashset.Pop.{pop_lem}
use muse_kv.Hashmap
use muse_kv.Hashmap.{Hashmap}
use muse_kv.Hashmap.Laws.{IsMap, Deleted, lookup, set_fv_lem, del_fv_lem, new-IsMap}
use muse_kv.Command.Dispatch.{codes}

-- nodes at 7 and 9, the first with a, the second with b
abbrev heap : Heap
heap = record {
  live = λ p. (p == 7) || (p == 9);
  content = λ p. if p == 7 then codes "a" else codes "b";
  prev_ptr = λ p. if p == 7 then 9 else 7;
  next_ptr = λ p. if p == 7 then 9 else 7;
}

abbrev two : LinkedList
two = record { head = 7; length = 2 }

abbrev texts : List Text
texts = codes "a" ∷ codes "b" ∷ []

two-IsList : IsList heap two texts
two-IsList = record {
  nodes = 7 ∷ 9 ∷ [];
  ring = (
    refl,
    refl,
    (refl, refl, (refl, refl)),
    (refl, (refl, tt)),
    (omega arith, refl, (omega arith, refl, tt)),
  );
  holds = refl;
}

destroy_ends_example : Grows (destroy two heap) []
destroy_ends_example = destroy_ends heap two texts two-IsList

push_refines_example :
    Grows (push_back 11 (codes "c") two heap) (texts ++ codes "c" ∷ [])
    × Grows (push_front 11 (codes "c") two heap) (codes "c" ∷ texts)
push_refines_example = push_refines heap two 11 (codes "c") texts (omega arith) refl two-IsList

pop_refines_example :
    Yields (pop_back two heap) (Sequence.pop_back texts).0 (Sequence.pop_back texts).1
    × Yields (pop_front two heap) (Sequence.pop_front texts).0 (Sequence.pop_front texts).1
pop_refines_example = pop_refines heap two texts two-IsList

read_refines_example :
    (find (codes "b") two heap ≡ some (Sequence.find (codes "b") texts, heap))
    × (print two heap ≡ some (Sequence.print texts, heap))
read_refines_example = read_refines heap two texts (codes "b") two-IsList

get_refines_example : get (negsuc 0) two heap ≡ some (Sequence.get (negsuc 0) texts, heap)
get_refines_example = get_refines heap two texts (negsuc 0) two-IsList (λ e. ground (arith, e))

set_refines_example :
    Writes two (set (negsuc 0) (codes "z") two heap) (Sequence.set (negsuc 0) (codes "z") texts)
set_refines_example =
    set_refines heap two (negsuc 0) (codes "z") texts two-IsList (λ e. ground (arith, e))

del_refines_example : Yields (del (pos 3) two heap) true (Sequence.del (pos 3) texts)
del_refines_example = del_refines heap two (pos 3) texts two-IsList (λ e. ground (arith, e))

abbrev fig : Text
fig = codes "fig"

abbrev basket : Hashset
basket = Hashset.push fig Hashset.new

basket-IsHashset : IsHashset basket
basket-IsHashset = (push_lem fig Hashset.new new-IsHashset.1).2

push_lem_example :
    ((q : Text) → total q (Hashset.push fig basket) ≡ (if fig === q then 1 else total q basket))
    × (Hashset.get_length (Hashset.push fig basket) + total fig basket
        ≡ Hashset.get_length basket + 1)
    × IsHashset (Hashset.push fig basket)
push_lem_example = push_lem fig basket basket-IsHashset

del_lem_example :
    ((Hashset.del fig basket).0 ≡ ltb 0 (total fig basket))
    × ((q : Text) → total q (Hashset.del fig basket).1 ≡ (if fig === q then 0 else total q basket))
    × IsHashset (Hashset.del fig basket).1
del_lem_example = del_lem fig basket basket-IsHashset

basket-full : Hashset.get_length basket ≢ 0
basket-full e =
    let lengths = (push_lem fig Hashset.new new-IsHashset.1).1 in
    omega (arith, e, lengths, new-IsHashset.0 fig)

pop_lem_example :
    ((q : Text)
      → total q (Hashset.pop basket).1 + one_if ((Hashset.pop basket).0 === q) ≡ total q basket)
    × (Hashset.get_length (Hashset.pop basket).1 + 1 ≡ Hashset.get_length basket)
    × IsHashset (Hashset.pop basket).1
pop_lem_example = pop_lem basket basket-IsHashset basket-full

abbrev ages : Hashmap
ages = Hashmap.set_fv (codes "ann") (codes "31") Hashmap.new

ages-IsMap : IsMap ages
ages-IsMap = (set_fv_lem Hashmap.new (codes "ann") (codes "31") new-IsMap.1).2

ages-ann : lookup (codes "ann") ages ≡ some (codes "31")
ages-ann = (set_fv_lem Hashmap.new (codes "ann") (codes "31") new-IsMap.1).0 (codes "ann")

set_fv_lem_example :
    ((g : Text)
      → lookup g (Hashmap.set_fv (codes "bob") (codes "27") ages)
        ≡ (if codes "bob" === g then some (codes "27") else lookup g ages))
    × ((Hashmap.set_fv (codes "bob") (codes "27") ages).size
        ≡ elim (lookup (codes "bob") ages) [ none ↦ ages.size + 1 | some _ ↦ ages.size ])
    × IsMap (Hashmap.set_fv (codes "bob") (codes "27") ages)
set_fv_lem_example = set_fv_lem ages (codes "bob") (codes "27") ages-IsMap

del_fv_lem_example : Deleted ages (codes "ann")
del_fv_lem_example = del_fv_lem ages (codes "ann") (codes "31") ages-IsMap ages-ann
