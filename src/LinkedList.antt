-- ===== src/LinkedList.antt =====
-- src/linkedlist.h and src/linkedlist.cpp: a circular doubly linked list of nodes on a heap.
-- An address stands for a `node*`, 0 is NULL; a run is `none` where the code would follow a
-- pointer that is NULL or freed. What `new node()` returns is the argument `element`.
pub mod Sequence
pub mod Ring
pub mod Walk
pub mod Push
pub mod Cut
pub mod Pop
pub mod Read
pub mod Edit
pub mod Refines
pub mod Set
pub mod Destroy
use muse_kv.Prelude.{
  ℕ, zero, suc, ◌+◌, ◌-◌, ◌%◌, Bool, true, false, not, Option, none, some, List, [], ◌∷◌, ◌++◌,
  ◌==◌, ltb, if◌then◌else◌,
}
use muse_kv.Prelude.Int.{ℤ, pos, negsuc, negated}
use muse_kv.Text.{Text, comma}
use muse_kv.Text.Equal.{◌===◌}

abbrev pub null : ℕ
null = 0

-- The fields of the nodes at each address, and which addresses hold a node.
pub record Heap : Type 0 where
  pub live : ℕ → Bool
  pub content : ℕ → Text
  pub prev_ptr : ℕ → ℕ
  pub next_ptr : ℕ → ℕ

unfoldable pub update {ℓ} : {A : Type ℓ} → (ℕ → A) → ℕ → A → ℕ → A
update f p v a = if a == p then v else f a

pub record LinkedList : Type 0 where
  pub head : ℕ
  pub length : ℕ

abbrev pub M : Type 0 → Type 0
M A = Heap → Option (A × Heap)

module _ {A B : Type 0} where
  abbrev pub and_then : Option (A × Heap) → (A → M B) → Option (B × Heap)
  and_then none k = none
  and_then (some (a, h)) k = k a h

  infixl 5 ◌>>=◌ ◌>>◌
  abbrev pub ◌>>=◌ : M A → (A → M B) → M B
  m >>= k = λ h. and_then (m h) k

  abbrev pub ◌>>◌ : M A → M B → M B
  m >> n = m >>= λ _. n

abbrev pub pure : {A : Type 0} → A → M A
pure a h = some (a, h)

-- a read or a write through `p`
at_node : {A : Type 0} → ℕ → (Heap → A × Heap) → M A
at_node p f h = if h.live p then some (f h) else none

unfoldable pub next : ℕ → M ℕ
unfolding at_node
next p = at_node p (λ h. (h.next_ptr p, h))

unfoldable pub prev : ℕ → M ℕ
unfolding at_node
prev p = at_node p (λ h. (h.prev_ptr p, h))

unfoldable pub content : ℕ → M Text
unfolding at_node
content p = at_node p (λ h. (h.content p, h))

unfoldable pub set_next : ℕ → ℕ → M (Unit {0})
unfolding at_node
set_next p q = at_node p (λ h. (tt, record h { next_ptr = update h.next_ptr p q }))

unfoldable pub set_prev : ℕ → ℕ → M (Unit {0})
unfolding at_node
set_prev p q = at_node p (λ h. (tt, record h { prev_ptr = update h.prev_ptr p q }))

unfoldable pub set_content : ℕ → Text → M (Unit {0})
unfolding at_node
set_content p s = at_node p (λ h. (tt, record h { content = update h.content p s }))

unfoldable pub free : ℕ → M (Unit {0})
unfolding at_node
free p = at_node p (λ h. (tt, record h { live = update h.live p false }))

-- `new node()` at `element`, with its content
unfoldable pub new_node : ℕ → Text → M (Unit {0})
new_node p s h = some (
  tt,
  record {
    live = update h.live p true;
    content = update h.content p s;
    prev_ptr = update h.prev_ptr p null;
    next_ptr = update h.next_ptr p null;
  },
)

abbrev pub new : LinkedList
new = record { head = null; length = 0 }

abbrev pub is_empty : LinkedList → Bool
is_empty l = l.head == null

-- the two branches that both pushes share
unfoldable pub alone : ℕ → M (Unit {0})
alone element = do set_next element element; set_prev element element

unfoldable pub link_before : ℕ → ℕ → M (Unit {0})
link_before head element = do
  set_next element head
  set_prev element (← prev head)
  set_next (← prev head) element
  set_prev head element

unfoldable pub push_front : (element : ℕ) → Text → LinkedList → M LinkedList
push_front element s l = do
  new_node element s
  if is_empty l then alone element else link_before l.head element
  pure (record { head = element; length = l.length + 1 })

unfoldable pub push_back : (element : ℕ) → Text → LinkedList → M LinkedList
push_back element s l = do
  new_node element s
  if is_empty l then alone element else link_before l.head element
  pure (record { head = if is_empty l then element else l.head; length = l.length + 1 })

-- `p->next_ptr->prev_ptr = p->prev_ptr; p->prev_ptr->next_ptr = p->next_ptr;`
unfoldable pub unlink : ℕ → M (Unit {0})
unlink p = do set_prev (← next p) (← prev p); set_next (← prev p) (← next p)

-- With one node `head = NULL; delete head;` frees nothing: the node stays allocated.
unfoldable pub pop_front : LinkedList → M (Text × LinkedList)
pop_front l = if is_empty l then pure ([], l) else do
  after ← next l.head
  if after == l.head
      then (do res ← content l.head; pure (res, record { head = null; length = l.length - 1 }))
      else do
        res ← content l.head
        unlink l.head
        head ← next l.head
        free l.head
        pure (res, record { head = head; length = l.length - 1 })

unfoldable pub pop_back : LinkedList → M (Text × LinkedList)
pop_back l = if is_empty l then pure ([], l) else do
  after ← next l.head
  if after == l.head
      then (do res ← content l.head; pure (res, record { head = null; length = l.length - 1 }))
      else do
        tail ← prev l.head
        res ← content tail
        unlink tail
        free tail
        pure (res, record { head = l.head; length = l.length - 1 })

-- `index` and `res` of the loop of `find`; `none` in the result is -1
find_loop : ℕ → ℕ → Text → ℕ → ℕ → M (Option ℕ)
find_loop zero head s res index = λ _. none
find_loop (suc fuel) head s res index = do
  c ← content res
  if c === s then pure (some index) else do
    after ← next res
    if after == head then pure none else find_loop fuel head s after (index + 1)

unfoldable pub find : Text → LinkedList → M (Option ℕ)
unfolding find_loop
find s l = if is_empty l then pure none else find_loop l.length l.head s l.head 0

walk_next : ℕ → ℕ → M ℕ
walk_next zero res = pure res
walk_next (suc i) res = next res >>= walk_next i

walk_prev : ℕ → ℕ → M ℕ
walk_prev zero res = pure res
walk_prev (suc i) res = prev res >>= walk_prev i

-- The rounds of the two loops of `at`. `-index` of the least `int` is again the least `int`, whose
-- remainder is not above 0: no round.
walk : ℤ → LinkedList → M ℕ
unfolding walk_next walk_prev
walk (pos i) l = walk_next (i % l.length) l.head
walk (negsuc i) l = walk_prev (negated i % l.length) l.head

unfoldable pub at : ℤ → LinkedList → M ℕ
unfolding walk
at index l = if is_empty l then pure null else walk index l

unfoldable pub get : ℤ → LinkedList → M Text
get index l = do p ← at index l; content p

unfoldable pub set : ℤ → Text → LinkedList → M (Unit {0})
set index s l = do p ← at index l; set_content p s

unfoldable pub del : ℤ → LinkedList → M (Bool × LinkedList)
del index l = do
  trg ← at index l
  if trg == null then pure (false, l) else do
    after ← next trg
    if after == trg
        then (do free trg; pure (true, record { head = null; length = l.length - 1 }))
        else do
          head ← (if trg == l.head then next l.head else pure l.head)
          unlink trg
          free trg
          pure (true, record { head = head; length = l.length - 1 })

print_loop : ℕ → ℕ → ℕ → Text → M Text
print_loop zero head it str = λ _. none
print_loop (suc fuel) head it str =
    if it == head
    then pure str
    else do c ← content it; after ← next it; print_loop fuel head after (str ++ comma ∷ c)

unfoldable pub print : LinkedList → M Text
unfolding print_loop
print l =
    if is_empty l
    then pure []
    else do c ← content l.head; after ← next l.head; print_loop l.length l.head after c

-- `~List`
unfoldable pub destroy_loop : ℕ → LinkedList → M LinkedList
destroy_loop zero l = λ _. none
destroy_loop (suc fuel) l =
    if is_empty l then pure l else do (_, l') ← pop_back l; destroy_loop fuel l'

unfoldable pub destroy : LinkedList → M LinkedList
unfolding destroy_loop
destroy l = destroy_loop (l.length + 1) l
