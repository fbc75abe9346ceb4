-- ===== src/Cluster/Agree.antt =====
-- src/cluster.cpp and src/distribute.cpp send the same lines.
use native.Mathlib.Nat
use muse_kv.Prelude.{
  ℕ, zero, suc, ◌+◌, ◌-◌, ◌*◌, ◌/◌, ◌<◌, ◌≡◌, refl, ap, ◌∙◌, subst, true, false, some, List, [],
  ◌∷◌, arith, ◌==◌, Bool-cases, inl, inr, length, get_or,
}
use muse_kv.Text.{Text}
use muse_kv.Hash.{total_slot_num}
use muse_kv.Cluster.{
  Build, range_line, first_line, next_line, next_lines, build, message, count_from,
}
use muse_kv.Distribute.{slot_start, slot_end, clust_com}

-- What the lines read so far have left: `i` lines of a file for `n` servers.
record IsBuild (n i : ℕ) (b : Build) : Type 0 where
  at_line : b.line_num ≡ i + 1
  servers : b.cluster_num ≡ n
  width : b.each_slot ≡ total_slot_num / n
  begin : b.start ≡ total_slot_num / n * i

-- The two entries of one server.
abbrev HasLine : ℕ → ℕ → Text → Build → Type 0
HasLine n k lr b =
    (b.addr_list k ≡ range_line "clust " lr (slot_start n k) (slot_end n k))
    × (b.my_list k ≡ range_line "myinfo " lr (slot_start n k) (slot_end n k))

next_line-earlier :
    (n i k : ℕ) (lr : Text) (b : Build)
    → IsBuild n i b
    → k < i
    → ((next_line lr b).addr_list k ≡ b.addr_list k) × ((next_line lr b).my_list k ≡ b.my_list k)
unfolding next_line
next_line-earlier n i k lr b w h =
    let off : (k == b.line_num - 1) ≡ false = ground (arith, w.at_line) in
    elim (Bool-cases (b.line_num == b.cluster_num)) [
      | inl y ↦ rw (y, off) (refl, refl)
      | inr x ↦ rw (x, off) (refl, refl)
    ]

next_start :
    (n i : ℕ) (b : Build) → IsBuild n i b → b.start + b.each_slot ≡ total_slot_num / n * (i + 1)
next_start n i b w = rw (w.begin, w.width, Nat.mul-add (total_slot_num / n) i 1) (omega arith)

next_line-here :
    (n i : ℕ) (lr : Text) (b : Build) → IsBuild n i b → i < n → HasLine n i lr (next_line lr b)
unfolding next_line
next_line-here n i lr b w h =
    let on : (i == b.line_num - 1) ≡ true = ground (arith, w.at_line) in
    elim (Bool-cases (i == n - 1)) [
      | inl y ↦
          let last : (b.line_num == b.cluster_num) ≡ true = ground (arith, w.at_line, w.servers) in
          rw (last, on, y, w.begin) (refl, refl)
      | inr x ↦
          let more : (b.line_num == b.cluster_num) ≡ false = ground (arith, w.at_line, w.servers) in
          let end : b.start + b.each_slot ≡ total_slot_num / n * (i + 1) = next_start n i b w in
          rw (more, on, x, end, w.begin) (refl, refl)
    ]

next_line-IsBuild :
    (n i : ℕ) (lr : Text) (b : Build)
    → IsBuild n i b
    → i + 1 < n
    → IsBuild n (i + 1) (next_line lr b)
unfolding next_line
next_line-IsBuild n i lr b w h =
    let more : (b.line_num == b.cluster_num) ≡ false = ground (arith, w.at_line, w.servers) in
    rw more (record {
      at_line = ap (λ m. m + 1) w.at_line;
      servers = w.servers;
      width = w.width;
      begin = next_start n i b w;
    })

next_lines-earlier :
    (n i k : ℕ) (lines : List Text) (b : Build)
    → IsBuild n i b
    → length lines + i ≡ n
    → k < i
    → ((next_lines lines b).addr_list k ≡ b.addr_list k)
      × ((next_lines lines b).my_list k ≡ b.my_list k)
unfolding next_lines
next_lines-earlier n i k [] b w e h = (refl, refl)
next_lines-earlier n i k (lr ∷ []) b w e h = next_line-earlier n i k lr b w h
next_lines-earlier n i k (lr ∷ lr' ∷ lines) b w e h =
    let (a, m) = next_line-earlier n i k lr b w h in
    let (a', m') =
      next_lines-earlier n (i + 1) k (lr' ∷ lines) (next_line lr b)
        (next_line-IsBuild n i lr b w (omega (arith, e))) (omega (arith, e)) (omega (arith, h)) in
    (a' ∙ a, m' ∙ m)

next_lines-first :
    (n i : ℕ) (lr : Text) (lines : List Text) (b : Build)
    → IsBuild n i b
    → length (lr ∷ lines) + i ≡ n
    → HasLine n i lr (next_lines (lr ∷ lines) b)
unfolding next_lines
next_lines-first n i lr [] b w e = next_line-here n i lr b w (omega (arith, e))
next_lines-first n i lr (lr' ∷ lines) b w e =
    let (a, m) = next_line-here n i lr b w (omega (arith, e)) in
    let (a', m') =
      next_lines-earlier n (i + 1) i (lr' ∷ lines) (next_line lr b)
        (next_line-IsBuild n i lr b w (omega (arith, e))) (omega (arith, e)) (omega arith) in
    (a' ∙ a, m' ∙ m)

next_lines-HasLine :
    (n i k : ℕ) (lines : List Text) (b : Build)
    → IsBuild n i b
    → length lines + i ≡ n
    → k < length lines
    → HasLine n (i + k) (get_or lines k []) (next_lines lines b)
unfolding next_lines
next_lines-HasLine n i k [] b w e h = absurd (omega (arith, h))
next_lines-HasLine n i zero (lr ∷ lines) b w e h =
    subst (λ j. HasLine n j lr (next_lines (lr ∷ lines) b)) (omega arith)
      (next_lines-first n i lr lines b w e)
next_lines-HasLine n i (suc k) (lr ∷ []) b w e h = absurd (omega (arith, h))
next_lines-HasLine n i (suc k) (lr ∷ lr' ∷ lines) b w e h =
    subst (λ j. HasLine n j (get_or (lr' ∷ lines) k []) (next_lines (lr' ∷ lines) (next_line lr b)))
      (omega arith)
      (next_lines-HasLine n (i + 1) k (lr' ∷ lines) (next_line lr b)
        (next_line-IsBuild n i lr b w (omega (arith, e))) (omega (arith, e)) (omega (arith, h)))

message-HasLine :
    (n i j : ℕ) (lr : Text) (b : Build) → HasLine n j lr b → message b i j ≡ clust_com n i j lr
unfolding message clust_com
message-HasLine n i j lr b (a, m) = elim (Bool-cases (i == j)) [
  | inl y ↦ let back : (j == i) ≡ true = ground arith in rw (y, back) m
  | inr x ↦ let back : (j == i) ≡ false = ground arith in rw (x, back) a
]

-- If the first line of the configuration of `cluster` gives the number of the lines behind it, and
-- there is one, then `cluster` builds its lists without a crash, and sends the server `i` in round
-- `j` the line that `distribute` would send, with the text of line `j` and the range of index `j`.
pub message-clust_com :
    (first lr : Text) (lines : List Text) (i j : ℕ)
    → count_from first 0 ≡ length (lr ∷ lines)
    → j < length (lr ∷ lines)
    → (b : Build) × (build first (lr ∷ lines) ≡ some b)
      × (message b i j ≡ clust_com (length (lr ∷ lines)) i j (get_or (lr ∷ lines) j []))
unfolding build first_line
message-clust_com first lr lines i j c h =
    let n = length (lr ∷ lines) in
    let start : Build = record {
      line_num = 1;
      cluster_num = n;
      each_slot = total_slot_num / n;
      start = 0;
      addr_list = λ k. [];
      my_list = λ k. [];
    } in
    let is : IsBuild n 0 start = record {
      at_line = refl;
      servers = refl;
      width = refl;
      begin = omega (arith, Nat.mul-zero (total_slot_num / n));
    } in
    let all = next_lines-HasLine n 0 j (lr ∷ lines) start is (omega arith) h in
    (
      next_lines (lr ∷ lines) start,
      rw c refl,
      message-HasLine n i j _ _ (
          subst (λ k. HasLine n k (get_or (lr ∷ lines) j []) (next_lines (lr ∷ lines) start))
            (omega arith) all),
    )
