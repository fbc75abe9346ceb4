-- ===== src/Cluster.antt =====
-- src/cluster.cpp: the lines that divide the slots among the servers of a configuration file, and
-- what each server is sent.
pub mod Ranges
pub mod Agree
use Prim.Native.String.{String}
use muse_kv.Prelude.{
  ℕ, zero, suc, ◌+◌, ◌-◌, ◌/◌, Option, none, some, List, [], ◌∷◌, ◌++◌, ◌==◌, if◌then◌else◌,
}
use muse_kv.Prelude.Int.{ℤ, pos, pos_part, sub_ℕ}
use muse_kv.Text.{Text, space}
use muse_kv.Text.Atoi.{is_digit, atoi}
use muse_kv.Text.Number.{to_string}
use muse_kv.Hash.{total_slot_num, write}
use muse_kv.Command.Dispatch.{codes}

-- `verb + lr + " " + std::to_string(start) + " " + std::to_string(end)`
unfoldable pub range_line : String → Text → ℕ → ℤ → Text
range_line verb lr start end =
    codes verb ++ (lr ++ (space ∷ to_string (pos start) ++ (space ∷ to_string end)))

-- The variables of `main` that the lines of the file change.
pub record Build : Type 0 where
  pub line_num : ℕ
  pub cluster_num : ℕ
  pub each_slot : ℕ
  pub start : ℕ
  pub addr_list : ℕ → Text
  pub my_list : ℕ → Text

-- the assignment to `cluster_num`, unless the number is 0
abbrev pub counted : ℕ → ℕ → ℕ
counted zero cluster_num = cluster_num
counted (suc n) cluster_num = suc n

-- The loop over the first line; `atoi` of a text that starts with a digit is not negative.
unfoldable pub count_from : Text → ℕ → ℕ
count_from [] cluster_num = cluster_num
count_from (c ∷ str) cluster_num =
    count_from str
      (if is_digit c then counted (pos_part (atoi (c ∷ str))) cluster_num else cluster_num)

-- after the first line; `none` is a division by 0
unfoldable pub first_line : ℕ → Option Build
first_line zero = none
first_line (suc n) = some (record {
  line_num = 1;
  cluster_num = suc n;
  each_slot = total_slot_num / suc n;
  start = 0;
  addr_list = λ i. [];
  my_list = λ i. [];
})

-- one line of a server, with its address and port
unfoldable pub next_line : Text → Build → Build
next_line lr b =
    let i = b.line_num - 1 in
    let last = pos (total_slot_num - 1) in
    let end = sub_ℕ (b.start + b.each_slot) 1 in
    if b.line_num == b.cluster_num
    then record b {
      addr_list = write b.addr_list i (range_line "clust " lr b.start last);
      my_list = write b.my_list i (range_line "myinfo " lr b.start last);
    }
    else record b {
      addr_list = write b.addr_list i (range_line "clust " lr b.start end);
      my_list = write b.my_list i (range_line "myinfo " lr b.start end);
      start = b.start + b.each_slot;
      line_num = b.line_num + 1;
    }

unfoldable pub next_lines : List Text → Build → Build
next_lines [] b = b
next_lines (lr ∷ lines) b = next_lines lines (next_line lr b)

abbrev pub all_lines : List Text → Option Build → Option Build
all_lines lines none = none
all_lines lines (some b) = some (next_lines lines b)

-- `while(getline(in, lr))`, for a file that is not empty
unfoldable pub build : Text → List Text → Option Build
unfolding first_line count_from
build first lines = all_lines lines (first_line (count_from first 0))

-- what the server of index `i` is sent in round `j`
unfoldable pub message : Build → ℕ → ℕ → Text
message b i j = if i == j then b.my_list j else b.addr_list j

-- what it is sent in all rounds, before `quit`
messages_from : Build → ℕ → ℕ → ℕ → List Text
messages_from b i zero j = []
messages_from b i (suc left) j = message b i j ∷ messages_from b i left (j + 1)

pub messages : Build → ℕ → List Text
unfolding messages_from
messages b i = messages_from b i b.cluster_num 0
