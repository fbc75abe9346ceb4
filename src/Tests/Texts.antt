-- ===== src/Tests/Texts.antt =====
-- Command lines and numbers for the functions of src/kvstore.cpp, and commands for src/command.h.
use muse_kv.Prelude.{◌≡◌, refl, arith, some, true}
use muse_kv.Prelude.Int.{negsuc}
use muse_kv.Text.Number.{strtoint, to_string, strtoint-to_string}
use muse_kv.Text.{Text, space, split, trim}
use muse_kv.Text.Words.{words, split-trim}
use muse_kv.Command.Dispatch.{codes, kind_of, select, op_kind}
use muse_kv.Command.Kinds.{kind_lem}

abbrev line : Text
line = codes "  lpush  key  a,b c "

split-trim_example : split (trim line) space ≡ words line
split-trim_example = split-trim line

strtoint-to_string_example : strtoint (to_string (negsuc 41)) ≡ some (true, negsuc 41)
strtoint-to_string_example = strtoint-to_string (negsuc 41) (omega arith, omega arith)

kind_lem_example : kind_of (codes "lget") 3 ≡ op_kind (select (codes "lget") 3)
kind_lem_example = kind_lem (codes "lget") 3 refl refl refl
