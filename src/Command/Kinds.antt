-- ===== src/Command/Kinds.antt =====
-- The two chains of tests of src/command.h, `command_type` and `execute`, name the same commands.
use muse_kv.Prelude.{ℕ, ◌≡◌, refl, Bool, true, false, if◌then◌else◌}
use muse_kv.Text.{Text}
use muse_kv.Text.Equal.{◌===◌}
use muse_kv.Command.Dispatch.{codes, Op, select, op_kind, kind_of}

op_kind-if :
    (b : Bool) (x y : Op) → op_kind (if b then x else y) ≡ (if b then op_kind x else op_kind y)
op_kind-if true x y = refl
op_kind-if false x y = refl

-- A command line whose first word is not one of xkeys, xsave and exit is classified by
-- `command_type` as what the handler that `execute` selects for it is.
pub kind_lem :
    (verb : Text) (n : ℕ)
    → (verb === codes "xkeys") ≡ false
    → (verb === codes "xsave") ≡ false
    → (verb === codes "exit") ≡ false
    → kind_of verb n ≡ op_kind (select verb n)
unfolding kind_of select
kind_lem verb n no_xkeys no_xsave no_exit =
    rw (no_xkeys, no_xsave, no_exit) (unfold op_kind in simp (op_kind-if))
