-- ===== src/Client/Loop.antt =====
-- `task_client` and the loop of `main` of src/client.cpp, on the lines that are typed. What is
-- printed after "Received: " is the result.
use muse_kv.Prelude.{
  ℕ, Bool, ◌||◌, Option, none, some, List, [], ◌∷◌, ◌++◌, ◌==◌, ◌>>=◌, if◌then◌else◌,
}
use muse_kv.Prelude.Int.{ℤ, pos}
use muse_kv.Text.{Text}
use muse_kv.Text.Equal.{◌===◌}
use muse_kv.Text.Atoi.{atoi}
use muse_kv.Encrypt.{c_string}
use muse_kv.Command.Dispatch.{codes}

-- What `buf` holds after `memset` and `recv`; `none` is a `recv` that fails.
abbrev pub received : Option Text → Text
received none = []
received (some got) = c_string got

-- the third argument of the program, if there is one
unfoldable pub level : List Text → Option ℤ
level (ip ∷ port ∷ []) = some (pos 0)
level (ip ∷ port ∷ auth ∷ []) = some (atoi auth)
level args = none

-- `send` tells whether it sent the line; `recv` gives the bytes that came back, at most as many as
-- `buf` holds, or nothing where it waits forever.
module _ {S : Type 0} (send : S → Text → Bool × S) (recv : S → Option (Option Text × S)) where
  abbrev pub heard : Option Text × S → ℕ × (List Text × S)
  heard (got, s) = (1, (received got ∷ [], s))

  -- One line. A `send` that fails is reported, and the client waits for an answer all the same.
  unfoldable pub task_client : Text → S → Option (ℕ × (List Text × S))
  task_client line s =
      if (line === codes "quit") || (line === codes "shutdown")
      then some (0, ([], s))
      else if line === []
      then some (1, ([], s))
      else (do got ← recv (send s line).1; some (heard got))

  -- `while(n)`; `none` is a `recv` that waits forever, or the end of the input, where `getline` fails
  -- and leaves the empty line again and again.
  unfoldable pub main_loop : List Text → S → Option (List Text × S)
  unfolding task_client
  main_loop [] s = none
  main_loop (line ∷ lines) s = task_client line s >>= λ turn.
      let rest = main_loop lines turn.1.1 in
      if turn.0 == 0 then some turn.1 else (do (more, t) ← rest; some (turn.1.0 ++ more, t))
