-- ===== src/Command/Refines/Counts.antt =====
-- The numbers of words that the tests of `execute`, src/command.h, let through.
use Prim.Native.String.{String}
use muse_kv.Text.Equal.{◌===◌}
use muse_kv.Prelude.{ℕ, ◌≡◌, refl, Bool, true, false, ◌&&◌, ◌||◌, arith, ◌==◌, leb, if◌then◌else◌}
use muse_kv.Text.{Text}
use muse_kv.Command.Dispatch.{Op, codes, is, is_from, select}

-- The numbers of words of the lines that select an operation.
unfoldable pub fits : Op → ℕ → Bool
fits Op.get n = n == 2
fits Op.make n = (n == 3) || (n == 4) || (n == 5)
fits Op.del n = n == 2
fits Op.lmake n = leb 3 n
fits Op.lpush n = leb 3 n
fits Op.rpush n = leb 3 n
fits Op.lpop n = n == 2
fits Op.rpop n = n == 2
fits Op.lget n = n == 3
fits Op.lset n = n == 4
fits Op.lerase n = n == 3
fits Op.smake n = leb 3 n
fits Op.spush n = leb 3 n
fits Op.spop n = n == 2
fits Op.serase n = n == 3
fits Op.sort n = n == 2
fits Op.hmake n = leb 4 n
fits Op.hpush n = n == 4
fits Op.hget n = n == 3
fits Op.hfields n = n == 2
fits Op.hvals n = n == 2
fits Op.herase n = n == 3
fits Op.keys n = n == 1
fits Op.authr n = n == 3
fits Op.authw n = n == 3
fits Op.expire n = n == 3
fits Op.get_ttl n = n == 2
fits Op.save n = n == 1
fits Op.read n = n == 2
fits Op.unknown n = true

chosen :
    (n : ℕ) (a b : Bool) (op rest : Op)
    → (b ≡ true → fits op n ≡ true)
    → fits rest n ≡ true
    → fits (if a && b then op else rest) n ≡ true
chosen n true true op rest f g = f refl
chosen n true false op rest f g = g
chosen n false b op rest f g = g

-- one test of `execute`
exact :
    (verb : Text) (n : ℕ) (name : String) (k : ℕ) (op rest : Op)
    → ((n == k) ≡ true → fits op n ≡ true)
    → fits rest n ≡ true
    → fits (if is verb n name k then op else rest) n ≡ true
exact verb n name k = chosen n (verb === codes name) (n == k)

at_least :
    (verb : Text) (n : ℕ) (name : String) (k : ℕ) (op rest : Op)
    → (leb k n ≡ true → fits op n ≡ true)
    → fits rest n ≡ true
    → fits (if is_from verb n name k then op else rest) n ≡ true
at_least verb n name k = chosen n (verb === codes name) (leb k n)

-- Every line has a number of words that its operation takes.
pub select-fits : (verb : Text) (n : ℕ) → fits (select verb n) n ≡ true
unfolding select fits
select-fits verb n =
    exact verb n "get" 2 Op.get _ (λ e. e)
      (exact verb n "make" 3 Op.make _ (λ e. ground (arith, e))
        (exact verb n "make" 4 Op.make _ (λ e. ground (arith, e))
          (exact verb n "make" 5 Op.make _ (λ e. ground (arith, e))
            (exact verb n "del" 2 Op.del _ (λ e. e)
              (at_least verb n "lmake" 3 Op.lmake _ (λ e. e)
                (at_least verb n "lpush" 3 Op.lpush _ (λ e. e)
                  (at_least verb n "rpush" 3 Op.rpush _ (λ e. e)
                    (exact verb n "lpop" 2 Op.lpop _ (λ e. e)
                      (exact verb n "rpop" 2 Op.rpop _ (λ e. e)
                        (exact verb n "lget" 3 Op.lget _ (λ e. e)
                          (exact verb n "lset" 4 Op.lset _ (λ e. e)
                            (exact verb n "lerase" 3 Op.lerase _ (λ e. e)
                              (at_least verb n "smake" 3 Op.smake _ (λ e. e)
                                (at_least verb n "spush" 3 Op.spush _ (λ e. e)
                                  (exact verb n "spop" 2 Op.spop _ (λ e. e)
                                    (exact verb n "serase" 3 Op.serase _ (λ e. e)
                                      (exact verb n "sort" 2 Op.sort _ (λ e. e)
                                        (at_least verb n "hmake" 4 Op.hmake _ (λ e. e)
                                          (exact verb n "hpush" 4 Op.hpush _ (λ e. e)
                                            (exact verb n "hget" 3 Op.hget _ (λ e. e)
                                              (exact verb n "hfields" 2 Op.hfields _ (λ e. e)
                                                (exact verb n "hvals" 2 Op.hvals _ (λ e. e)
                                                  (exact verb n "herase" 3 Op.herase _ (λ e. e)
                                                    (exact verb n "xkeys" 1 Op.keys _ (λ e. e)
                                                      (exact verb n "keys" 1 Op.keys _ (λ e. e)
                                                        (exact verb n "authr" 3 Op.authr _ (λ e. e)
                                                          (exact verb n "authw" 3 Op.authw _
                                                            (λ e. e)
                                                            (exact verb n "expire" 3 Op.expire _
                                                            (λ e. e)
                                                            (exact verb n "ttl" 2 Op.get_ttl _
                                                            (λ e. e)
                                                            (exact verb n "save" 1 Op.save _
                                                            (λ e. e)
                                                            (exact verb n "xsave" 1 Op.save _
                                                            (λ e. e)
                                                            (exact verb n "read" 2 Op.read _
                                                            (λ e. e)
                                                            (refl)))))))))))))))))))))))))))))))))
