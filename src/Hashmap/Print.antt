-- ===== src/Hashmap/Print.antt =====
-- What `fields`, `values` and `fvs` print.
use muse_kv.Prelude.{ℕ, zero, suc, ◌≡◌, refl, ap, ◌∙◌, [], ◌∷◌, ◌++◌, map, replicate}
use muse_kv.Text.{Text, comma, merge, merge_onto}
use muse_kv.Hashmap.{Chain, Hashmap, show_rest, show_chain, show_table, fields, values, fvs}
use muse_kv.Hashmap.Laws.{IsMap}

show_rest-merge :
    (show : Text × Text → Text) (result : Text) (c : Chain)
    → show_rest show result c ≡ merge_onto result comma (map show c)
unfolding show_rest merge_onto
show_rest-merge show result [] = refl
show_rest-merge show result (e ∷ c) = show_rest-merge show (result ++ comma ∷ show e) c

show_chain-merge :
    (show : Text × Text → Text) (c : Chain) → show_chain show [] c ≡ merge comma (map show c)
unfolding show_chain merge
show_chain-merge show [] = refl
show_chain-merge show (e ∷ c) = show_rest-merge show (show e) c

show_table-empty :
    (show : Text × Text → Text) (result : Text) (n : ℕ)
    → show_table show result (replicate n []) ≡ result
unfolding show_table show_chain
show_table-empty show result zero = refl
show_table-empty show result (suc n) = show_table-empty show result n

show_table-first :
    (show : Text × Text → Text) (c : Chain)
    → show_table show [] (c ∷ replicate 96 []) ≡ show_chain show [] c
unfolding show_table
show_table-first show c = show_table-empty show (show_chain show [] c) 96

show_table-chain :
    (show : Text × Text → Text) (m : Hashmap) (is : IsMap m)
    → show_table show [] m.h_map ≡ merge comma (map show is.chain)
show_table-chain show m is =
    ap (show_table show []) is.table_eq
    ∙ show_table-first show is.chain
    ∙ show_chain-merge show is.chain

-- The three texts of a well-formed map are its fields, its values and its pairs with a comma
-- between any two, though the code writes none between chains: all nodes stand in one chain.
pub prints_lem :
    (m : Hashmap) (is : IsMap m)
    → (fields m ≡ merge comma (map (λ e. e.0) is.chain))
      × (values m ≡ merge comma (map (λ e. e.1) is.chain))
      × (fvs m ≡ merge comma (map (λ e. e.0 ++ comma ∷ e.1) is.chain))
unfolding fields values fvs
prints_lem m is = (
  show_table-chain (λ e. e.0) m is,
  show_table-chain (λ e. e.1) m is,
  show_table-chain (λ e. e.0 ++ comma ∷ e.1) m is,
)
