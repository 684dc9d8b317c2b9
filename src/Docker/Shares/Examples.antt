-- ===== src/Docker/Shares/Examples.antt =====
-- Three clients, the second of which runs no container.
use ldms_test.Base.{◌≡◌, refl, ok, [], ◌∷◌, arith, List, Text, map}
use ldms_test.Base.Strings.{text}
use ldms_test.Docker.Shares.{Row, sort_rows, table, assign}
use ldms_test.Docker.Shares.Filled.{client_load}
use ldms_test.Docker.Shares.Balance.{Balanced}
use ldms_test.Docker.Shares.Nodes.{node_of, client_of, clients_of, assign_lem}

three_clients :
    assign
      ((text "a", 2) ∷ ((text "b", 0) ∷ ((text "c", 2) ∷ [])))
      (text "1" ∷ (text "2" ∷ (text "3" ∷ (text "4" ∷ []))))
    ≡ ok (
        (text "b", text "1")
        ∷ ((text "b", text "2") ∷ ((text "b", text "3") ∷ ((text "a", text "4") ∷ []))))
unfolding assign
three_clients = refl

assign_lem_example :
    (pairs : List (Text × Text)) × (rows : List Row) × (assign
        ((text "a", 2) ∷ ((text "b", 0) ∷ []))
        (text "1" ∷ (text "2" ∷ []))
      ≡ ok pairs)
    × (map node_of pairs ≡ text "1" ∷ (text "2" ∷ []))
    × (map client_of pairs ≡ clients_of rows)
    × (map client_load rows
        ≡ map client_load (sort_rows (table ((text "a", 2) ∷ ((text "b", 0) ∷ [])))))
    × Balanced 2 rows
assign_lem_example =
    assign_lem 2 (text "a", 2) ((text "b", 0) ∷ []) (text "1" ∷ (text "2" ∷ []))
      (omega arith, (omega arith, tt))
