-- ===== src/Docker/Shares/Nodes.antt =====
-- Which node is created by which client.
use ldms_test.Base.{
  ℕ, zero, suc, ◌+◌, ◌≤◌, ◌<◌, ◌≡◌, refl, ap, sym, ◌∙◌, Text, List, [], ◌∷◌, ◌++◌, map, All, length,
  drop, get_elem?, some, ok, ◌>>=◌, arith,
}
use ldms_test.Docker.Shares.{Row, sort_rows, table, nodes_of, assign_from, assign}
use ldms_test.Docker.Shares.Filled.{created, client_load}
use ldms_test.Docker.Shares.Balance.{Balanced, shares_lem}

abbrev pub node_of : Text × Text → Text
node_of (client, node) = node

abbrev pub client_of : Text × Text → Text
client_of (client, node) = client

-- A client, as often as it has containers to create.
abbrev pub times : ℕ → Text → List Text
times zero c = []
times (suc n) c = c ∷ times n c

abbrev pub clients_of : List Row → List Text
clients_of [] = []
clients_of (r ∷ rows) = times r.alloc r.client ++ clients_of rows

element :
    (xs : List Text) (i : ℕ)
    → i < length xs
    → (x : Text) × (get_elem? xs i ≡ some x) × (drop i xs ≡ x ∷ drop (suc i) xs)
element [] i h = absurd (omega arith)
element (x ∷ []) zero h = (x, refl, refl)
element (x ∷ (y ∷ xs)) zero h = (x, refl, refl)
element (x ∷ xs) (suc i) h = let (y, e, f) = element xs i (omega arith) in (y, e, f)

drop-all : (xs : List Text) → drop (length xs) xs ≡ []
drop-all [] = refl
drop-all (x ∷ xs) = drop-all xs

map-append_pairs :
    (f : Text × Text → Text) (xs ys : List (Text × Text)) → map f (xs ++ ys) ≡ map f xs ++ map f ys
map-append_pairs f [] ys = refl
map-append_pairs f (x ∷ xs) ys = ap (λ l. f x ∷ l) (map-append_pairs f xs ys)

nodes_of_lem :
    (nodes : List Text) (c : Text) (n i : ℕ)
    → i + n ≤ length nodes
    → (pairs : List (Text × Text)) × (nodes_of nodes c n i ≡ ok (pairs, i + n))
      × (map client_of pairs ≡ times n c)
      × (map node_of pairs ++ drop (i + n) nodes ≡ drop i nodes)
unfolding nodes_of
nodes_of_lem nodes c zero i h =
    ([], ap (λ k. ok ([], k)) (omega arith), refl, ap (λ k. drop k nodes) (omega arith))
nodes_of_lem nodes c (suc n) i h =
    let (x, e, f) = element nodes i (omega arith) in
    let (pairs, a, b, d) = nodes_of_lem nodes c n (suc i) (omega arith) in
    (
      (c, x) ∷ pairs,
      rw (e, nodes_of) (rw a (ap (λ k. ok ((c, x) ∷ pairs, k)) (omega arith))),
      ap (λ l. c ∷ l) b,
      ap (λ l. x ∷ l) (ap (λ k. map node_of pairs ++ drop k nodes) (omega arith) ∙ d) ∙ sym f,
    )

assign_from_lem :
    (nodes : List Text) (i : ℕ) (rows : List Row)
    → i + created rows ≡ length nodes
    → (pairs : List (Text × Text)) × (assign_from nodes i rows ≡ ok pairs)
      × (map client_of pairs ≡ clients_of rows)
      × (map node_of pairs ≡ drop i nodes)
unfolding assign_from
assign_from_lem nodes i [] h =
    ([], refl, refl, sym (drop-all nodes) ∙ ap (λ k. drop k nodes) (omega arith))
assign_from_lem nodes i (r ∷ rows) h =
    let (pairs, a, b, d) = nodes_of_lem nodes r.client r.alloc i (omega arith) in
    let (rest, a', b', d') = assign_from_lem nodes (i + r.alloc) rows (omega arith) in
    (
      pairs ++ rest,
      rw a (rw a' refl),
      map-append_pairs client_of pairs rest ∙ rw b (rw b' refl),
      map-append_pairs node_of pairs rest ∙ rw d' d,
    )

fresh_table : (cs : List (Text × ℕ)) → All (λ s. s.alloc ≡ 0) (table cs)
unfolding table
fresh_table [] = tt
fresh_table ((c, k) ∷ cs) = (refl, fresh_table cs)

table_bound :
    (m : ℕ) (cs : List (Text × ℕ)) → All (λ (c, k). k ≤ m) cs → All (λ s. s.load ≤ m) (table cs)
unfolding table
table_bound m [] h = tt
table_bound m ((c, k) ∷ cs) h = (h.0, table_bound m cs h.1)

-- With at least one client, none of which runs more than `k` containers, each node is created once,
-- in the order of the nodes, by the clients in the order of what they run, each as often as its row
-- of a table says. By this table either no client runs more than `k` containers then, or the numbers
-- of any two clients differ by one at most.
pub assign_lem :
    (k : ℕ) (c : Text × ℕ) (cs : List (Text × ℕ)) (nodes : List Text)
    → All (λ (c, running). running ≤ k) (c ∷ cs)
    → (pairs : List (Text × Text)) × (rows : List Row) × (assign (c ∷ cs) nodes ≡ ok pairs)
      × (map node_of pairs ≡ nodes)
      × (map client_of pairs ≡ clients_of rows)
      × (map client_load rows ≡ map client_load (sort_rows (table (c ∷ cs))))
      × Balanced k rows
unfolding assign table
assign_lem k (c, l) cs nodes h =
    let (rows, a, b, d, e) =
      shares_lem (length nodes) (record { load = l; alloc = 0; client = c }) (table cs)
        (refl, fresh_table cs) in
    let (pairs, a', b', d') = assign_from_lem nodes 0 rows (omega (arith, d)) in
    (
      pairs,
      rows,
      ap (λ r. r >>= λ rows. assign_from nodes 0 rows) a ∙ a',
      d',
      b',
      b,
      e k (h.0, table_bound k cs h.1),
    )
