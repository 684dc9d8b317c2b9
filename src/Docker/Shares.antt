-- ===== src/Docker/Shares.antt =====
-- runtime/docker.py, `__create` of the class DockerCluster: how many containers each client of Docker
-- gets, and which node becomes a container of which client. A row of the table is the number of
-- containers that run, the number to create, and the client.
pub mod Sorted
pub mod Filled
pub mod Balance
pub mod Nodes
mod Examples
use ldms_test.Base.{
  ℕ, zero, suc, ◌+◌, ◌-◌, ◌/◌, ◌%◌, Text, List, [], ◌∷◌, ◌++◌, Option, none, some, ltb, leb, ◌==◌,
  if◌then◌else◌, nat_eq, length, get_elem?, Result, ok, err, index_error, ◌>>=◌,
}

pub record Row : Type 0 where
  pub load : ℕ
  pub alloc : ℕ
  pub client : Text

-- `tbl.sort(key = ...)`, which is stable
unfoldable pub insert_row : Row → List Row → List Row
insert_row r [] = r ∷ []
insert_row r (s ∷ rows) = if leb r.load s.load then r ∷ (s ∷ rows) else s ∷ insert_row r rows

unfoldable pub sort_rows : List Row → List Row
unfolding insert_row
sort_rows [] = []
sort_rows (r ∷ rows) = insert_row r (sort_rows rows)

-- `tbl[-1][0]`
unfoldable pub last_load : List Row → Result ℕ
last_load [] = err index_error
last_load (r ∷ []) = ok r.load
last_load (r ∷ (s ∷ rows)) = last_load (s ∷ rows)

-- The first loop: `_n` when it ends, and the table. No load is above `max_load`.
unfoldable pub fill : ℕ → ℕ → List Row → ℕ × List Row
fill max_load n [] = (n, [])
fill max_load n (r ∷ rows) =
    let gap : ℕ = max_load - r.load in
    let a : ℕ = if ltb gap n then gap else n in
    let rest = fill max_load (n - a) rows in
    if gap == 0
    then (n, r ∷ rows)
    else if n - a == 0
    then (0, record r { alloc = a } ∷ rows)
    else (rest.0, record r { alloc = a } ∷ rest.1)

-- The loops behind it: each row gets `a` more, and the first `n` rows one more.
unfoldable pub spread : ℕ → ℕ → List Row → List Row
spread a n [] = []
spread a zero (r ∷ rows) = record r { alloc = r.alloc + a } ∷ spread a zero rows
spread a (suc n) (r ∷ rows) = record r { alloc = r.alloc + a + 1 } ∷ spread a n rows

-- What follows the sort
unfoldable pub share_sorted : ℕ → List Row → Result (List Row)
unfolding last_load fill spread
share_sorted n rows = last_load rows >>= λ max_load.
    let (left, filled) = fill max_load n rows in
    ok (spread (left / length filled) (left % length filled) filled)

unfoldable pub shares : List Row → ℕ → Result (List Row)
unfolding sort_rows share_sorted
shares rows n = share_sorted n (sort_rows rows)

-- The table of clients with the containers that they run.
unfoldable pub table : List (Text × ℕ) → List Row
table [] = []
table ((c, running) ∷ cs) = record { load = running; alloc = 0; client = c } ∷ table cs

-- `nodes[idx]` for a client that has `n` containers to create: the pairs, and the next `idx`
unfoldable pub nodes_of : List Text → Text → ℕ → ℕ → Result (List (Text × Text) × ℕ)
nodes_of nodes client zero idx = ok ([], idx)
nodes_of nodes client (suc n) idx = elim (get_elem? nodes idx) [
  | none ↦ err index_error
  | some node ↦ nodes_of nodes client n (suc idx) >>= λ (pairs, i). ok ((client, node) ∷ pairs, i)
]

unfoldable pub assign_from : List Text → ℕ → List Row → Result (List (Text × Text))
unfolding nodes_of
assign_from nodes idx [] = ok []
assign_from nodes idx (r ∷ rows) = nodes_of nodes r.client r.alloc idx >>= λ (pairs, i).
    assign_from nodes i rows >>= λ rest. ok (pairs ++ rest)

-- The client and the node of each container, in the order of creation
unfoldable pub assign : List (Text × ℕ) → List Text → Result (List (Text × Text))
unfolding shares table assign_from
assign clients nodes = shares (table clients) (length nodes) >>= λ rows. assign_from nodes 0 rows
