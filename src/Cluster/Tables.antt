-- ===== src/Cluster/Tables.antt =====
-- What `squeue` and the resolver read is what was written.
use ldms_test.Base.{
  ℕ, ◌≡◌, refl, ap, Text, true, false, List, [], ◌∷◌, ◌++◌, Option, none, All, ok, arith, nat_eq,
  text_eq, ◌==◌,
}
use ldms_test.Base.Dict
use ldms_test.Base.Dict.{Dict, NodupKeys}
use ldms_test.Base.Dict.Order.{update-nil}
use ldms_test.Base.Strings.{
  text, join, split, split-join, splitlines, splitlines-newlines, newlines, Lacks, lacks, all_lack,
  All-of_all_lack, Lacks-of_lacks,
}
use ldms_test.Base.Outcome.{done}
use ldms_test.Runtime.{Request, exec, Runtime, run, next, ◌>>=◌, lift, when, ask}
use ldms_test.Cluster.{zip, rows, table, squeue, squeue_command}

-- A line of a table has a field, and others; no field holds a bar or a newline.
abbrev pub Row : Type 0
Row = Text × List Text

abbrev pub fields : Row → List Text
fields (f, fs) = f ∷ fs

abbrev pub IsRow : Row → Type 0
IsRow r = All (Lacks b'|') (fields r) × Lacks b'\n' (join (text "|") (fields r))

pub IsRow-of_lacks :
    (r : Row)
    → all_lack b'|' (fields r) ≡ true
    → lacks b'\n' (join (text "|") (fields r)) ≡ true
    → IsRow r
IsRow-of_lacks r h k = (All-of_all_lack b'|' (fields r) h, Lacks-of_lacks b'\n' _ k)

abbrev pub printed : List Row → List Text
printed [] = []
printed (r ∷ rs) = join (text "|") (fields r) ∷ printed rs

-- The columns of a line, each under its name.
abbrev pub columns : Row → List Row → List (Dict Text Text)
columns header [] = []
columns header (r ∷ rs) = zip (fields header) (fields r) ∷ columns header rs

printed-Lacks : (rs : List Row) → All IsRow rs → All (Lacks b'\n') (printed rs)
printed-Lacks [] h = tt
printed-Lacks (r ∷ rs) h = (h.0.1, printed-Lacks rs h.1)

split-fields : (r : Row) → IsRow r → split b'|' (join (text "|") (fields r)) ≡ fields r
split-fields r h = split-join b'|' r.0 r.1 h.0.0 h.0.1

lookup-zip-absent :
    (k : Text) (ks vs : List Text)
    → All (λ j. (j == k) ≡ false) ks
    → Dict.lookup k (zip ks vs) ≡ none
unfolding zip Dict.lookup
lookup-zip-absent k [] vs h = refl
lookup-zip-absent k (j ∷ ks) [] h = refl
lookup-zip-absent k (j ∷ ks) (v ∷ vs) h = ground (arith, lookup-zip-absent k ks vs h.1, h.0)

-- No name stands twice.
abbrev pub IsDistinct : List Text → Type 0
IsDistinct [] = Unit
IsDistinct (k ∷ ks) = All (λ j. (j == k) ≡ false) ks × IsDistinct ks

zip-NodupKeys : (ks vs : List Text) → IsDistinct ks → NodupKeys (zip ks vs)
unfolding zip
zip-NodupKeys [] vs h = tt
zip-NodupKeys (k ∷ ks) [] h = tt
zip-NodupKeys (k ∷ ks) (v ∷ vs) h = (lookup-zip-absent k ks vs h.0, zip-NodupKeys ks vs h.1)

rows-printed :
    (header : Row) (rs : List Row)
    → IsDistinct (fields header)
    → All IsRow rs
    → rows (fields header) (printed rs) ≡ columns header rs
unfolding rows
rows-printed header [] d h = refl
rows-printed header (r ∷ rs) d h = rw (split-fields r h.0) (
    rw (update-nil _ (zip-NodupKeys (fields header) (fields r) d))
      (ap (λ ds. zip (fields header) (fields r) ∷ ds) (rows-printed header rs d h.1)))

table-printed :
    (header : Row) (rs : List Row)
    → IsDistinct (fields header)
    → IsRow header
    → All IsRow rs
    → table (splitlines (newlines (printed (header ∷ rs)))) ≡ ok (columns header rs)
unfolding table
table-printed header rs d g h =
    rw (splitlines-newlines (printed (header ∷ rs)) (printed-Lacks (header ∷ rs) (g, h)))
      (rw (split-fields header g) (ap ok (rows-printed header rs d h)))

-- When the container answers `squeue` with a table whose column names are distinct and whose
-- fields hold no bar and no newline, the result has one dict for each line below the header, which
-- gives the fields under the names of their columns, as far as there are columns, and one command
-- was run.
pub squeue-read :
    (rt : Runtime) (jobid : Option ℕ) (h : List Request) (header : Row) (rs : List Row)
    → rt.reply h (exec (squeue_command jobid) [] none) ≡ (0, newlines (printed (header ∷ rs)))
    → IsDistinct (fields header)
    → IsRow header
    → All IsRow rs
    → run (squeue rt jobid) h
      ≡ (done (columns header rs), h ++ (exec (squeue_command jobid) [] none ∷ []))
unfolding squeue run ◌>>=◌ next ask when lift
squeue-read rt jobid h header rs answer d g k = rw answer (rw (table-printed header rs d g k) refl)
