-- ===== src/Scale.antt =====
-- scalability/ldmsdutils.py: the daemons of a scalability test, named HOST-PORT, in four levels. The
-- settings that the file imports from config.py are a record.
pub mod Names
mod Parts
mod Listed
pub mod Topology
pub mod Control
pub mod Cluster
pub mod MonStat
pub mod Process
pub mod Commands
pub mod Status
pub mod Requests
pub mod Ctl
pub mod Times
mod Examples
use ldms_test.Base.{
  ℕ, zero, suc, ◌+◌, ◌*◌, ◌/◌, Text, Bool, true, false, List, [], ◌∷◌, ◌++◌, Option, none, some,
  Result, ok, err, key_error, value_error, index_error, text_eq, contains, length, get_elem?, ◌>>=◌,
  ◌==◌, nat_eq,
}
use ldms_test.Base.Dict
use ldms_test.Base.Dict.{Dict}
use ldms_test.Base.Strings.{text, decimal}

-- config.py
pub record Config : Type 0 where
  pub my_host : Text
  pub samp_hosts : List Text
  pub samp_per_host : ℕ
  pub sets_per_samp : ℕ
  pub l1_hosts : List Text
  pub l1_per_host : ℕ
  pub l2_hosts : List Text
  pub l2_per_host : ℕ
  pub l3_host : Text
  pub samp_base_port : ℕ
  pub l1_base_port : ℕ
  pub l2_base_port : ℕ
  pub l3_base_port : ℕ
  pub mem_per_set : ℕ
  pub xprt : Text
  pub log_level : Text
  pub conn_interval : ℕ
  pub samp_interval : ℕ
  pub l3_store_root : Option Text

-- `agg_level`
pub data Level : Type 0 where
  samp l1 l2 l3 : Level

-- `"{}-{}".format(host, port)`
unfoldable pub daemon_name : Text → ℕ → Text
daemon_name h p = h ++ (b'-' ∷ decimal p)

-- `for i in range(n)`, for the ports from `base` on
unfoldable pub on_host : Text → ℕ → ℕ → List Text
unfolding daemon_name
on_host h base zero = []
on_host h base (suc n) = daemon_name h base ∷ on_host h (suc base) n

unfoldable pub names : List Text → ℕ → ℕ → List Text
unfolding on_host
names [] base n = []
names (h ∷ hs) base n = on_host h base n ++ names hs base n

-- The tables by level: `NHL`, `HL`, `BPL`, and `DL` and `NDL` with `SAMPLERS`, `L1_AGGS`, `L2_AGGS`
abbrev pub nhl : Config → Level → ℕ
nhl c samp = c.samp_per_host
nhl c l1 = c.l1_per_host
nhl c l2 = c.l2_per_host
nhl c l3 = 1

abbrev pub hl : Config → Level → List Text
hl c samp = c.samp_hosts
hl c l1 = c.l1_hosts
hl c l2 = c.l2_hosts
hl c l3 = c.l3_host ∷ []

abbrev pub bpl : Config → Level → ℕ
bpl c samp = c.samp_base_port
bpl c l1 = c.l1_base_port
bpl c l2 = c.l2_base_port
bpl c l3 = c.l3_base_port

unfoldable pub dl : Config → Level → List Text
unfolding daemon_name names
dl c samp = names c.samp_hosts c.samp_base_port c.samp_per_host
dl c l1 = names c.l1_hosts c.l1_base_port c.l1_per_host
dl c l2 = names c.l2_hosts c.l2_base_port c.l2_per_host
dl c l3 = daemon_name c.l3_host c.l3_base_port ∷ []

unfoldable pub ndl : Config → Level → ℕ
unfolding dl
ndl c samp = length (dl c samp)
ndl c l1 = length (dl c l1)
ndl c l2 = length (dl c l2)
ndl c l3 = 1

-- `{ k: i for (k, i) in zip(names, range(n)) }`
unfoldable pub number_from : ℕ → List Text → Dict Text ℕ → Dict Text ℕ
number_from i [] d = d
number_from i (k ∷ ks) d = number_from (suc i) ks (Dict.insert k i d)

-- `name.rsplit("-", 1)`, where there is a dash
unfoldable pub rsplit : Text → Option (Text × Text)
rsplit [] = none
rsplit (x ∷ s) = elim (rsplit s) [
  | some (h, p) ↦ some (x ∷ h, p)
  | none ↦ elim (x == b'-') [ true ↦ some ([], s) | false ↦ none ]
]

pub record Daemon : Type 0 where
  pub name : Text
  pub host : Text
  pub port : Text
  pub level : Level
  pub idx : ℕ

-- `SAMPLERS_IDX[name]`, `L1_IDX[name]`, `L2_IDX[name]`, and 0
unfoldable pub idx_of : Config → Level → Text → Result ℕ
unfolding number_from
idx_of c l3 name = ok 0
idx_of c l name = elim (Dict.lookup name (number_from 0 (dl c l) [])) [
  | none ↦ err key_error
  | some i ↦ ok i
]

-- `__init__` of the four classes
unfoldable pub new : Config → Level → Text → Result Daemon
unfolding rsplit idx_of
new c l name = elim (rsplit name) [
  | none ↦ err value_error
  | some (h, p) ↦
      idx_of c l name >>= λ i. ok (record { name = name; host = h; port = p; level = l; idx = i })
]

-- `[_names[_off + i] for i in range(n)]`
unfoldable pub from_offset : List Text → ℕ → ℕ → Result (List Text)
from_offset ns off zero = ok []
from_offset ns off (suc n) = elim (get_elem? ns off) [
  | none ↦ err index_error
  | some k ↦ from_offset ns (suc off) n >>= λ rest. ok (k ∷ rest)
]

-- `getPrdcr`: a daemon of level `l` was found in the table of its level, which is not empty then.
below : Config → Level → Level → ℕ → Result (List Text)
unfolding from_offset
below c lower l i = let n = ndl c lower / ndl c l in from_offset (dl c lower) (i * n) n

unfoldable pub get_prdcr : Config → Daemon → Result (List Text)
unfolding below
get_prdcr c d = elim d.level [
  | samp ↦ ok []
  | l1 ↦ below c samp l1 d.idx
  | l2 ↦ below c l1 l2 d.idx
  | l3 ↦ below c l2 l3 d.idx
]

-- `"{}/set_{}"` for the sets of a sampler, from the i-th on
unfoldable pub sets_from : Text → ℕ → ℕ → List Text
sets_from name i zero = []
sets_from name i (suc n) = (name ++ (text "/set_" ++ decimal i)) ∷ sets_from name (suc i) n

-- `getPrdcrDir`, with the class of the producers and their `getExpectedDir`
unfoldable pub prdcr_dir : (Text → Result (List Text)) → List Text → Result (List Text)
prdcr_dir dir_of [] = ok []
prdcr_dir dir_of (p ∷ ps) = dir_of p >>= λ sets. prdcr_dir dir_of ps >>= λ rest. ok (sets ++ rest)

-- `getExpectedDir` of a daemon by its class and name; what it keeps is what it returns.
unfoldable pub sampler_dir : Config → Text → Result (List Text)
unfolding new sets_from
sampler_dir c name = new c samp name >>= λ d. ok (sets_from d.name 0 c.sets_per_samp)

unfoldable pub l1_dir : Config → Text → Result (List Text)
unfolding new get_prdcr prdcr_dir sampler_dir
l1_dir c name = new c l1 name >>= λ d. get_prdcr c d >>= λ ps. prdcr_dir (sampler_dir c) ps

unfoldable pub l2_dir : Config → Text → Result (List Text)
unfolding l1_dir
l2_dir c name = new c l2 name >>= λ d. get_prdcr c d >>= λ ps. prdcr_dir (l1_dir c) ps

unfoldable pub l3_dir : Config → Text → Result (List Text)
unfolding l2_dir
l3_dir c name = new c l3 name >>= λ d. get_prdcr c d >>= λ ps. prdcr_dir (l2_dir c) ps
