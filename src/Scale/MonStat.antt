-- ===== src/Scale/MonStat.antt =====
-- scalability/ldmsdutils.py, the class `MonStat`: what is recorded of a daemon at a time, as a line of
-- text. `F` is the type of floats; `float` and `int` of a text are arguments.
pub mod Lines
mod Examples
use ldms_test.Base.{
  ℕ, zero, suc, Text, Bool, true, false, List, [], ◌∷◌, Option, none, some, Result, ok, err,
  type_error, index_error, text_eq, ◌>>=◌, ◌==◌, ◌||◌, nat_eq, length, get_elem?,
}
use ldms_test.Base.Dict
use ldms_test.Base.Dict.{Dict}
use ldms_test.Base.Int.{ℤ, int_text}
use ldms_test.Base.Strings.{text, join, split}
use ldms_test.Scale.{number_from}

-- `FULL_STAT_METRICS`
abbrev pub full_stat_metrics : List Text
full_stat_metrics =
    text "pid"
    ∷ text "comm"
    ∷ text "state"
    ∷ text "ppid"
    ∷ text "pgrp"
    ∷ text "session"
    ∷ text "tty_nr"
    ∷ text "tpgid"
    ∷ text "flags"
    ∷ text "minflt"
    ∷ text "cminflt"
    ∷ text "majflt"
    ∷ text "cmajflt"
    ∷ text "utime"
    ∷ text "stime"
    ∷ text "cutime"
    ∷ text "cstime"
    ∷ text "priority"
    ∷ text "nice"
    ∷ text "num_threads"
    ∷ text "itrealvalue"
    ∷ text "starttime"
    ∷ text "vsize"
    ∷ text "rss"
    ∷ text "rsslim"
    ∷ text "startcode"
    ∷ text "endcode"
    ∷ text "startstack"
    ∷ text "kstkesp"
    ∷ text "kstkeip"
    ∷ text "signal"
    ∷ text "blocked"
    ∷ text "sigignore"
    ∷ text "sigcatch"
    ∷ text "wchan"
    ∷ text "nswap"
    ∷ text "cnswap"
    ∷ text "exit_signal"
    ∷ text "processor"
    ∷ text "rt_priority"
    ∷ text "policy"
    ∷ text "delayacct_blkio_ticks"
    ∷ text "guest_time"
    ∷ text "cguest_time"
    ∷ text "start_data"
    ∷ text "end_data"
    ∷ text "start_brk"
    ∷ text "arg_start"
    ∷ text "arg_end"
    ∷ text "env_start"
    ∷ text "env_end"
    ∷ text "exit_code"
    ∷ []

-- `FULL_STAT_METRICS_TYPE[i]` is `str`
unfoldable pub is_str : ℕ → Bool
is_str i = i == 1 || i == 2

-- `STAT_METRICS`
abbrev pub stat_metrics : List Text
stat_metrics =
    text "state"
    ∷ text "minflt"
    ∷ text "cminflt"
    ∷ text "majflt"
    ∷ text "cmajflt"
    ∷ text "utime"
    ∷ text "stime"
    ∷ text "cutime"
    ∷ text "cstime"
    ∷ text "num_threads"
    ∷ text "starttime"
    ∷ text "vsize"
    ∷ text "rss"
    ∷ text "rsslim"
    ∷ text "processor"
    ∷ text "rt_priority"
    ∷ text "policy"
    ∷ text "delayacct_blkio_ticks"
    ∷ text "guest_time"
    ∷ text "cguest_time"
    ∷ text "exit_code"
    ∷ []

index_in : Dict Text ℕ → List Text → List ℕ
index_in d [] = []
index_in d (k ∷ ks) = elim (Dict.lookup k d) [ none ↦ 0 | some i ↦ i ] ∷ index_in d ks

-- `STAT_METRICS_IDX`; all of them are in the table
unfoldable pub stat_metrics_idx : List ℕ
unfolding number_from index_in
stat_metrics_idx = index_in (number_from 0 full_stat_metrics []) stat_metrics

pub data Stat : Type 0 where
  num : ℤ → Stat
  chars : Text → Stat

pub record MonStat (F : Type 0) : Type 0 where
  pub ts : F
  pub name : Text
  pub fd : ℤ
  pub stats : List Stat

unfoldable pub stat_text : Stat → Text
stat_text (num z) = int_text z
stat_text (chars s) = s

-- `FULL_STAT_METRICS_TYPE[i](x)`
unfoldable pub convert : (Text → Result ℤ) → ℕ → Text → Result Stat
unfolding is_str
convert int i x = elim (is_str i) [ true ↦ ok (chars x) | false ↦ int x >>= λ z. ok (num z) ]

-- `for x, i in zip(args, idx)`
unfoldable pub convert_each : (Text → Result ℤ) → List Text → List ℕ → Result (List Stat)
unfolding convert
convert_each int [] idx = ok []
convert_each int (x ∷ xs) [] = ok []
convert_each int (x ∷ xs) (i ∷ idx) =
    convert int i x >>= λ s. convert_each int xs idx >>= λ rest. ok (s ∷ rest)

-- The entries of `_stat` at the indices
unfoldable pub stat_at : (Text → Result ℤ) → List Text → List ℕ → Result (List Stat)
unfolding convert
stat_at int stat [] = ok []
stat_at int stat (i ∷ idx) = elim (get_elem? stat i) [
  | none ↦ err index_error
  | some x ↦ convert int i x >>= λ s. stat_at int stat idx >>= λ rest. ok (s ∷ rest)
]

stat_texts : List Stat → List Text
unfolding stat_text
stat_texts [] = []
stat_texts (s ∷ ss) = stat_text s ∷ stat_texts ss

module _ {F : Type 0} (float : Text → Result F) (float_text : F → Text)
    (int : Text → Result ℤ) where
  -- `MonStat(*args)`, which takes all fields
  complete : F → Text → ℤ → List Stat → Result (MonStat F)
  complete t name fd stats = elim (length stats == length stat_metrics) [
    | true ↦ ok (record { ts = t; name = name; fd = fd; stats = stats })
    | false ↦ err type_error
  ]

  from_parts : List Text → Result (MonStat F)
  unfolding complete stat_metrics_idx convert_each
  from_parts (a ∷ (b ∷ (c ∷ args))) = float a >>= λ t.
      int c >>= λ fd. convert_each int args stat_metrics_idx >>= λ stats. complete t b fd stats
  from_parts [] = err index_error
  from_parts (a ∷ []) = float a >>= λ t. err index_error
  from_parts (a ∷ (b ∷ [])) = float a >>= λ t. err index_error

  -- `from_str`
  unfoldable pub from_str : Text → Result (MonStat F)
  unfolding from_parts
  from_str s = from_parts (split b' ' s)

  -- `__str__`
  unfoldable pub to_str : MonStat F → Text
  unfolding stat_texts
  to_str m = join (text " ") (float_text m.ts ∷ (m.name ∷ (int_text m.fd ∷ stat_texts m.stats)))

  -- `from_LDMSD`, with the time, the name, what `fd_num` returned, and what `stat` returned, with
  -- the text of its zeros
  unfoldable pub from_ldmsd : F → Text → ℤ → List Text → Result (MonStat F)
  unfolding complete stat_at
  from_ldmsd t name fd stat =
      stat_at int stat stat_metrics_idx >>= λ stats. complete t name fd stats
