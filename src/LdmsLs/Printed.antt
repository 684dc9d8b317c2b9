-- ===== src/LdmsLs/Printed.antt =====
-- What `parse_ldms_ls` returns for the lines that `ldms_ls -l` and `ldms_ls -l -v` print.
use ldms_test.Base.{
  ◌≡◌, ◌≢◌, refl, ◌∙◌, Text, Option, none, some, List, [], ◌∷◌, ◌++◌, ◌==◌, text_eq, text_beq_iff,
  if◌then◌else◌, Result, ok, arith, All, append_assoc, eq_refl,
}
use ldms_test.Base.Dict
use ldms_test.Base.Dict.{Dict, lookup-insert}
use ldms_test.Base.Int.{ℤ}
use ldms_test.LdmsLs.{
  Line, blank, set_header, metric, Meta, Set, in_meta, in_data, closed, open_set, State, Metric,
  type_fn, metric_text, step, run, set_default, new_set, write_metric,
}

-- A metric as printed, with the value that it is to be read as.
pub record Reading : Type 0 where
  pub type : Text
  pub name : Text
  pub shown : Text
  pub value : Metric

-- The block of a set.
pub record Block : Type 0 where
  pub name : Text
  pub ts : Text
  pub readings : List Reading

metric_lines : List Reading → List Line
metric_lines [] = []
metric_lines (r ∷ rs) = metric r.type r.name r.shown ∷ metric_lines rs

unfoldable pub block_lines : Block → List Line
unfolding metric_lines
block_lines b = set_header b.name b.ts ∷ (metric_lines b.readings ++ (blank ∷ []))

unfoldable pub blocks_lines : List Block → List Line
blocks_lines [] = []
blocks_lines (b ∷ bs) = block_lines b ++ blocks_lines bs

-- the dicts that a block fills
abbrev pub metrics_of : Dict Text Metric → List Reading → Dict Text Metric
metrics_of d [] = d
metrics_of d (r ∷ rs) = metrics_of (Dict.insert r.name r.value d) rs

abbrev pub types_of : Dict Text Text → List Reading → Dict Text Text
types_of d [] = d
types_of d (r ∷ rs) = types_of (Dict.insert r.name r.type d) rs

abbrev pub filled : Block → Set → Set
filled b s = record s {
  name = b.name;
  ts = some b.ts;
  metrics = some (metrics_of [] b.readings);
  types = some (types_of [] b.readings);
}

abbrev pub or_new : Text → Option Set → Set
or_new n none = new_set n
or_new n (some s) = s

-- The set of `n` after a block, from what it was before.
abbrev pub after_block : Text → Option Set → Block → Option Set
after_block n old b = if b.name == n then some (filled b (or_new n old)) else old

abbrev pub after_blocks : Text → Option Set → List Block → Option Set
after_blocks n old [] = old
after_blocks n old (b ∷ bs) = after_blocks n (after_block n old b) bs

-- The set of `n` after a row of the meta section.
abbrev pub after_row : Text → Option Set → Meta → Option Set
after_row n old m =
    if m.instance_ == n then some (record (or_new n old) { name = n; meta = some m }) else old

abbrev pub after_rows : Text → Option Set → List Meta → Option Set
after_rows n old [] = old
after_rows n old (m ∷ ms) = after_rows n (after_row n old m) ms

set_default-name : (n : Text) (ret : Dict Text Set) → (set_default n ret).name ≡ n
unfolding set_default
set_default-name n ret = ground arith

-- The dict after a header, and after the metrics of its block.
block-lookup :
    (n : Text) (b : Block) (ret : Dict Text Set)
    → let s : Set = record (set_default b.name ret) {
      ts = some b.ts;
      metrics = some (metrics_of [] b.readings);
      types = some (types_of [] b.readings);
    } in
      (if b.name == n then some s else Dict.lookup n ret) ≡ after_block n (Dict.lookup n ret) b
unfolding set_default
block-lookup n b ret = ground (arith, text_beq_iff b.name n)

module _ (int0 : Text → Result ℤ) (to_float : Text → Result Text) where
  abbrev pub Reads : Reading → Type 0
  Reads r = type_fn int0 to_float r.type (metric_text r.type r.shown) ≡ ok r.value

  step-metric :
      (x : Reading) (st : State) (n : Text) (s : Set) (dm : Dict Text Metric) (dt : Dict Text Text)
      → st.section ≡ in_data
      → st.target ≡ open_set n
      → Dict.lookup n st.ret ≡ some s
      → s.name ≡ n
      → s.metrics ≡ some dm
      → s.types ≡ some dt
      → Reads x
      → step int0 to_float st (metric x.type x.name x.shown)
        ≡ ok (record st {
          ret =
              Dict.insert n
                (record s {
                  metrics = some (Dict.insert x.name x.value dm);
                  types = some (Dict.insert x.name x.type dt);
                })
                st.ret;
        })
  unfolding step set_default write_metric
  step-metric x st n s dm dt sec tgt found named hm ht r = ground (arith, found, r)

  -- The metrics of an open block go into the set of its header.
  run-metric_lines :
      (rs : List Reading) (rest : List Line) (st : State) (n : Text) (s : Set)
      (dm : Dict Text Metric) (dt : Dict Text Text)
      → st.section ≡ in_data
      → st.target ≡ open_set n
      → Dict.lookup n st.ret ≡ some s
      → s.name ≡ n
      → s.metrics ≡ some dm
      → s.types ≡ some dt
      → All Reads rs
      → (ret : Dict Text Set) × (run int0 to_float st (metric_lines rs ++ rest)
          ≡ run int0 to_float (record st { ret = ret }) rest)
        × ((m : Text)
            → Dict.lookup m ret ≡ (
                if n == m
                then some
                    (record s { metrics = some (metrics_of dm rs); types = some (types_of dt rs) })
                else Dict.lookup m st.ret))
  unfolding metric_lines run
  run-metric_lines [] rest st n s dm dt sec tgt found named hm ht r =
      (st.ret, refl, λ m. ground (arith, text_beq_iff n m, found, hm, ht))
  run-metric_lines (x ∷ rs) rest st n s dm dt sec tgt found named hm ht r =
      let s' : Set = record s {
        metrics = some (Dict.insert x.name x.value dm);
        types = some (Dict.insert x.name x.type dt);
      } in
      let st' : State = record st { ret = Dict.insert n s' st.ret } in
      let (ret, ran, seen) =
        run-metric_lines rs rest st' n s' (Dict.insert x.name x.value dm)
          (Dict.insert x.name x.type dt) sec tgt (lookup-insert n n s' st.ret ∙ rw eq_refl refl)
          named refl refl r.1 in
      (
        ret,
        rw (step-metric x st n s dm dt sec tgt found named hm ht r.0) ran,
        λ m. seen m ∙ ground (arith, lookup-insert m n s' st.ret),
      )

  step-header :
      (st : State) (b : Block)
      → st.section ≢ in_meta
      → step int0 to_float st (set_header b.name b.ts)
        ≡ ok (record {
          ret =
              Dict.insert b.name
                (record (set_default b.name st.ret) {
                  ts = some b.ts;
                  metrics = some [];
                  types = some [];
                })
                st.ret;
          section = in_data;
          target = open_set b.name;
        })
  unfolding step
  step-header st b sec = ground arith

  pub run-block :
      (b : Block) (rest : List Line) (st : State)
      → st.section ≢ in_meta
      → All Reads b.readings
      → (ret : Dict Text Set) × (run int0 to_float st (block_lines b ++ rest)
          ≡ run int0 to_float (record { ret = ret; section = in_data; target = closed }) rest)
        × ((n : Text) → Dict.lookup n ret ≡ after_block n (Dict.lookup n st.ret) b)
  unfolding block_lines run
  run-block b rest st sec r =
      let s : Set = record (set_default b.name st.ret) {
        ts = some b.ts;
        metrics = some [];
        types = some [];
      } in
      let st' : State = record {
        ret = Dict.insert b.name s st.ret;
        section = in_data;
        target = open_set b.name;
      } in
      let (ret, ran, seen) =
        run-metric_lines b.readings (blank ∷ rest) st' b.name s [] [] refl refl
          (lookup-insert b.name b.name s st.ret ∙ rw eq_refl refl) (set_default-name b.name st.ret)
          refl refl r in
      (
        ret,
        rw (step-header st b sec) (rw append_assoc (ran ∙ unfold step in refl)),
        λ n. seen n ∙ ground (arith, lookup-insert n b.name s st.ret) ∙ block-lookup n b st.ret,
      )
