-- ===== src/LdmsLs/Listing.antt =====
-- What `parse_ldms_ls` returns for whole listings, those of `ldms_ls -l` and of `ldms_ls -l -v`.
use ldms_test.Base.{
  ◌≡◌, ◌≢◌, refl, Text, none, some, List, [], ◌∷◌, ◌++◌, ap, ◌∙◌, text_eq, text_beq_iff, Result, ok,
  All, map, arith,
}
use ldms_test.Base.Dict
use ldms_test.Base.Dict.{Dict, lookup-insert}
use ldms_test.Base.Int.{ℤ}
use ldms_test.LdmsLs.{
  Line, blank, meta_begin, meta_dashes, meta_summary, meta_end, pre_meta, meta_data, Meta, Set,
  in_pre_meta, in_meta, in_data, Section, Target, unbound, closed, State, initial, step, run,
  set_default, parse_ldms_ls,
}
use ldms_test.LdmsLs.Printed.{
  Block, blocks_lines, after_blocks, after_row, after_rows, Reads, run-block,
}

-- Blank lines
IsGap : List Line → Type 0
IsGap [] = Unit
IsGap (blank ∷ ls) = IsGap ls
IsGap (_ ∷ ls) = ⊥

-- The lines of the table of the sets: a row for each of these, rules, blank lines and the sums
-- anywhere, and the end
IsTable : List Line → List Meta → Type 0
unfolding IsGap
IsTable (blank ∷ ls) ms = IsTable ls ms
IsTable (meta_dashes ∷ ls) ms = IsTable ls ms
IsTable (meta_summary ∷ ls) ms = IsTable ls ms
IsTable (meta_data m ∷ ls) [] = ⊥
IsTable (meta_data m ∷ ls) (n ∷ ms) = (m ≡ n) × IsTable ls ms
IsTable (meta_end ∷ ls) ms = (ms ≡ []) × IsGap ls
IsTable _ ms = ⊥

-- What `ldms_ls -l -v` prints before the sets: lines of the host and the table.
unfoldable pub IsFront : List Line → List Meta → Type 0
unfolding IsTable
IsFront (blank ∷ ls) ms = IsFront ls ms
IsFront (pre_meta ∷ ls) ms = IsFront ls ms
IsFront (meta_begin ∷ ls) ms = IsTable ls ms
IsFront _ ms = ⊥

abbrev state : Dict Text Set → Section → Target → State
state ret sec tgt = record { ret = ret; section = sec; target = tgt }

row-lookup :
    (n : Text) (m : Meta) (ret : Dict Text Set)
    → let s : Set = record (set_default m.instance_ ret) { meta = some m } in
      Dict.lookup n (Dict.insert m.instance_ s ret) ≡ after_row n (Dict.lookup n ret) m
unfolding set_default
row-lookup n m ret = lookup-insert n m.instance_ _ ret ∙ ground (arith, text_beq_iff m.instance_ n)

module _ (int0 : Text → Result ℤ) (to_float : Text → Result Text) where
  abbrev pub BlockReads : Block → Type 0
  BlockReads b = All (Reads int0 to_float) b.readings

  run-blocks :
      (bs : List Block) (st : State)
      → st.section ≢ in_meta
      → All BlockReads bs
      → (st' : State) × (run int0 to_float st (blocks_lines bs) ≡ ok st')
        × ((n : Text) → Dict.lookup n st'.ret ≡ after_blocks n (Dict.lookup n st.ret) bs)
  unfolding blocks_lines run
  run-blocks [] st sec r = (st, refl, λ n. refl)
  run-blocks (b ∷ bs) st sec r =
      let (ret, ran, seen) = run-block int0 to_float b (blocks_lines bs) st sec r.0 in
      let u : State = record { ret = ret; section = in_data; target = closed } in
      let (st', ran', seen') = run-blocks bs u (λ e. cc) r.1 in
      (st', ran ∙ ran', λ n. seen' n ∙ rw (seen n) refl)

  run-gap :
      (ls : List Line) (bs : List Block) (ret : Dict Text Set) (tgt : Target)
      → IsGap ls
      → (new : Target) × (run int0 to_float (state ret in_data tgt) (ls ++ blocks_lines bs)
          ≡ run int0 to_float (state ret in_data new) (blocks_lines bs))
  unfolding IsGap run step
  run-gap [] bs ret tgt h = (tgt, refl)
  run-gap (blank ∷ ls) bs ret tgt h = run-gap ls bs ret closed h
  run-gap (_ ∷ ls) bs ret tgt h = absurd h

  -- What a run from a state ends with: each set as it was, with its row and its block.
  Shows : List Meta → List Block → List Line → State → Type 0
  Shows ms bs ls st =
      (st' : State) × (run int0 to_float st (ls ++ blocks_lines bs) ≡ ok st')
      × ((n : Text)
          → Dict.lookup n st'.ret ≡ after_blocks n (after_rows n (Dict.lookup n st.ret) ms) bs)

  run-table :
      (ls : List Line) (ms : List Meta) (bs : List Block) (old : Dict Text Set) (tgt : Target)
      → IsTable ls ms
      → All BlockReads bs
      → Shows ms bs ls (state old in_meta tgt)
  unfolding IsTable run step Shows
  run-table (blank ∷ ls) ms bs old tgt h r = run-table ls ms bs old closed h r
  run-table (meta_dashes ∷ ls) ms bs old tgt h r = run-table ls ms bs old tgt h r
  run-table (meta_summary ∷ ls) ms bs old tgt h r = run-table ls ms bs old tgt h r
  run-table (meta_data m ∷ ls) [] bs old tgt h r = absurd h
  run-table (meta_data m ∷ ls) (n ∷ ms) bs old tgt (e, h) r =
      let s : Set = record (set_default m.instance_ old) { meta = some m } in
      let (st', ran, seen) = run-table ls ms bs (Dict.insert m.instance_ s old) tgt h r in
      (
        st',
        ran,
        λ k.
            seen k
            ∙ rw (row-lookup k m old) (
                ap (λ x. after_blocks k (after_rows k (after_row k (Dict.lookup k old) x) ms) bs)
                  e),
      )
  run-table (meta_end ∷ ls) ms bs old tgt (e, h) r =
      let (new, p) = run-gap ls bs old tgt h in
      let (st', ran, seen) = run-blocks bs (state old in_data new) (λ e. cc) r in
      (st', p ∙ ran, λ n. seen n ∙ rw e refl)
  run-table (_ ∷ ls) ms bs old tgt h r = absurd h
  run-table [] ms bs old tgt h r = absurd h

  run-front :
      (ls : List Line) (ms : List Meta) (bs : List Block) (old : Dict Text Set) (tgt : Target)
      → IsFront ls ms
      → All BlockReads bs
      → Shows ms bs ls (state old in_pre_meta tgt)
  unfolding IsFront run step Shows
  run-front (blank ∷ ls) ms bs old tgt h r = run-front ls ms bs old closed h r
  run-front (pre_meta ∷ ls) ms bs old tgt h r = run-front ls ms bs old tgt h r
  run-front (meta_begin ∷ ls) ms bs old tgt h r = run-table ls ms bs old tgt h r
  run-front (_ ∷ ls) ms bs old tgt h r = absurd h
  run-front [] ms bs old tgt h r = absurd h

  -- Where `_LS_RE` reads the lines as those of a verbose listing, lines of the host, the table of
  -- the sets and their blocks, with blank lines anywhere before the blocks, and each value can be
  -- read at its type, `parse_ldms_ls` returns a dict: under each name it has the row of the table
  -- and the metrics of the block for that name, the last ones if there are several, and nothing
  -- under a name that is in neither.
  pub parse_ldms_ls-verbose :
      (classify : Text → Line) (lines : List Text) (front : List Line) (ms : List Meta)
      (bs : List Block)
      → map classify lines ≡ front ++ blocks_lines bs
      → IsFront front ms
      → All BlockReads bs
      → (ret : Dict Text Set) × (parse_ldms_ls int0 to_float classify lines ≡ ok ret)
        × ((n : Text) → Dict.lookup n ret ≡ after_blocks n (after_rows n none ms) bs)
  unfolding parse_ldms_ls Dict.lookup Shows
  parse_ldms_ls-verbose classify lines front ms bs e f r =
      let (st, ran, seen) = run-front front ms bs [] unbound f r in
      (st.ret, rw e (rw ran refl), seen)

  -- Of a listing in the form of `ldms_ls -l`, the blocks alone, it returns the sets of the blocks.
  pub parse_ldms_ls-blocks :
      (classify : Text → Line) (lines : List Text) (bs : List Block)
      → map classify lines ≡ blocks_lines bs
      → All BlockReads bs
      → (ret : Dict Text Set) × (parse_ldms_ls int0 to_float classify lines ≡ ok ret)
        × ((n : Text) → Dict.lookup n ret ≡ after_blocks n none bs)
  unfolding parse_ldms_ls Dict.lookup
  parse_ldms_ls-blocks classify lines bs e r =
      let (st, ran, seen) = run-blocks bs initial (λ q. cc) r in (st.ret, rw e (rw ran refl), seen)
