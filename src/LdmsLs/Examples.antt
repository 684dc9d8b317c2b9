-- ===== src/LdmsLs/Examples.antt =====
-- Runs of `parse_ldms_ls`, and its theorems at concrete data.
use ldms_test.Base.{
  ◌≡◌, ◌↔◌, refl, Text, false, none, some, List, [], ◌∷◌, ◌++◌, ◌==◌, text_eq, text_beq, contains,
  map, Result, ok, err, value_error, runtime_error, if◌then◌else◌, All,
}
use ldms_test.Base.Dict
use ldms_test.Base.Dict.{Dict}
use ldms_test.Base.Strings.{text, split_once, strip}
use ldms_test.Base.Int.{ℤ, pos}
use ldms_test.LdmsLs.{
  Line, blank, bad, meta_begin, meta_dashes, meta_summary, meta_end, pre_meta, meta_data,
  set_header, metric, Meta, Set, int, chars, in_pre_meta, type_fn, metric_text, step, run,
  parse_ldms_ls,
}
use ldms_test.LdmsLs.Printed.{Block, Reading, after_blocks, after_rows, blocks_lines, block_lines}
use ldms_test.LdmsLs.Listing.{IsFront, BlockReads, parse_ldms_ls-verbose}
use ldms_test.LdmsLs.Sections.{InOrder, Readable, parse_ldms_ls-InOrder}

-- One number that can be read, by its text.
int0 : Text → Result ℤ
int0 s = if s == text "42" then ok (pos 42) else err value_error

to_float : Text → Result Text
to_float s = ok s

abbrev row : Meta
row = record {
  schema_digest = none;
  schema = text "meminfo";
  instance_ = text "n1/meminfo";
  flags = text "CL";
  meta_sz = text "2048";
  data_sz = text "512";
  heap_sz = text "0";
  uid = text "0";
  gid = text "0";
  perm = text "-r--r-----";
  update_ = text "0.000";
  duration = text "0.000";
  info = none;
}

abbrev readings : List Reading
readings =
    record { type = text "u64"; name = text "MemFree"; shown = text "42 kB"; value = int (pos 42) }
    ∷ (record {
      type = text "char[]";
      name = text "job";
      shown = text "\"a b\"";
      value = chars (text "a b");
    }
        ∷ [])

abbrev block : Block
block = record { name = text "n1/meminfo"; ts = text "Mon Jul  1"; readings = readings }

-- What the pattern finds in each line of the text.
abbrev table : Dict Text Line
table =
    (text "host : n1", pre_meta)
    ∷ ((text "Schema Instance Flags Info", meta_begin)
        ∷ ((text "----", meta_dashes)
            ∷ ((text "row", meta_data row)
                ∷ ((text "Total Sets: 1", meta_summary)
                    ∷ ((text "====", meta_end)
                        ∷ ((
                          text "n1/meminfo: consistent, last update: Mon Jul  1",
                          set_header block.name block.ts,
                        )
                            ∷ ((
                              text "M u64 MemFree 42 kB",
                              metric (text "u64") (text "MemFree") (text "42 kB"),
                            )
                                ∷ ((
                                  text "M char[] job \"a b\"",
                                  metric (text "char[]") (text "job") (text "\"a b\""),
                                )
                                    ∷ ((text "", blank) ∷ [])))))))))

classify : Text → Line
classify l = elim (Dict.lookup l table) [ none ↦ bad | some x ↦ x ]

abbrev block_text : List Text
block_text =
    text "n1/meminfo: consistent, last update: Mon Jul  1"
    ∷ (text "M u64 MemFree 42 kB" ∷ (text "M char[] job \"a b\"" ∷ (text "" ∷ [])))

abbrev verbose_text : List Text
verbose_text =
    text "host : n1"
    ∷ text ""
    ∷ text "Schema Instance Flags Info"
    ∷ text "----"
    ∷ text "row"
    ∷ text "----"
    ∷ text "Total Sets: 1"
    ∷ text ""
    ∷ text "===="
    ∷ text ""
    ∷ block_text

abbrev front : List Line
front =
    pre_meta
    ∷ blank
    ∷ meta_begin
    ∷ meta_dashes
    ∷ meta_data row
    ∷ meta_dashes
    ∷ meta_summary
    ∷ blank
    ∷ meta_end
    ∷ blank
    ∷ []

block_reads : BlockReads int0 to_float block
unfolding type_fn metric_text int0 contains text_beq split_once strip
block_reads = (refl, (refl, tt))

verbose_parsed : map classify verbose_text ≡ front ++ blocks_lines (block ∷ [])
unfolding classify Dict.lookup text_beq blocks_lines block_lines
verbose_parsed = refl

blocks_parsed : map classify block_text ≡ blocks_lines (block ∷ [])
unfolding classify Dict.lookup text_beq blocks_lines block_lines
blocks_parsed = refl

parse_ldms_ls-verbose_example :
    (ret : Dict Text Set) × (parse_ldms_ls int0 to_float classify verbose_text ≡ ok ret)
    × ((n : Text) → Dict.lookup n ret ≡ after_blocks n (after_rows n none (row ∷ [])) (block ∷ []))
unfolding IsFront
parse_ldms_ls-verbose_example =
    parse_ldms_ls-verbose int0 to_float classify verbose_text front (row ∷ []) (block ∷ [])
      verbose_parsed (refl, (refl, tt)) (block_reads, tt)

block-Readable : All (Readable int0 to_float) (map classify block_text)
unfolding classify Dict.lookup text_beq type_fn metric_text int0 contains split_once strip
block-Readable = (tt, ((int (pos 42), refl), ((chars (text "a b"), refl), (tt, tt))))

parse_ldms_ls-InOrder_example :
    ((ret : Dict Text Set) × (parse_ldms_ls int0 to_float classify block_text ≡ ok ret))
    ↔ InOrder in_pre_meta false (map classify block_text)
parse_ldms_ls-InOrder_example =
    parse_ldms_ls-InOrder int0 to_float classify block_text block-Readable

-- A metric before the header of any set.
late_metric :
    parse_ldms_ls int0 to_float classify (text "M u64 MemFree 42 kB" ∷ []) ≡ err runtime_error
unfolding parse_ldms_ls run step classify Dict.lookup text_beq
late_metric = refl
