-- ===== src/Scale/Commands.antt =====
-- scalability/ldmsdutils.py, `getConfig` and `getCmdline` of the daemons: the text of the
-- configuration and the command line. Numbers of microseconds are taken to be exact as floats.
use ldms_test.Base.{
  ℕ, zero, suc, ◌*◌, ◌/◌, Text, Bool, true, false, List, [], ◌∷◌, ◌++◌, Option, none, some, Result,
  ok, err, value_error, length, ◌>>=◌, String,
}
use ldms_test.Base.Strings.{text, decimal}
use ldms_test.Scale.{
  Config, samp, l1, l2, l3, Daemon, dl, rsplit, get_prdcr, sampler_dir, l1_dir, l2_dir, l3_dir,
}

-- ` key=value`
pair : String → Text → Text
pair key value = b' ' ∷ (text key ++ (b'=' ∷ value))

-- `LISTEN_CFG_TMP`
unfoldable pub listen_cfg : Config → Daemon → Text
unfolding pair
listen_cfg c d =
    text "listen"
    ++ (pair "host" d.host ++ (pair "port" d.port ++ (pair "xprt" c.xprt ++ text "\n")))

add_set : Daemon → ℕ → Text
add_set d i =
    text "config name=test_sampler action=add_set instance="
    ++ (d.name
        ++ (text "/set_"
            ++ (decimal i
                ++ (text " schema=test component_id="
                    ++ (decimal (suc d.idx) ++ (text " producer=" ++ (d.name ++ text "\n")))))))

add_sets : Daemon → ℕ → ℕ → Text
unfolding add_set
add_sets d i zero = []
add_sets d i (suc n) = add_set d i ++ add_sets d (suc i) n

-- `SAMPLER_CFG_TMP`, and `getConfig` of a sampler
unfoldable pub sampler_cfg : Config → Daemon → Text
unfolding listen_cfg add_sets
sampler_cfg c d =
    listen_cfg c d
    ++ (text
          "\nload name=test_sampler\nconfig name=test_sampler action=add_schema schema=test num_metrics=2 type=U64\n"
        ++ (add_sets d 0 c.sets_per_samp
            ++ text "\nstart name=test_sampler interval=1000000 offset=0\n"))

-- `PRDCR_ADD_TMP`
prdcr_add : Config → Text → Text → Text → Text
unfolding pair
prdcr_add c name host port =
    text "prdcr_add"
    ++ (pair "name" name
        ++ (pair "host" host
            ++ (pair "port" port
                ++ (pair "xprt" c.xprt
                    ++ (text " type=active"
                        ++ (pair "interval" (decimal c.conn_interval) ++ text "\n"))))))

-- The loop over the producers
unfoldable pub prdcr_adds : Config → List Text → Result Text
unfolding prdcr_add
prdcr_adds c [] = ok []
prdcr_adds c (k ∷ ks) = elim (rsplit k) [
  | none ↦ err value_error
  | some (h, p) ↦ prdcr_adds c ks >>= λ rest. ok (prdcr_add c k h p ++ rest)
]

-- `PRDCR_START_REGEX` and `UPDTR_ADD_START_TMP`
abbrev prdcr_start : Text
prdcr_start = text "prdcr_start_regex regex=.*\n"

updtr_cfg : Config → ℕ → Text
unfolding pair
updtr_cfg c offset =
    text "\nupdtr_add name=all"
    ++ (pair "interval" (decimal c.samp_interval)
        ++ (pair "offset" (decimal offset)
            ++ text "\nupdtr_prdcr_add name=all regex=.*\nupdtr_start name=all\n"))

-- `getConfig` of the aggregators of the first and second level
unfoldable pub agg_cfg : Config → Daemon → ℕ → Result Text
unfolding listen_cfg prdcr_adds updtr_cfg get_prdcr
agg_cfg c d offset = get_prdcr c d >>= λ ps.
    prdcr_adds c ps >>= λ adds. ok (listen_cfg c d ++ (adds ++ (prdcr_start ++ updtr_cfg c offset)))

-- `L3_STORE_CFG_TMP`, if there is a root
store_cfg : Option Text → Text
store_cfg none = []
store_cfg (some []) = []
store_cfg (some (x ∷ root)) =
    text "\nload name=store_sos\nconfig name=store_sos path="
    ++ ((x ∷ root)
        ++ text
            "\n\nstrgp_add name=test_sos plugin=store_sos container=test schema=test\nstrgp_prdcr_add name=test_sos regex=.*\nstrgp_start name=test_sos\n")

-- `getConfig` of the top aggregator
unfoldable pub top_cfg : Config → Daemon → ℕ → Result Text
unfolding listen_cfg prdcr_adds updtr_cfg store_cfg
top_cfg c d offset = prdcr_adds c (dl c l2) >>= λ adds.
    ok (
      listen_cfg c d
      ++ (adds ++ (prdcr_start ++ (store_cfg c.l3_store_root ++ updtr_cfg c offset))))

-- `getConfig`, with the offset of each level
unfoldable pub get_config : Config → Daemon → Result Text
unfolding sampler_cfg agg_cfg top_cfg
get_config c d = elim d.level [
  | samp ↦ ok (sampler_cfg c d)
  | l1 ↦ agg_cfg c d (c.samp_interval / 10)
  | l2 ↦ agg_cfg c d (25 * c.samp_interval / 100)
  | l3 ↦ top_cfg c d (45 * c.samp_interval / 100)
]

-- `getExpectedDir`
unfoldable pub expected_dir : Config → Daemon → Result (List Text)
unfolding sampler_dir l1_dir l2_dir l3_dir
expected_dir c d = elim d.level [
  | samp ↦ sampler_dir c d.name
  | l1 ↦ l1_dir c d.name
  | l2 ↦ l2_dir c d.name
  | l3 ↦ l3_dir c d.name
]

-- `"conf/{}/{}.conf"`, and the same for the other files of a daemon
abbrev pub file_of : String → String → Daemon → Text
file_of dir suffix d = text dir ++ (b'/' ∷ (d.host ++ (b'/' ∷ (d.name ++ (b'.' ∷ text suffix)))))

-- `getCmdline`
unfoldable pub get_cmdline : Config → Daemon → Bool → Result Text
unfolding expected_dir
get_cmdline c d gdb = expected_dir c d >>= λ sets. ok (
    elim gdb [ true ↦ text "gdb --args" | false ↦ [] ]
    ++ (text " ldmsd "
        ++ (elim gdb [ true ↦ text "-F" | false ↦ [] ]
            ++ (text " -c "
                ++ (file_of "conf" "conf" d
                    ++ (text " -r "
                        ++ (file_of "pid" "pid" d
                            ++ (text " -t -l "
                                ++ (file_of "log" "log" d
                                    ++ (text " -v "
                                        ++ (c.log_level
                                            ++ (text "  -m "
                                                ++ (decimal (c.mem_per_set * length sets)
                                                    ++ text " ")))))))))))))
