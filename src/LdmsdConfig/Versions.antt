-- ===== src/LdmsdConfig/Versions.antt =====
-- How the version of `ldmsd` changes what `get_ldmsd_config` writes.
use ldms_test.Base.{
  ℕ, ◌<◌, ◌≤◌, ◌≡◌, ◌⊎◌, inl, inr, refl, ◌∙◌, Text, true, false, none, some, [], ◌==◌, text_eq,
  text_beq, arith,
}
use ldms_test.Base.Dict
use ldms_test.Base.Dict.{Dict, lookup-erase}
use ldms_test.Base.Strings.{text}
use ldms_test.Value.{Value, Fields, null, int, str, dict, items, of_items}
use ldms_test.Base.Int.{pos}
use ldms_test.Value.Laws.{items-of_items}
use ldms_test.LdmsdConfig.{Version, is_new, sampler, get_ldmsd_config, item, get_or}

is_new-old :
    (v : Version) → (v.major < 4) ⊎ ((v.major ≡ 4) × (v.minor < 100)) → is_new (some v) ≡ false
unfolding is_new
is_new-old v (inl h) = ground arith
is_new-old v (inr h) = ground arith

is_new-recent :
    (v : Version) → (4 < v.major) ⊎ ((v.major ≡ 4) × (100 ≤ v.minor)) → is_new (some v) ≡ true
unfolding is_new
is_new-recent v (inl h) = ground arith
is_new-recent v (inr h) = ground arith

-- For every version below 4.100 the configuration is the one that is written without a version.
pub get_ldmsd_config-old :
    (repr : Value → Text) (fuel : ℕ) (fs : Fields) (v : Version)
    → (v.major < 4) ⊎ ((v.major ≡ 4) × (v.minor < 100))
    → get_ldmsd_config repr fuel fs (some v) ≡ get_ldmsd_config repr fuel fs none
unfolding get_ldmsd_config
get_ldmsd_config-old repr fuel fs v old = rw (is_new-old v old) (unfold is_new in refl)

lookup_other :
    (k : Text) (d : Dict Text Value)
    → (text "exclusive_thread" == k) ≡ false
    → Dict.lookup k (Dict.erase (text "exclusive_thread") d) ≡ Dict.lookup k d
lookup_other k d h = lookup-erase k (text "exclusive_thread") d ∙ rw h refl

item_other :
    (k : Text) (d : Dict Text Value)
    → (text "exclusive_thread" == k) ≡ false
    → item k (Dict.erase (text "exclusive_thread") d) ≡ item k d
unfolding item
item_other k d h = rw (lookup_other k d h, item)

get_or_other :
    (v : Value) (k : Text) (d : Dict Text Value)
    → (text "exclusive_thread" == k) ≡ false
    → get_or v k (Dict.erase (text "exclusive_thread") d) ≡ get_or v k d
unfolding get_or
get_or_other v k d h = rw (lookup_other k d h, get_or)

-- For a version from 4.100 on the commands of a sampler are the same with and without its
-- `exclusive_thread`: the option is accepted and has no effect.
pub sampler-exclusive_thread_ignored :
    (repr : Value → Text) (v : Version) (fs : Fields)
    → (4 < v.major) ⊎ ((v.major ≡ 4) × (100 ≤ v.minor))
    → let new = is_new (some v) in
      let without = of_items (Dict.erase (text "exclusive_thread") (items fs)) in
      sampler repr new (dict without) ≡ sampler repr new (dict fs)
unfolding sampler text_beq
sampler-exclusive_thread_ignored repr v fs from = rw (
  is_new-recent v from,
  items-of_items,
  item_other (text "plugin") (items fs) refl,
  item_other (text "config") (items fs) refl,
  get_or_other (int (pos 2000000)) (text "interval") (items fs) refl,
  get_or_other (str []) (text "offset") (items fs) refl,
  get_or_other null (text "start") (items fs) refl,
)
