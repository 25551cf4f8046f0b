-- ===== src/Layout/Variants.antt =====
-- `find_variant_case` of packages/upr_runtime/src/decoder/decoded_message.cpp, and the dense table
-- that packages/upr_compiler/src/compiler/schema_compiler.cpp builds for it. `std::lower_bound` is
-- the first case whose tag is not below the one sought, as it is on a sorted range.
use universal_protocol_runti.Base.{
  ℕ, suc, ◌+◌, ◌-◌, ◌%◌, ◌^◌, List, [], ◌∷◌, Option, none, some, ltb, leb, ◌==◌, if◌then◌else◌,
  length, get_elem?, set, replicate,
}
use universal_protocol_runti.Outcome.{Outcome, done, fault, ◌>>=◌}
use universal_protocol_runti.Layout.{CompiledField, CompiledVariantCase}

-- std::numeric_limits<uint32_t>::max()
abbrev pub variant_lookup_missing : ℕ
variant_lookup_missing = 0xFFFFFFFF

abbrev pub max_dense_variant_lookup_span : ℕ
max_dense_variant_lookup_span = 256

unfoldable pub lower_bound : List CompiledVariantCase → ℕ → Option CompiledVariantCase
lower_bound [] tag = none
lower_bound (candidate ∷ cases) tag =
    let rest = lower_bound cases tag in if ltb candidate.tag_value tag then rest else some candidate

-- it != end && it->tag_value == tag
abbrev pub if_tagged : ℕ → Option CompiledVariantCase → Option CompiledVariantCase
if_tagged tag none = none
if_tagged tag (some it) = if it.tag_value == tag then some it else none

unfoldable pub find_by_search : List CompiledVariantCase → ℕ → Option CompiledVariantCase
find_by_search cases tag = if_tagged tag (lower_bound cases tag)

-- What an entry of the table stands for.
unfoldable pub case_at : List CompiledVariantCase → ℕ → Outcome (Option CompiledVariantCase)
case_at cases case_index =
    if case_index == variant_lookup_missing
    then done none
    else elim (get_elem? cases case_index) [ some c ↦ done (some c) | none ↦ fault ]

unfoldable pub find_variant_case : CompiledField → ℕ → Outcome (Option CompiledVariantCase)
find_variant_case field tag =
    if length field.variant_lookup_indices == 0
    then done (find_by_search field.variant_cases tag)
    else if ltb tag field.variant_lookup_base
    then done none
    else elim (get_elem? field.variant_lookup_indices (tag - field.variant_lookup_base)) [
      | some case_index ↦ case_at field.variant_cases case_index
      | none ↦ done (find_by_search field.variant_cases tag)
    ]

-- for (case_index ...) variant_lookup_indices[variant_cases[case_index].tag_value - min_tag] = ...;
unfoldable pub fill_lookup : ℕ → List CompiledVariantCase → ℕ → List ℕ → Outcome (List ℕ)
fill_lookup min_tag [] case_index indices = done indices
fill_lookup min_tag (c ∷ cases) case_index indices =
    let rest =
      fill_lookup min_tag cases (suc case_index) (set indices (c.tag_value - min_tag) case_index) in
    if ltb (c.tag_value - min_tag) (length indices) then rest else fault

-- variant_cases.back().tag_value
unfoldable pub last_tag : CompiledVariantCase → List CompiledVariantCase → ℕ
last_tag c [] = c.tag_value
last_tag c (d ∷ cases) = last_tag d cases

-- `variant_lookup_base` and `variant_lookup_indices` for sorted cases.
unfoldable pub dense_lookup : List CompiledVariantCase → Outcome (ℕ × List ℕ)
dense_lookup [] = done (0, [])
dense_lookup (c ∷ cases) =
    let span = (last_tag c cases - c.tag_value + 1) % 2 ^ 64 in
    let filled = fill_lookup c.tag_value (c ∷ cases) 0 (replicate span variant_lookup_missing) in
    if leb span max_dense_variant_lookup_span
    then filled >>= (λ indices. done (c.tag_value, indices))
    else done (0, [])
