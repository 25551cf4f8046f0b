-- ===== src/Layout/Table.antt =====
-- The dense table of variant cases that the compiler builds finds what a scan of the cases finds.
use native.Mathlib.Nat.{mod-eq_of_lt}
use universal_protocol_runti.Base.{
  ℕ, zero, suc, ◌+◌, ◌-◌, ◌%◌, ◌^◌, ◌≤◌, ◌<◌, ◌≡◌, ◌⊎◌, refl, ap, ◌∙◌, false, List, [], ◌∷◌, Option,
  none, some, inl, inr, ltb, leb, ltb→lt, ltb→le, leb→le, ◌==◌, if◌then◌else◌, length, get_elem?,
  set, replicate, arith, length-set, length-replicate, Bool-cases,
}
use universal_protocol_runti.Outcome.{done, ◌>>=◌}
use universal_protocol_runti.Layout.{CompiledField, CompiledVariantCase}
use universal_protocol_runti.Layout.Variants.{
  lower_bound, find_by_search, case_at, find_variant_case, fill_lookup, last_tag, dense_lookup,
  variant_lookup_missing,
}

-- Sorted by tag with no tag twice, each at least `m`.
abbrev pub IsSortedFrom : ℕ → List CompiledVariantCase → Type 0
IsSortedFrom m [] = Unit {0}
IsSortedFrom m (c ∷ cases) = (m ≤ c.tag_value) × IsSortedFrom (suc c.tag_value) cases

-- The reference: the first case with this tag.
unfoldable pub find_linear : List CompiledVariantCase → ℕ → Option CompiledVariantCase
find_linear [] tag = none
find_linear (c ∷ cases) tag =
    let rest = find_linear cases tag in if c.tag_value == tag then some c else rest

find_linear_below :
    (cases : List CompiledVariantCase) (m tag : ℕ)
    → IsSortedFrom m cases
    → tag < m
    → find_linear cases tag ≡ none
unfolding find_linear
find_linear_below [] m tag s h = refl
find_linear_below (c ∷ cases) m tag s h =
    ground (arith, find_linear_below cases (suc c.tag_value) tag s.1 (omega arith))

find_by_search-linear :
    (cases : List CompiledVariantCase) (m tag : ℕ)
    → IsSortedFrom m cases
    → find_by_search cases tag ≡ find_linear cases tag
unfolding find_by_search lower_bound find_linear
find_by_search-linear [] m tag s = refl
find_by_search-linear (c ∷ cases) m tag s = ground (
  arith,
  find_by_search-linear cases (suc c.tag_value) tag s.1,
  find_linear_below cases (suc c.tag_value) tag s.1,
)

-- What the entry at `j` of the table is after the cases are entered from index `k` on.
entry : ℕ → List CompiledVariantCase → ℕ → ℕ → ℕ → ℕ
entry min_tag [] k j old = old
entry min_tag (c ∷ cases) k j old =
    entry min_tag cases (suc k) j (if c.tag_value - min_tag == j then k else old)

get-set :
    (xs : List ℕ) (i j v x : ℕ)
    → get_elem? xs j ≡ some x
    → get_elem? (set xs i v) j ≡ some (if i == j then v else x)
get-set [] i j v x h = cc
get-set (y ∷ xs) zero zero v x h = refl
get-set (y ∷ xs) zero (suc j) v x h = ground arith
get-set (y ∷ xs) (suc i) zero v x h = ground arith
get-set (y ∷ xs) (suc i) (suc j) v x h = ground (arith, get-set xs i j v x h)

-- All the tags lie below `min_tag` and the length of the table.
Fits : ℕ → ℕ → List CompiledVariantCase → Type 0
Fits min_tag n [] = Unit {0}
Fits min_tag n (c ∷ cases) = (c.tag_value - min_tag < n) × Fits min_tag n cases

fill_lookup-entry :
    (min_tag : ℕ) (cases : List CompiledVariantCase) (k : ℕ) (indices : List ℕ)
    → Fits min_tag (length indices) cases
    → (filled : List ℕ) × (fill_lookup min_tag cases k indices ≡ done filled)
      × (length filled ≡ length indices)
      × ((j x : ℕ)
          → get_elem? indices j ≡ some x
          → get_elem? filled j ≡ some (entry min_tag cases k j x))
unfolding fill_lookup entry Fits
fill_lookup-entry min_tag [] k indices h = (indices, refl, refl, λ j x e. e)
fill_lookup-entry min_tag (c ∷ cases) k indices h =
    let i : ℕ = c.tag_value - min_tag in
    let (filled, e, n, g) =
      fill_lookup-entry min_tag cases (suc k) (set indices i k) (rw (length-set indices i k) h.1) in
    (
      filled,
      ground (arith, length-set indices i k),
      n ∙ length-set indices i k,
      λ j x e'. g j (if i == j then k else x) (get-set indices i j k x e'),
    )

last_tag_ge :
    (c : CompiledVariantCase) (cases : List CompiledVariantCase)
    → IsSortedFrom (suc c.tag_value) cases
    → c.tag_value ≤ last_tag c cases
unfolding last_tag
last_tag_ge c [] s = omega arith
last_tag_ge c (d ∷ cases) s = omega (arith, last_tag_ge d cases s.1, s.0)

Fits-last :
    (min_tag n : ℕ) (c : CompiledVariantCase) (cases : List CompiledVariantCase)
    → IsSortedFrom (suc c.tag_value) cases
    → min_tag ≤ c.tag_value
    → last_tag c cases < min_tag + n
    → Fits min_tag n (c ∷ cases)
unfolding Fits last_tag
Fits-last min_tag n c [] s l h = (omega arith, tt)
Fits-last min_tag n c (d ∷ cases) s l h = (
  omega (arith, last_tag_ge d cases s.1, s.0),
  Fits-last min_tag n d cases s.1 (omega (arith, s.0)) h,
)

entry_below :
    (min_tag : ℕ) (cases : List CompiledVariantCase) (k m tag old : ℕ)
    → IsSortedFrom m cases
    → min_tag ≤ tag
    → tag < m
    → entry min_tag cases k (tag - min_tag) old ≡ old
unfolding entry
entry_below min_tag [] k m tag old s l h = refl
entry_below min_tag (c ∷ cases) k m tag old s l h =
    ground (arith, entry_below min_tag cases (suc k) (suc c.tag_value) tag old s.1)

-- Where the table points for a tag.
Points : List CompiledVariantCase → ℕ → ℕ → ℕ → ℕ → ℕ → Type 0
Points cases k m tag old e =
    ((find_linear cases tag ≡ none) × (e ≡ old))
    ⊎ ((p : ℕ) × (e ≡ k + p)
        × (m + p ≤ tag)
        × (c : CompiledVariantCase) × (find_linear cases tag ≡ some c)
        × (get_elem? cases p ≡ some c))

entry-Points :
    (min_tag : ℕ) (cases : List CompiledVariantCase) (k m tag old : ℕ)
    → IsSortedFrom m cases
    → min_tag ≤ m
    → min_tag ≤ tag
    → Points cases k m tag old (entry min_tag cases k (tag - min_tag) old)
unfolding entry find_linear Points
entry-Points min_tag [] k m tag old s l h = inl (refl, refl)
entry-Points min_tag (c ∷ cases) k m tag old s l h = elim (Bool-cases (c.tag_value == tag)) [
  | inl e ↦ inr (
    0,
    ground (arith, entry_below min_tag cases (suc k) (suc c.tag_value) tag k s.1),
    ground arith,
    c,
    rw e refl,
    refl,
  )
  | inr e ↦
      elim (entry-Points min_tag cases (suc k) (suc c.tag_value) tag old s.1 (omega arith) h) [
        | inl (n, o) ↦ inl (ground (arith, n), ground (arith, o))
        | inr (p, o, b, d, f, g) ↦
            inr (suc p, ground (arith, o), omega arith, d, ground (arith, f), g)
      ]
]

get-replicate : (n j v : ℕ) → j < n → get_elem? (replicate n v) j ≡ some v
get-replicate zero j v h = absurd (omega arith)
get-replicate (suc n) zero v h = refl
get-replicate (suc n) (suc j) v h = get-replicate n j v (omega arith)

get_beyond : (xs : List ℕ) (j : ℕ) → length xs ≤ j → get_elem? xs j ≡ none
get_beyond [] j h = refl
get_beyond (x ∷ xs) zero h = absurd (omega arith)
get_beyond (x ∷ xs) (suc j) h = get_beyond xs j (omega arith)

case_at-Points :
    (cases : List CompiledVariantCase) (m tag e : ℕ)
    → tag < m + 256
    → Points cases 0 m tag variant_lookup_missing e
    → case_at cases e ≡ done (find_linear cases tag)
unfolding Points case_at
case_at-Points cases m tag e h (inl (n, o)) = rw (n, o) refl
case_at-Points cases m tag e h (inr (p, o, b, c, f, g)) =
    let x : e ≡ p = omega arith in
    let y : (p == variant_lookup_missing) ≡ false = ground arith in rw (x, f, y, g) refl

nonempty : (k n : ℕ) → k ≡ suc n → (k == 0) ≡ false
nonempty k n h = ground arith

find_dense-linear :
    (field : CompiledField) (min_tag n tag : ℕ) (indices : List ℕ)
    → IsSortedFrom min_tag field.variant_cases
    → n < 256
    → length indices ≡ suc n
    → ((j : ℕ)
        → j < suc n
        → get_elem? indices j ≡ some (entry min_tag field.variant_cases 0 j variant_lookup_missing))
    → find_variant_case
        (record field { variant_lookup_base = min_tag; variant_lookup_indices = indices })
        tag
      ≡ done (find_linear field.variant_cases tag)
unfolding find_variant_case
find_dense-linear field min_tag n tag indices s h l g =
    let cases = field.variant_cases in
    let z : (length indices == 0) ≡ false = nonempty (length indices) n l in
    elim (Bool-cases (ltb tag min_tag)) [
      | inl below ↦
          rw (z, below, find_linear_below cases min_tag tag s (ltb→lt tag min_tag below)) refl
      | inr above ↦
          let m≤tag : min_tag ≤ tag = ltb→le tag min_tag above in
          elim (Bool-cases (ltb (tag - min_tag) (suc n))) [
            | inl inside ↦
                let b : tag - min_tag < suc n = ltb→lt (tag - min_tag) (suc n) inside in
                rw (z, above, g (tag - min_tag) b)
                  (case_at-Points cases min_tag tag
                    (entry min_tag cases 0 (tag - min_tag) variant_lookup_missing) (omega arith)
                    (entry-Points min_tag cases 0 min_tag tag variant_lookup_missing s (omega arith)
                      m≤tag))
            | inr outside ↦
                let b : suc n ≤ tag - min_tag = ltb→le (tag - min_tag) (suc n) outside in
                rw (z, above, get_beyond indices (tag - min_tag) (omega arith))
                  (ap done (find_by_search-linear cases min_tag tag s))
          ]
    ]

-- The difference of the largest and the smallest tag, and one more, is a `uint64_t`.
abbrev pub HasSpan : List CompiledVariantCase → Type 0
HasSpan [] = Unit {0}
HasSpan (c ∷ cases) = last_tag c cases < c.tag_value + (2 ^ 64 - 1)

-- The field with these cases and the table for them.
abbrev pub with_lookup : CompiledField → List CompiledVariantCase → ℕ × List ℕ → CompiledField
with_lookup field cases (base, indices) = record field {
  variant_cases = cases;
  variant_lookup_base = base;
  variant_lookup_indices = indices;
}

-- The table that the compiler builds for sorted cases, each tag once, sends every tag to the case
-- that carries it, as a scan of the cases does, and neither the table nor the cases are accessed out
-- of bounds; where the tags lie too far apart for a table, so does the search. The tags span less
-- than the whole of `uint64_t`.
pub find_variant_case-linear :
    (field : CompiledField) (cases : List CompiledVariantCase) (tag : ℕ)
    → IsSortedFrom 0 cases
    → HasSpan cases
    → (dense_lookup cases >>= λ lookup. find_variant_case (with_lookup field cases lookup) tag)
      ≡ done (find_linear cases tag)
unfolding dense_lookup
find_variant_case-linear field [] tag s h =
    unfold find_variant_case find_by_search lower_bound find_linear in refl
find_variant_case-linear field (c ∷ cases) tag s h =
    let n : ℕ = last_tag c cases - c.tag_value in
    let ge = last_tag_ge c cases s.1 in
    let b : n + 1 < 2 ^ 64 = omega arith in
    let e : (n + 1) % 2 ^ 64 ≡ suc n = mod-eq_of_lt b ∙ omega arith in
    elim (Bool-cases (leb (suc n) 256)) [
      | inl dense ↦
          let l : length (replicate (suc n) variant_lookup_missing) ≡ suc n =
            length-replicate (suc n) variant_lookup_missing in
          let (filled, f, k, g) =
            fill_lookup-entry c.tag_value (c ∷ cases) 0 (replicate (suc n) variant_lookup_missing)
              (rw l (Fits-last c.tag_value (suc n) c cases s.1 (omega arith) (omega arith))) in
          rw (e, dense, f)
            (find_dense-linear (with_lookup field (c ∷ cases) (0, [])) c.tag_value n tag filled
              (omega arith, s.1) (ground (arith, leb→le (suc n) 256 dense)) (k ∙ l)
              (λ j b.
                g j variant_lookup_missing (get-replicate (suc n) j variant_lookup_missing b)))
      | inr sparse ↦
          rw (e, sparse)
            (unfold find_variant_case in ap done (find_by_search-linear (c ∷ cases) 0 tag s))
    ]
