-- ===== src/Base/Lists.antt =====
-- Byte sequences: lists measured, cut and overwritten by native numbers.
use Prim.Native.Nat.{ℕ, zero, suc, ◌+◌, ◌-◌, ◌≤◌, ◌<◌, min}
use mathlib.Core.Logic.{◌≢◌}
use mathlib.Core.Path.{◌≡◌, refl, ap, ◌∙◌}
use mathlib.Core.List.{append-nil, append_assoc, List, [], ◌∷◌, ◌++◌}
use mathlib.Core.Option.{Option, none, some}
use native.Mathlib.Nat.{add-zero}
use native.Mathlib.Omega.{arith}

module _ {ℓ} {A : Type ℓ} where
  abbrev pub length : List A → ℕ
  length [] = 0
  length (x ∷ xs) = suc (length xs)

  abbrev pub get_elem? : List A → ℕ → Option A
  get_elem? [] i = none
  get_elem? (x ∷ xs) zero = some x
  get_elem? (x ∷ xs) (suc i) = get_elem? xs i

  -- A write out of range changes nothing.
  abbrev pub set : List A → ℕ → A → List A
  set [] i v = []
  set (x ∷ xs) zero v = v ∷ xs
  set (x ∷ xs) (suc i) v = x ∷ set xs i v

  abbrev pub take : ℕ → List A → List A
  take zero xs = []
  take (suc n) [] = []
  take (suc n) (x ∷ xs) = x ∷ take n xs

  abbrev pub drop : ℕ → List A → List A
  drop zero xs = xs
  drop (suc n) [] = []
  drop (suc n) (x ∷ xs) = drop n xs

  abbrev pub replicate : ℕ → A → List A
  replicate zero a = []
  replicate (suc n) a = a ∷ replicate n a

module _ {ℓ} {A : Type ℓ} where
  -- `span.subspan(offset, n)`
  abbrev pub subspan : List A → ℕ → ℕ → List A
  subspan xs offset n = take n (drop offset xs)

  -- `std::copy_n(bytes, n, destination + offset)`, for a source of `n` bytes that fits
  abbrev pub copy_at : List A → ℕ → List A → List A
  copy_at xs offset bytes = take offset xs ++ (bytes ++ drop (offset + length bytes) xs)

  pub length-append : (xs ys : List A) → length (xs ++ ys) ≡ length xs + length ys
  length-append [] ys = omega arith
  length-append (x ∷ xs) ys = omega (arith, length-append xs ys)

  pub length-take : (n : ℕ) (xs : List A) → length (take n xs) ≡ min n (length xs)
  length-take zero xs = omega arith
  length-take (suc n) [] = omega arith
  length-take (suc n) (x ∷ xs) = omega (arith, length-take n xs)

  pub length-drop : (n : ℕ) (xs : List A) → length (drop n xs) ≡ length xs - n
  length-drop zero xs = omega arith
  length-drop (suc n) [] = omega arith
  length-drop (suc n) (x ∷ xs) = omega (arith, length-drop n xs)

  pub length-replicate : (n : ℕ) (a : A) → length (replicate n a) ≡ n
  length-replicate zero a = refl
  length-replicate (suc n) a = ap suc (length-replicate n a)

  pub get_inside : (xs : List A) (i : ℕ) → i < length xs → get_elem? xs i ≢ none
  get_inside [] i h = absurd (omega arith)
  get_inside (x ∷ xs) zero h = cc
  get_inside (x ∷ xs) (suc i) h = get_inside xs i (omega arith)

  pub length-set : (xs : List A) (i : ℕ) (v : A) → length (set xs i v) ≡ length xs
  length-set [] i v = refl
  length-set (x ∷ xs) zero v = refl
  length-set (x ∷ xs) (suc i) v = ap suc (length-set xs i v)

  pub length-copy_at :
      (xs : List A) (offset : ℕ) (bytes : List A)
      → offset + length bytes ≤ length xs
      → length (copy_at xs offset bytes) ≡ length xs
  length-copy_at xs offset bytes h = omega (
    arith,
    length-append (take offset xs) (bytes ++ drop (offset + length bytes) xs),
    length-append bytes (drop (offset + length bytes) xs),
    length-take offset xs,
    length-drop (offset + length bytes) xs,
  )

  pub take-append-drop : (n : ℕ) (xs : List A) → take n xs ++ drop n xs ≡ xs
  take-append-drop zero xs = refl
  take-append-drop (suc n) [] = refl
  take-append-drop (suc n) (x ∷ xs) = rw (take-append-drop n xs)

  pub take_all : (n : ℕ) (xs : List A) → length xs ≤ n → take n xs ≡ xs
  take_all zero [] h = refl
  take_all zero (x ∷ xs) h = absurd (omega arith)
  take_all (suc n) [] h = refl
  take_all (suc n) (x ∷ xs) h = ap (◌∷◌ x) (take_all n xs (omega arith))

  pub drop_all : (n : ℕ) (xs : List A) → length xs ≤ n → drop n xs ≡ []
  drop_all zero [] h = refl
  drop_all zero (x ∷ xs) h = absurd (omega arith)
  drop_all (suc n) [] h = refl
  drop_all (suc n) (x ∷ xs) h = drop_all n xs (omega arith)

  pub take-append_le : (n : ℕ) (xs ys : List A) → n ≤ length xs → take n (xs ++ ys) ≡ take n xs
  take-append_le zero xs ys h = refl
  take-append_le (suc n) [] ys h = absurd (omega arith)
  take-append_le (suc n) (x ∷ xs) ys h = ap (◌∷◌ x) (take-append_le n xs ys (omega arith))

  pub drop-append_le :
      (n : ℕ) (xs ys : List A) → n ≤ length xs → drop n (xs ++ ys) ≡ drop n xs ++ ys
  drop-append_le zero xs ys h = refl
  drop-append_le (suc n) [] ys h = absurd (omega arith)
  drop-append_le (suc n) (x ∷ xs) ys h = drop-append_le n xs ys (omega arith)

  -- `m` is `n - length xs`, written as an equation so that it may be a numeral.
  pub take-append_ge :
      (n m : ℕ) (xs ys : List A) → n ≡ length xs + m → take n (xs ++ ys) ≡ xs ++ take m ys
  take-append_ge n m [] ys h = ap (λ k. take k ys) (omega arith)
  take-append_ge zero m (x ∷ xs) ys h = absurd (omega arith)
  take-append_ge (suc n) m (x ∷ xs) ys h = ap (◌∷◌ x) (take-append_ge n m xs ys (omega arith))

  pub drop-append_ge :
      (n m : ℕ) (xs ys : List A) → n ≡ length xs + m → drop n (xs ++ ys) ≡ drop m ys
  drop-append_ge n m [] ys h = ap (λ k. drop k ys) (omega arith)
  drop-append_ge zero m (x ∷ xs) ys h = absurd (omega arith)
  drop-append_ge (suc n) m (x ∷ xs) ys h = drop-append_ge n m xs ys (omega arith)

  pub drop-nil : (n : ℕ) → drop {A = A} n [] ≡ []
  drop-nil zero = refl
  drop-nil (suc n) = refl

  pub take-nil : (n : ℕ) → take {A = A} n [] ≡ []
  take-nil zero = refl
  take-nil (suc n) = refl

  -- `k` is `m + n`, written as an equation so that it may be a numeral.
  drop-drop_eq : (n m k : ℕ) (xs : List A) → k ≡ m + n → drop n (drop m xs) ≡ drop k xs
  drop-drop_eq n zero k xs e = ap (λ i. drop i xs) (omega arith)
  drop-drop_eq n (suc m) k [] e = rw (drop-nil n, drop-nil k)
  drop-drop_eq n (suc m) zero (x ∷ xs) e = absurd (omega arith)
  drop-drop_eq n (suc m) (suc k) (x ∷ xs) e = drop-drop_eq n m k xs (omega arith)

  pub drop-drop : (n m : ℕ) (xs : List A) → drop n (drop m xs) ≡ drop (m + n) xs
  drop-drop n m xs = drop-drop_eq n m (m + n) xs refl

  take-drop_eq : (n m k : ℕ) (xs : List A) → k ≡ m + n → take n (drop m xs) ≡ drop m (take k xs)
  take-drop_eq n zero k xs e = ap (λ i. take i xs) (omega arith)
  take-drop_eq n (suc m) zero xs e = absurd (omega arith)
  take-drop_eq n (suc m) (suc k) [] e = take-nil n
  take-drop_eq n (suc m) (suc k) (x ∷ xs) e = take-drop_eq n m k xs (omega arith)

  pub take-drop : (n m : ℕ) (xs : List A) → take n (drop m xs) ≡ drop m (take (m + n) xs)
  take-drop n m xs = take-drop_eq n m (m + n) xs refl

  pub take-take : (n m : ℕ) (xs : List A) → n ≤ m → take n (take m xs) ≡ take n xs
  take-take zero m xs h = refl
  take-take (suc n) zero xs h = absurd (omega arith)
  take-take (suc n) (suc m) [] h = refl
  take-take (suc n) (suc m) (x ∷ xs) h = ap (◌∷◌ x) (take-take n m xs (omega arith))

  pub copy_at-nil : (xs : List A) (offset : ℕ) → copy_at xs offset [] ≡ xs
  copy_at-nil xs offset = rw add-zero (take-append-drop offset xs)

  -- Two copies, the second right behind the first, are one.
  pub copy_at-append :
      (xs : List A) (n : ℕ) (front back : List A)
      → n ≡ length front
      → length front + length back ≤ length xs
      → copy_at (copy_at xs 0 front) n back ≡ copy_at xs 0 (front ++ back)
  copy_at-append xs n front back e h =
      rw
        (
          take-append_ge n 0 front (drop (0 + length front) xs) (omega arith),
          append-nil front,
          drop-append_ge (n + length back) (length back) front (drop (0 + length front) xs)
              (omega arith),
          drop-drop (length back) (0 + length front) xs,
          append_assoc front back,
        )
        (ap (λ k. front ++ (back ++ drop k xs)) (omega (arith, length-append front back)))

  pub subspan-append :
      (front back : List A) (offset n : ℕ)
      → offset + n ≤ length front
      → subspan (front ++ back) offset n ≡ subspan front offset n
  subspan-append front back offset n h =
      ap (take n) (drop-append_le offset front back (omega arith))
      ∙ take-append_le n (drop offset front) back (omega (arith, length-drop offset front))
