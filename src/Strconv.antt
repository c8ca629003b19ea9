-- ===== src/Strconv.antt =====
-- Go strings as bytes, and the decimal text of an int64 (strconv.FormatInt), which
-- discord/types.go's Snowflake.String returns.
pub mod Decimal
use sandwich_daemon.Base.{
  ℕ, zero, suc, ◌+◌, ◌-◌, ◌*◌, ◌/◌, ◌%◌, List, [], ◌∷◌, ◌++◌, ltb, if◌then◌else◌, ℤ, pos, negsuc,
  ℕ_discrete, ◌≡◌, refl, arith,
}

abbrev pub Bytes : Type 0
Bytes = List ℕ

cons-inj : (x y : ℕ) (xs ys : Bytes) → x ∷ xs ≡ y ∷ ys → (x ≡ y) × (xs ≡ ys)
cons-inj x y xs ys e = ground arith

cons-eq : (x y : ℕ) (xs ys : Bytes) → x ≡ y → xs ≡ ys → x ∷ xs ≡ y ∷ ys
cons-eq x y xs ys e f = cc

nil-ne-cons : (x : ℕ) (xs : Bytes) → ¬ ([] ≡ x ∷ xs)
nil-ne-cons x xs e = cc

cons-ne-nil : (x : ℕ) (xs : Bytes) → ¬ (x ∷ xs ≡ [])
cons-ne-nil x xs e = cc

unfoldable pub same_bytes : Discrete Bytes
unfolding ℕ_discrete cons-inj cons-eq nil-ne-cons cons-ne-nil
same_bytes [] [] = yes refl
same_bytes [] (y ∷ ys) = no (nil-ne-cons y ys)
same_bytes (x ∷ xs) [] = no (cons-ne-nil x xs)
same_bytes (x ∷ xs) (y ∷ ys) =
    let rest = same_bytes xs ys in
    elim (ℕ_discrete x y) [
      | yes e ↦ elim rest [
        | yes f ↦ yes (cons-eq x y xs ys e f)
        | no h ↦ no (λ g. h (cons-inj x y xs ys g).1)
      ]
      | no h ↦ no (λ g. h (cons-inj x y xs ys g).0)
    ]

abbrev pub colon : ℕ
colon = 58

abbrev pub minus : ℕ
minus = 45

-- The digits of `n`, the highest first. The fuel `n` is enough, since a step divides by ten.
unfoldable pub format_uint : ℕ → ℕ → Bytes
format_uint zero n = (48 + n % 10) ∷ []
format_uint (suc fuel) n =
    let rest = format_uint fuel (n / 10) in
    if ltb n 10 then (48 + n) ∷ [] else rest ++ (48 + n % 10) ∷ []

unfoldable pub format_int : ℤ → Bytes
unfolding format_uint
format_int (pos n) = format_uint n n
format_int (negsuc n) = minus ∷ format_uint (suc n) (suc n)
