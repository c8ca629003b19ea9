-- ===== src/Strconv/Decimal.antt =====
-- The decimal text of a number determines it, and holds no colon.
use sandwich_daemon.Base.{
  ℕ, zero, suc, ◌+◌, ◌-◌, ◌*◌, ◌/◌, ◌%◌, ◌≤◌, ◌<◌, ◌≡◌, ◌≢◌, refl, sym, ap, [], ◌∷◌, ◌++◌, arith, ℤ,
  pos, negsuc,
}
use sandwich_daemon.Strconv.{Bytes, colon, minus, format_uint, format_int}

-- The number that digits spell, after `acc`.
unfoldable value_from : ℕ → Bytes → ℕ
value_from acc [] = acc
value_from acc (d ∷ ds) = value_from (acc * 10 + (d - 48)) ds

value_from-append :
    (acc : ℕ) (xs : Bytes) (d : ℕ)
    → value_from acc (xs ++ d ∷ []) ≡ value_from acc xs * 10 + (d - 48)
unfolding value_from
value_from-append acc [] d = refl
value_from-append acc (x ∷ xs) d = value_from-append (acc * 10 + (x - 48)) xs d

-- With fuel for `n` the digits spell `n`.
value_from-format_uint : (fuel n : ℕ) → n ≤ fuel → value_from 0 (format_uint fuel n) ≡ n
unfolding value_from format_uint
value_from-format_uint zero n h = ground arith
value_from-format_uint (suc fuel) n h = ground (
  arith,
  value_from-append 0 (format_uint fuel (n / 10)) (48 + n % 10),
  value_from-format_uint fuel (n / 10),
)

-- Every byte is a digit.
abbrev pub AreDigits : Bytes → Type 0
AreDigits [] = Unit
AreDigits (d ∷ ds) = (48 ≤ d) × (d < 58) × AreDigits ds

append_last-AreDigits :
    (xs : Bytes) (d : ℕ) → AreDigits xs → 48 ≤ d → d < 58 → AreDigits (xs ++ d ∷ [])
append_last-AreDigits [] d a h k = (h, k, tt)
append_last-AreDigits (x ∷ xs) d (p, q, a) h k = (p, q, append_last-AreDigits xs d a h k)

pub format_uint-AreDigits : (fuel n : ℕ) → AreDigits (format_uint fuel n)
unfolding format_uint
format_uint-AreDigits zero n = (omega arith, omega arith, tt)
format_uint-AreDigits (suc fuel) n = ground (
  arith,
  append_last-AreDigits (format_uint fuel (n / 10)) (48 + n % 10)
      (format_uint-AreDigits fuel (n / 10)),
)

-- No byte is a colon.
abbrev pub HasNoColon : Bytes → Type 0
HasNoColon [] = Unit
HasNoColon (b ∷ bs) = (b ≢ colon) × HasNoColon bs

digits-HasNoColon : (xs : Bytes) → AreDigits xs → HasNoColon xs
digits-HasNoColon [] a = tt
digits-HasNoColon (x ∷ xs) (p, q, a) = (λ e. omega arith, digits-HasNoColon xs a)

pub format_int-HasNoColon : (n : ℤ) → HasNoColon (format_int n)
unfolding format_int
format_int-HasNoColon (pos n) = digits-HasNoColon _ (format_uint-AreDigits n n)
format_int-HasNoColon (negsuc n) =
    (λ e. omega arith, digits-HasNoColon _ (format_uint-AreDigits (suc n) (suc n)))

format_uint-inj : (m n : ℕ) → format_uint m m ≡ format_uint n n → m ≡ n
format_uint-inj m n e = omega (
  arith,
  value_from-format_uint m m (omega arith),
  value_from-format_uint n n (omega arith),
  ap (value_from 0) e,
)

minus-AreDigits : (xs ys : Bytes) → AreDigits xs → ¬ (xs ≡ minus ∷ ys)
minus-AreDigits [] ys a e = cc
minus-AreDigits (x ∷ xs) ys (p, q, a) e = ground arith

-- Two numbers with the same decimal text are equal.
pub format_int-inj : (m n : ℤ) → format_int m ≡ format_int n → m ≡ n
unfolding format_int
format_int-inj (pos m) (pos n) e = ap pos (format_uint-inj m n e)
format_int-inj (pos m) (negsuc n) e = absurd (minus-AreDigits _ _ (format_uint-AreDigits m m) e)
format_int-inj (negsuc m) (pos n) e =
    absurd (minus-AreDigits _ _ (format_uint-AreDigits n n) (sym e))
format_int-inj (negsuc m) (negsuc n) e = ground (arith, format_uint-inj (suc m) (suc n))

-- A text is cut at its first colon in one way.
pub colon-inj :
    (xs ys cs bs : Bytes)
    → HasNoColon xs
    → HasNoColon cs
    → xs ++ colon ∷ ys ≡ cs ++ colon ∷ bs
    → (xs ≡ cs) × (ys ≡ bs)
colon-inj [] ys [] bs h k e = (refl, ground arith)
colon-inj [] ys (a ∷ cs) bs h k e = absurd (k.0 (ground arith))
colon-inj (x ∷ xs) ys [] bs h k e = absurd (h.0 (ground arith))
colon-inj (x ∷ xs) ys (a ∷ cs) bs h k e = ground (arith, colon-inj xs ys cs bs h.1 k.1)
