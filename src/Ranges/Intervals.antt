-- ===== src/Ranges/Intervals.antt =====
-- The shard ids of an interval, as returnRangeInt32 of internal/utils.go reads it.
use sandwich_daemon.Base.{
  ℕ, zero, suc, ◌+◌, ◌-◌, ◌≤◌, ◌<◌, ◌≡◌, ◌≢◌, refl, ap, arith, List, [], ◌∷◌, ◌++◌, ℤ, pos,
  inc_int32, some, ◌+ℤ◌,
}
use sandwich_daemon.Strconv.{Bytes, minus, format_int, format_uint}
use sandwich_daemon.Strconv.Decimal.{AreDigits, format_uint-AreDigits}
use sandwich_daemon.Routing.Bounds.{parse_int-format_int}
use sandwich_daemon.Ranges.{
  comma, split, range_from, interval, intervals, return_range_int32, turns, to_int32,
}

-- No byte is `sep`.
abbrev Without : ℕ → Bytes → Type 0
Without sep [] = Unit
Without sep (b ∷ bs) = (b ≢ sep) × Without sep bs

digits-Without : (sep : ℕ) (xs : Bytes) → sep < 48 → AreDigits xs → Without sep xs
digits-Without sep [] h a = tt
digits-Without sep (x ∷ xs) h (p, q, a) = (λ e. omega arith, digits-Without sep xs h a)

append-Without :
    (sep : ℕ) (xs ys : Bytes) → Without sep xs → Without sep ys → Without sep (xs ++ ys)
append-Without sep [] ys h k = k
append-Without sep (x ∷ xs) ys (p, h) k = (p, append-Without sep xs ys h k)

split_whole : (sep : ℕ) (xs : Bytes) → Without sep xs → split sep xs ≡ xs ∷ []
unfolding split
split_whole sep [] h = refl
split_whole sep (x ∷ xs) (p, h) = ground (arith, split_whole sep xs h)

split-append :
    (sep : ℕ) (xs ys : Bytes) → Without sep xs → split sep (xs ++ sep ∷ ys) ≡ xs ∷ split sep ys
unfolding split
split-append sep [] ys h = ground arith
split-append sep (x ∷ xs) ys (p, h) = ground (arith, split-append sep xs ys h)

-- The `n` ids from `a` on.
abbrev pub ids_from : ℕ → ℕ → List ℤ
ids_from a zero = []
ids_from a (suc n) = pos a ∷ ids_from (suc a) n

range_from-ids_from :
    (a n max : ℕ) → a + n ≤ max → max ≤ 2147483647 → range_from (pos a) n (pos max) ≡ ids_from a n
unfolding range_from inc_int32
range_from-ids_from a zero max h k = refl
range_from-ids_from a (suc n) max h k =
    ground (arith, range_from-ids_from (suc a) n max (omega arith) k)

append_nil : {A : Type 0} (xs : List A) → xs ++ [] ≡ xs
append_nil [] = refl
append_nil (x ∷ xs) = ap (λ l. x ∷ l) (append_nil xs)

interval-ids_from :
    (a b max : ℕ)
    → a ≤ b
    → b < max
    → max ≤ 2147483647
    → interval (some (pos a)) (some (pos b)) (pos max) ≡ ids_from a (suc b - a)
unfolding interval to_int32 turns ◌+ℤ◌
interval-ids_from a b max h k l =
    ground (arith, range_from-ids_from a (suc b - a) max (omega arith) l)

-- An interval "a-b" in range is read as all ids from a to b.
pub return_range_int32-interval :
    (a b max : ℕ)
    → a ≤ b
    → b < max
    → max ≤ 2147483647
    → return_range_int32 (format_int (pos a) ++ minus ∷ format_int (pos b)) (pos max)
      ≡ ids_from a (suc b - a)
unfolding return_range_int32 intervals format_int
return_range_int32-interval a b max h k l =
    let da = format_uint-AreDigits a a in
    let db = format_uint-AreDigits b b in
    let whole =
      append-Without comma (format_uint a a) (minus ∷ format_uint b b)
        (digits-Without comma (format_uint a a) (omega arith) da)
        (λ e. omega arith, digits-Without comma (format_uint b b) (omega arith) db) in
    let parts =
      split-append minus (format_uint a a) (format_uint b b)
        (digits-Without minus (format_uint a a) (omega arith) da) in
    let last =
      split_whole minus (format_uint b b)
        (digits-Without minus (format_uint b b) (omega arith) db) in
    ground (
      arith,
      split_whole comma (format_uint a a ++ minus ∷ format_uint b b) whole,
      parts,
      last,
      parse_int-format_int a (omega arith),
      parse_int-format_int b (omega arith),
      append_nil (ids_from a (suc b - a)),
      interval-ids_from a b max h k l,
    )
