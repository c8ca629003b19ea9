-- ===== src/Base/Int.antt =====
-- Signed integers over the native numbers, under the library's names (its ℤ stands on the unary ℕ).
use Prim.Native.Nat.{ℕ, suc, ◌+◌, ◌-◌, ◌≤◌}
use mathlib.Core.Path.{◌≡◌, ap}
use mathlib.Core.Bool.{Bool}
use native.Mathlib.Decide.{ℕ_discrete}
use sandwich_daemon.Base.Tests.{ltb, leb, if◌then◌else◌}

-- `negsuc n` is -(n + 1).
pub data ℤ : Type 0 where
  pos : ℕ → ℤ
  negsuc : ℕ → ℤ

pos_part_eq : (m n : ℕ) → pos m ≡ pos n → m ≡ n
pos_part_eq m n e = cc

negsuc_part_eq : (m n : ℕ) → negsuc m ≡ negsuc n → m ≡ n
negsuc_part_eq m n e = cc

pos-ne-negsuc : (m n : ℕ) → ¬ (pos m ≡ negsuc n)
pos-ne-negsuc m n e = cc

negsuc-ne-pos : (m n : ℕ) → ¬ (negsuc m ≡ pos n)
negsuc-ne-pos m n e = cc

unfoldable pub ℤ_discrete : Discrete ℤ
unfolding ℕ_discrete pos_part_eq negsuc_part_eq pos-ne-negsuc negsuc-ne-pos
ℤ_discrete (pos m) (pos n) = elim (ℕ_discrete m n) [
  | yes p ↦ yes (ap pos p)
  | no h ↦ no (λ e. h (pos_part_eq m n e))
]
ℤ_discrete (pos m) (negsuc n) = no (pos-ne-negsuc m n)
ℤ_discrete (negsuc m) (pos n) = no (negsuc-ne-pos m n)
ℤ_discrete (negsuc m) (negsuc n) = elim (ℕ_discrete m n) [
  | yes p ↦ yes (ap negsuc p)
  | no h ↦ no (λ e. h (negsuc_part_eq m n e))
]

abbrev pub pos_part : ℤ → ℕ
pos_part (pos n) = n
pos_part (negsuc n) = 0

abbrev pub neg_part : ℤ → ℕ
neg_part (pos n) = 0
neg_part (negsuc n) = suc n

-- a - b, as an integer.
abbrev pub sub_ℕ : ℕ → ℕ → ℤ
sub_ℕ a b = if leb b a then pos (a - b) else negsuc (b - a - 1)

infixl 65 ◌+ℤ◌
infix 50 ◌≤ℤ◌ ◌<ℤ◌
unfoldable pub ◌+ℤ◌ : ℤ → ℤ → ℤ
a +ℤ b = sub_ℕ (pos_part a + pos_part b) (neg_part a + neg_part b)

abbrev pub ◌≤ℤ◌ : ℤ → ℤ → Type 0
a ≤ℤ b = pos_part a + neg_part b ≤ pos_part b + neg_part a

abbrev pub ◌<ℤ◌ : ℤ → ℤ → Type 0
a <ℤ b = suc (pos_part a + neg_part b) ≤ pos_part b + neg_part a

abbrev pub ltb_ℤ : ℤ → ℤ → Bool
ltb_ℤ a b = ltb (pos_part a + neg_part b) (pos_part b + neg_part a)

-- Go's `x++` and `x--` on an int32.
unfoldable pub inc_int32 : ℤ → ℤ
inc_int32 (pos n) = if ltb n 2147483647 then pos (suc n) else negsuc 2147483647
inc_int32 (negsuc n) = if ltb 0 n then negsuc (n - 1) else pos 0

unfoldable pub dec_int32 : ℤ → ℤ
dec_int32 (pos n) = if ltb 0 n then pos (n - 1) else negsuc 0
dec_int32 (negsuc n) = if ltb n 2147483647 then negsuc (suc n) else pos 2147483647
