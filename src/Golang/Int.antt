-- ===== src/Golang/Int.antt =====
-- Go's `int` of 64 bits: signed integers over the native numbers, under the library's names, with
-- the wrap-around of its operations.
use mimixbox.Prelude.{
  ℕ, suc, ◌+◌, ◌-◌, ◌*◌, ◌/◌, ◌%◌, ◌^◌, ◌≤◌, ◌≡◌, refl, Bool, arith, ltb, leb, ◌==◌, if◌then◌else◌,
}

-- `negsuc n` is -(n + 1).
pub data ℤ : Type 0 where
  pos : ℕ → ℤ
  negsuc : ℕ → ℤ

abbrev pub pos_part : ℤ → ℕ
pos_part (pos n) = n
pos_part (negsuc n) = 0

abbrev pub neg_part : ℤ → ℕ
neg_part (pos n) = 0
neg_part (negsuc n) = suc n

abbrev pub sub_ℕ : ℕ → ℕ → ℤ
sub_ℕ a b = if leb b a then pos (a - b) else negsuc (b - a - 1)

infixl 65 ◌+ℤ◌ ◌-ℤ◌
infixl 70 ◌*ℤ◌
unfoldable pub ◌+ℤ◌ : ℤ → ℤ → ℤ
a +ℤ b = sub_ℕ (pos_part a + pos_part b) (neg_part a + neg_part b)

unfoldable pub ◌-ℤ◌ : ℤ → ℤ → ℤ
a -ℤ b = sub_ℕ (pos_part a + neg_part b) (neg_part a + pos_part b)

unfoldable pub ◌*ℤ◌ : ℤ → ℤ → ℤ
a *ℤ b =
    sub_ℕ (pos_part a * pos_part b + neg_part a * neg_part b)
      (pos_part a * neg_part b + neg_part a * pos_part b)

abbrev magnitude : ℤ → ℕ
magnitude a = pos_part a + neg_part a

abbrev is_neg : ℤ → Bool
is_neg (pos _) = Bool.false
is_neg (negsuc _) = Bool.true

-- Go's `/` and `%` round towards zero; the divisor is not zero where they are called.
unfoldable pub quo : ℤ → ℤ → ℤ
quo (pos a) (pos b) = pos (a / b)
quo (pos a) (negsuc b) = sub_ℕ 0 (a / suc b)
quo (negsuc a) (pos b) = sub_ℕ 0 (suc a / b)
quo (negsuc a) (negsuc b) = pos (suc a / suc b)

unfoldable pub rem : ℤ → ℤ → ℤ
rem (pos a) (pos b) = pos (a % b)
rem (pos a) (negsuc b) = pos (a % suc b)
rem (negsuc a) (pos b) = sub_ℕ 0 (suc a % b)
rem (negsuc a) (negsuc b) = sub_ℕ 0 (suc a % suc b)

abbrev pub ltb_ℤ : ℤ → ℤ → Bool
ltb_ℤ a b = ltb (pos_part a + neg_part b) (pos_part b + neg_part a)

abbrev pub eqb_ℤ : ℤ → ℤ → Bool
eqb_ℤ a b = pos_part a + neg_part b == pos_part b + neg_part a

abbrev pub max_int : ℕ
max_int = 2 ^ 63 - 1

-- A value of the type: from -2^63 to 2^63 - 1.
abbrev pub IsInt : ℤ → Type 0
IsInt a = (pos_part a ≤ max_int) × (neg_part a ≤ max_int + 1)

-- Two's complement: the residue modulo 2^64, read as a signed number.
signed : ℕ → ℤ
signed u = if leb u max_int then pos u else negsuc (2 ^ 64 - 1 - u)

unfoldable pub wrap : ℤ → ℤ
unfolding signed
wrap (pos n) = signed (n % 2 ^ 64)
wrap (negsuc n) = signed (2 ^ 64 - 1 - n % 2 ^ 64)

pub wrap-IsInt : (a : ℤ) → IsInt (wrap a)
unfolding wrap
wrap-IsInt (pos n) = ground arith
wrap-IsInt (negsuc n) = ground arith

-- A result in range is not changed.
pub wrap-eq_self : (a : ℤ) → IsInt a → wrap a ≡ a
unfolding wrap
wrap-eq_self (pos n) h = ground arith
wrap-eq_self (negsuc n) h = ground arith

overflow : wrap (pos max_int +ℤ pos 1) ≡ negsuc max_int
unfolding wrap ◌+ℤ◌
overflow = refl
