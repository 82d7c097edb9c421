-- ===== src/Golang/Strconv.antt =====
-- Go's `strconv.Itoa` and `strconv.Atoi`, for an `int` of 64 bits.
use mimixbox.Prelude.{
  ℕ, zero, suc, ◌+◌, ◌-◌, ◌*◌, ◌/◌, ◌%◌, ◌≤◌, ◌≡◌, refl, ◌∙◌, ap, Bool-cases, inl, inr, Bool, true,
  false, ◌&&◌, [], ◌∷◌, Option, none, some, arith, leb, ◌==◌, if◌then◌else◌, Bytes, codes, All,
}
use mimixbox.Golang.Int.{ℤ, pos, negsuc, max_int, IsInt}

abbrev pub is_digit : ℕ → Bool
is_digit c = leb b'0' c && leb c b'9'

-- The decimal digits of `n` in front of `out`; each round takes off the last digit. Fuel `n` is
-- enough, since `n / 10 < n`.
digits : ℕ → ℕ → Bytes → Bytes
digits zero n out = out
digits (suc f) n out =
    let more = digits f (n / 10) ((b'0' + n % 10) ∷ out) in if n == 0 then out else more

unfoldable pub format_nat : ℕ → Bytes
unfolding digits
format_nat n = if n == 0 then b'0' ∷ [] else digits n n []

unfoldable pub itoa : ℤ → Bytes
unfolding format_nat
itoa (pos n) = format_nat n
itoa (negsuc n) = b'-' ∷ format_nat (suc n)

-- The number that the digits spell behind `n`.
unfoldable pub scan : ℕ → Bytes → Option ℕ
scan n [] = some n
scan n (c ∷ s) = if is_digit c then scan (n * 10 + (c - b'0')) s else none

unfoldable pub parse_nat : Bytes → Option ℕ
unfolding scan
parse_nat [] = none
parse_nat (c ∷ s) = scan 0 (c ∷ s)

in_range : Bool → Option ℕ → Option ℤ
in_range negative none = none
in_range false (some n) = if leb n max_int then some (pos n) else none
in_range true (some zero) = some (pos 0)
in_range true (some (suc n)) = if leb n max_int then some (negsuc n) else none

-- An optional sign and digits; `none` for any other text and for a value out of range.
unfoldable pub atoi : Bytes → Option ℤ
unfolding in_range parse_nat
atoi [] = none
atoi (c ∷ s) =
    if c == b'-'
    then in_range true (parse_nat s)
    else if c == b'+'
    then in_range false (parse_nat s)
    else in_range false (parse_nat (c ∷ s))

scan_last : (n : ℕ) (out : Bytes) → scan (n / 10) ((b'0' + n % 10) ∷ out) ≡ scan n out
unfolding scan
scan_last n out = ground arith

scan-digits : (f n : ℕ) (out : Bytes) → n ≤ f → scan 0 (digits f n out) ≡ scan n out
unfolding digits
scan-digits zero zero out h = refl
scan-digits zero (suc n) out h = absurd (omega arith)
scan-digits (suc f) n out h = elim (Bool-cases (n == 0)) [
  | inl z ↦ rw z (ap (λ m. scan m out) (ground arith))
  | inr more ↦
      rw more (scan-digits f (n / 10) ((b'0' + n % 10) ∷ out) (ground arith) ∙ scan_last n out)
]

-- A text that begins with a digit.
abbrev pub DigitFirst : Bytes → Type 0
DigitFirst [] = ⊥
DigitFirst (c ∷ _) = is_digit c ≡ true

digits-DigitFirst : (f n : ℕ) (out : Bytes) → DigitFirst out → DigitFirst (digits f n out)
unfolding digits
digits-DigitFirst zero n out h = h
digits-DigitFirst (suc f) n out h = elim (Bool-cases (n == 0)) [
  | inl z ↦ rw z h
  | inr more ↦ rw more (digits-DigitFirst f (n / 10) ((b'0' + n % 10) ∷ out) (ground arith))
]

format_nat-suc : (n : ℕ) → format_nat (suc n) ≡ digits n (suc n / 10) ((b'0' + suc n % 10) ∷ [])
unfolding format_nat
format_nat-suc n = ground arith

pub format_nat-DigitFirst : (n : ℕ) → DigitFirst (format_nat n)
format_nat-DigitFirst zero = unfold format_nat in refl
format_nat-DigitFirst (suc n) =
    rw (format_nat-suc n) (digits-DigitFirst n (suc n / 10) _ (ground arith))

abbrev pub AllDigits : Bytes → Type 0
AllDigits = All (λ c. is_digit c ≡ true)

digits-AllDigits : (f n : ℕ) (out : Bytes) → AllDigits out → AllDigits (digits f n out)
unfolding digits
digits-AllDigits zero n out h = h
digits-AllDigits (suc f) n out h = elim (Bool-cases (n == 0)) [
  | inl z ↦ rw z h
  | inr more ↦ rw more (digits-AllDigits f (n / 10) ((b'0' + n % 10) ∷ out) (ground arith, h))
]

pub format_nat-AllDigits : (n : ℕ) → AllDigits (format_nat n)
format_nat-AllDigits zero = unfold format_nat in (refl, tt)
format_nat-AllDigits (suc n) =
    rw (format_nat-suc n) (digits-AllDigits n (suc n / 10) _ (ground arith, tt))

scan-format_nat : (n : ℕ) → scan 0 (format_nat n) ≡ some n
scan-format_nat zero = unfold format_nat scan in refl
scan-format_nat (suc n) =
    rw (format_nat-suc n, scan-digits n (suc n / 10) ((b'0' + suc n % 10) ∷ []) (omega arith))
      (scan_last (suc n) [] ∙ unfold scan in refl)

parse_nat-format_nat : (n : ℕ) → parse_nat (format_nat n) ≡ some n
unfolding parse_nat
parse_nat-format_nat n = go (format_nat n) (format_nat-DigitFirst n) ∙ scan-format_nat n
  where
    go : (s : Bytes) → DigitFirst s → parse_nat s ≡ scan 0 s
    go [] h = absurd h
    go (c ∷ s) h = refl

atoi-digit : (s : Bytes) → DigitFirst s → atoi s ≡ in_range false (parse_nat s)
unfolding atoi
atoi-digit [] h = absurd h
atoi-digit (c ∷ s) h = ground arith

-- A number that `Itoa` writes is read back by `Atoi`.
pub atoi-format_nat : (n : ℕ) → n ≤ max_int → atoi (format_nat n) ≡ some (pos n)
unfolding in_range
atoi-format_nat n h =
    atoi-digit _ (format_nat-DigitFirst n) ∙ rw (parse_nat-format_nat n) (ground arith)

pub atoi-itoa : (a : ℤ) → IsInt a → atoi (itoa a) ≡ some a
unfolding itoa
atoi-itoa (pos n) h = atoi-format_nat n h.0
atoi-itoa (negsuc n) h =
    minus (format_nat (suc n)) ∙ rw (parse_nat-format_nat (suc n)) (unfold in_range in ground arith)
  where
    minus : (s : Bytes) → atoi (b'-' ∷ s) ≡ in_range true (parse_nat s)
    minus s = unfold atoi in refl

min_int : atoi (codes "-9223372036854775808") ≡ some (negsuc 9223372036854775807)
unfolding atoi
min_int = refl

out_of_range : atoi (codes "9223372036854775808") ≡ none
unfolding atoi
out_of_range = refl

negative : itoa (negsuc 119) ≡ codes "-120"
unfolding itoa
negative = refl
