-- ===== src/Chmod/Modes/Octal.antt =====
-- The octal form of a mode in internal/applets/shellutils/chmod/chmod.go: `octal` and the first branch
-- of `applyMode`.
use mimixbox.Prelude.{
  ℕ, ◌+◌, ◌*◌, ◌<◌, ◌≡◌, refl, ◌∙◌, ap, Bool, true, false, [], ◌∷◌, arith, ltb, Bytes, ok,
}
use mimixbox.Chmod.Modes.{
  Class, user, group, others, Perm, read, write, execute, special, Bits, FileMode, mode_from_bits,
  is_octal, octal_value, is_odd, bit_at, place_of, bits_of, digit_of, octal, apply_mode,
}

digit_of-bound : (x y z : Bool) → digit_of x y z < 8
unfolding digit_of
digit_of-bound x y z = ground arith

-- The three bits of a digit at the place `k` of a number, above `lo`.
module _ (x y z : Bool) (hi lo : ℕ) where
  four_at_0 : bit_at 2 (hi * 8 + digit_of x y z) ≡ x
  unfolding bit_at digit_of is_odd
  four_at_0 = ground arith

  two_at_0 : bit_at 1 (hi * 8 + digit_of x y z) ≡ y
  unfolding bit_at digit_of is_odd
  two_at_0 = ground arith

  one_at_0 : bit_at 0 (hi * 8 + digit_of x y z) ≡ z
  unfolding bit_at digit_of is_odd
  one_at_0 = ground arith

  four_at_3 : lo < 8 → bit_at 5 ((hi * 8 + digit_of x y z) * 8 + lo) ≡ x
  unfolding bit_at digit_of is_odd
  four_at_3 h = ground arith

  two_at_3 : lo < 8 → bit_at 4 ((hi * 8 + digit_of x y z) * 8 + lo) ≡ y
  unfolding bit_at digit_of is_odd
  two_at_3 h = ground arith

  one_at_3 : lo < 8 → bit_at 3 ((hi * 8 + digit_of x y z) * 8 + lo) ≡ z
  unfolding bit_at digit_of is_odd
  one_at_3 h = ground arith

  four_at_6 : lo < 64 → bit_at 8 ((hi * 8 + digit_of x y z) * 64 + lo) ≡ x
  unfolding bit_at digit_of is_odd
  four_at_6 h = ground arith

  two_at_6 : lo < 64 → bit_at 7 ((hi * 8 + digit_of x y z) * 64 + lo) ≡ y
  unfolding bit_at digit_of is_odd
  two_at_6 h = ground arith

  one_at_6 : lo < 64 → bit_at 6 ((hi * 8 + digit_of x y z) * 64 + lo) ≡ z
  unfolding bit_at digit_of is_odd
  one_at_6 h = ground arith

  four_at_9 : lo < 512 → bit_at 11 ((hi * 8 + digit_of x y z) * 512 + lo) ≡ x
  unfolding bit_at digit_of is_odd
  four_at_9 h = ground arith

  two_at_9 : lo < 512 → bit_at 10 ((hi * 8 + digit_of x y z) * 512 + lo) ≡ y
  unfolding bit_at digit_of is_odd
  two_at_9 h = ground arith

  one_at_9 : lo < 512 → bit_at 9 ((hi * 8 + digit_of x y z) * 512 + lo) ≡ z
  unfolding bit_at digit_of is_odd
  one_at_9 h = ground arith

-- The number that four digits are.
number : ℕ → ℕ → ℕ → ℕ → ℕ
number s u g o = ((s * 8 + u) * 8 + g) * 8 + o

octal_digits : ℕ → ℕ → ℕ → ℕ → Bytes
octal_digits s u g o = (b'0' + s) ∷ (b'0' + u) ∷ (b'0' + g) ∷ (b'0' + o) ∷ []

octal_value-octal_digits : (s u g o : ℕ) → octal_value 0 (octal_digits s u g o) ≡ number s u g o
unfolding octal_value number octal_digits
octal_value-octal_digits s u g o = omega arith

is_octal-octal_digits :
    (s u g o : ℕ) → s < 8 → u < 8 → g < 8 → o < 8 → is_octal (octal_digits s u g o) ≡ true
unfolding is_octal octal_digits
is_octal-octal_digits s u g o hs hu hg ho = ground arith

number-small : (s u g o : ℕ) → s < 8 → u < 8 → g < 8 → o < 8 → ltb 4095 (number s u g o) ≡ false
unfolding number
number-small s u g o hs hu hg ho = ground arith

number_user : (s u g o : ℕ) → number s u g o ≡ (s * 8 + u) * 64 + (g * 8 + o)
unfolding number
number_user s u g o = omega arith

number_special : (s u g o : ℕ) → number s u g o ≡ (0 * 8 + s) * 512 + ((u * 8 + g) * 8 + o)
unfolding number
number_special s u g o = omega arith

apply_mode_octal :
    (cur : FileMode) (is_dir : Bool) (s u g o : ℕ)
    → s < 8
    → u < 8
    → g < 8
    → o < 8
    → apply_mode cur (octal_digits s u g o) is_dir
      ≡ ok (mode_from_bits cur (bits_of (number s u g o)))
unfolding apply_mode octal_digits number
apply_mode_octal cur is_dir s u g o hs hu hg ho =
    let small : ltb 4095 (number s u g o) ≡ false = number-small s u g o hs hu hg ho in
    rw (is_octal-octal_digits s u g o hs hu hg ho, octal_value-octal_digits s u g o, small) refl

below_64 : {g o : ℕ} → g < 8 → o < 8 → g * 8 + o < 64
below_64 h k = omega (arith, h, k)

below_512 : {u g o : ℕ} → u < 8 → g < 8 → o < 8 → (u * 8 + g) * 8 + o < 512
below_512 h k l = omega (arith, h, k, l)

bits_of-number :
    (b : Bits) (c : Class) (p : Perm)
    → bits_of
        (number
          (digit_of (b user special) (b group special) (b others special))
          (digit_of (b user read) (b user write) (b user execute))
          (digit_of (b group read) (b group write) (b group execute))
          (digit_of (b others read) (b others write) (b others execute)))
        c
        p
      ≡ b c p
unfolding bits_of place_of number
bits_of-number b others read = four_at_0 (b others read) (b others write) (b others execute) _ 0
bits_of-number b others write = two_at_0 (b others read) (b others write) (b others execute) _ 0
bits_of-number b others execute = one_at_0 (b others read) (b others write) (b others execute) _ 0
bits_of-number b group read =
    four_at_3 (b group read) (b group write) (b group execute) _ _
      (digit_of-bound (b others read) (b others write) (b others execute))
bits_of-number b group write =
    two_at_3 (b group read) (b group write) (b group execute) _ _
      (digit_of-bound (b others read) (b others write) (b others execute))
bits_of-number b group execute =
    one_at_3 (b group read) (b group write) (b group execute) _ _
      (digit_of-bound (b others read) (b others write) (b others execute))
bits_of-number b user read =
    ap (bit_at 8) (
      number_user (digit_of (b user special) (b group special) (b others special))
        (digit_of (b user read) (b user write) (b user execute))
        (digit_of (b group read) (b group write) (b group execute))
        (digit_of (b others read) (b others write) (b others execute)))
    ∙ four_at_6 (b user read) (b user write) (b user execute) _ _ (
        below_64 (digit_of-bound (b group read) (b group write) (b group execute))
          (digit_of-bound (b others read) (b others write) (b others execute)))
bits_of-number b user write =
    ap (bit_at 7) (
      number_user (digit_of (b user special) (b group special) (b others special))
        (digit_of (b user read) (b user write) (b user execute))
        (digit_of (b group read) (b group write) (b group execute))
        (digit_of (b others read) (b others write) (b others execute)))
    ∙ two_at_6 (b user read) (b user write) (b user execute) _ _ (
        below_64 (digit_of-bound (b group read) (b group write) (b group execute))
          (digit_of-bound (b others read) (b others write) (b others execute)))
bits_of-number b user execute =
    ap (bit_at 6) (
      number_user (digit_of (b user special) (b group special) (b others special))
        (digit_of (b user read) (b user write) (b user execute))
        (digit_of (b group read) (b group write) (b group execute))
        (digit_of (b others read) (b others write) (b others execute)))
    ∙ one_at_6 (b user read) (b user write) (b user execute) _ _ (
        below_64 (digit_of-bound (b group read) (b group write) (b group execute))
          (digit_of-bound (b others read) (b others write) (b others execute)))
bits_of-number b user special =
    ap (bit_at 11) (
      number_special (digit_of (b user special) (b group special) (b others special))
        (digit_of (b user read) (b user write) (b user execute))
        (digit_of (b group read) (b group write) (b group execute))
        (digit_of (b others read) (b others write) (b others execute)))
    ∙ four_at_9 (b user special) (b group special) (b others special) 0 _ (
        below_512 (digit_of-bound (b user read) (b user write) (b user execute))
          (digit_of-bound (b group read) (b group write) (b group execute))
          (digit_of-bound (b others read) (b others write) (b others execute)))
bits_of-number b group special =
    ap (bit_at 10) (
      number_special (digit_of (b user special) (b group special) (b others special))
        (digit_of (b user read) (b user write) (b user execute))
        (digit_of (b group read) (b group write) (b group execute))
        (digit_of (b others read) (b others write) (b others execute)))
    ∙ two_at_9 (b user special) (b group special) (b others special) 0 _ (
        below_512 (digit_of-bound (b user read) (b user write) (b user execute))
          (digit_of-bound (b group read) (b group write) (b group execute))
          (digit_of-bound (b others read) (b others write) (b others execute)))
bits_of-number b others special =
    ap (bit_at 9) (
      number_special (digit_of (b user special) (b group special) (b others special))
        (digit_of (b user read) (b user write) (b user execute))
        (digit_of (b group read) (b group write) (b group execute))
        (digit_of (b others read) (b others write) (b others execute)))
    ∙ one_at_9 (b user special) (b group special) (b others special) 0 _ (
        below_512 (digit_of-bound (b user read) (b user write) (b user execute))
          (digit_of-bound (b group read) (b group write) (b group execute))
          (digit_of-bound (b others read) (b others write) (b others execute)))

-- The octal form that chmod shows of a mode, given as MODE, sets each of the twelve bits as it is there
-- and leaves the rest of the file's mode, whatever the mode of the file.
pub apply_mode-octal :
    (cur : FileMode) (is_dir : Bool) (b : Bits)
    → (m : FileMode) × ((apply_mode cur (octal b) is_dir ≡ ok m)
        × (((c : Class) (p : Perm) → m.bits c p ≡ b c p) × (m.rest ≡ cur.rest)))
unfolding octal octal_digits mode_from_bits
apply_mode-octal cur is_dir b = (
  mode_from_bits cur (
      bits_of (
        number (digit_of (b user special) (b group special) (b others special))
          (digit_of (b user read) (b user write) (b user execute))
          (digit_of (b group read) (b group write) (b group execute))
          (digit_of (b others read) (b others write) (b others execute)))),
  (
    apply_mode_octal cur is_dir (digit_of (b user special) (b group special) (b others special))
        (digit_of (b user read) (b user write) (b user execute))
        (digit_of (b group read) (b group write) (b group execute))
        (digit_of (b others read) (b others write) (b others execute))
        (digit_of-bound (b user special) (b group special) (b others special))
        (digit_of-bound (b user read) (b user write) (b user execute))
        (digit_of-bound (b group read) (b group write) (b group execute))
        (digit_of-bound (b others read) (b others write) (b others execute)),
    (λ c p. bits_of-number b c p, refl),
  ),
)
