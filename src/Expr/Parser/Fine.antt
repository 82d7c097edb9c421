-- ===== src/Expr/Parser/Fine.antt =====
-- Results of the evaluator of expr that are not the failure of the model.
use mimixbox.Prelude.{
  ℕ, zero, suc, ◌+◌, ◌-◌, ◌||◌, ◌≤◌, ◌<◌, ◌≡◌, ◌≢◌, refl, Bool, Bool-cases, inl, inr, true, false,
  List, [], ◌∷◌, Option, none, some, arith, ltb, Bytes, bytes_eq, codes, length, Result, ok, err,
  ◌>>=◌,
}
use mimixbox.Golang.Int.{ℤ, pos, negsuc, max_int}
use mimixbox.Golang.Strconv.{atoi}
use mimixbox.Golang.Utf8.{runes}
use mimixbox.Expr.Operators.{
  ExprError, out_of_fuel, int_of, to_ints, is_zero_ℤ, mul_or_div, add_sub_step, mul_div_step,
  slice_runes, slice_text, substr_of, substr,
}
use mimixbox.Expr.Parser.{Parsed, Step, operator_loop, level, with_rest}

-- A result that is not the failure of the model.
abbrev pub Fine : {A : Type 0} → Result ExprError A → Type 0
Fine (ok a) = Unit
Fine (err e) = e ≢ out_of_fuel

Fine-bind :
    {A B : Type 0} (m : Result ExprError A) (f : A → Result ExprError B)
    → Fine m
    → ((a : A) → Fine (f a))
    → Fine (m >>= f)
Fine-bind (ok a) f h k = k a
Fine-bind (err e) f h k = h

-- The same, with fewer than `n` tokens left.
abbrev pub Leaves : ℕ → Parsed → Type 0
Leaves n (ok (value, rest)) = length rest < n
Leaves n (err e) = e ≢ out_of_fuel

pub Leaves-weaken : (m n : ℕ) (r : Parsed) → m ≤ n → Leaves m r → Leaves n r
Leaves-weaken m n (ok (value, rest)) h l = omega arith
Leaves-weaken m n (err e) h l = l

pub Leaves-bind :
    (m n : ℕ) (r : Parsed) (f : Bytes × List Bytes → Parsed)
    → Leaves m r
    → ((value : Bytes) (rest : List Bytes) → length rest < m → Leaves n (f (value, rest)))
    → Leaves n (r >>= f)
Leaves-bind m n (ok (value, rest)) f h k = k value rest h
Leaves-bind m n (err e) f h k = h

Leaves-bind_value :
    (n : ℕ) (r : Result ExprError Bytes) (f : Bytes → Parsed)
    → Fine r
    → ((value : Bytes) → Leaves n (f value))
    → Leaves n (r >>= f)
Leaves-bind_value n (ok value) f h k = k value
Leaves-bind_value n (err e) f h k = h

-- A parser that takes a token at least, on at most `n` tokens.
abbrev pub Takes : ℕ → (List Bytes → Parsed) → Type 0
Takes n parse = (ts : List Bytes) → length ts ≤ n → Leaves (length ts) (parse ts)

module _ (is_op : Bytes → Bool) (step : Step) (below : List Bytes → Parsed) where
  loop_takes :
      (t left : Bytes) (ts : List Bytes) (rounds : ℕ)
      → is_op t ≡ true
      → operator_loop is_op step below (suc rounds) left (t ∷ ts) ≡ (
          below ts >>= λ right.
          step t left right.0 >>= λ value. operator_loop is_op step below rounds value right.1)
  unfolding operator_loop
  loop_takes t left ts rounds h = rw (h, operator_loop) refl

  loop_stops :
      (t left : Bytes) (ts : List Bytes) (rounds : ℕ)
      → is_op t ≡ false
      → operator_loop is_op step below rounds left (t ∷ ts) ≡ ok (left, t ∷ ts)
  unfolding operator_loop
  loop_stops t left ts zero h = rw h refl
  loop_stops t left ts (suc rounds) h = rw (h, operator_loop) refl

  module _ (n : ℕ) (fine : (t l r : Bytes) → Fine (step t l r)) (takes : Takes n below) where
    operator_loop-Leaves :
        (rounds : ℕ) (left : Bytes) (ts : List Bytes)
        → length ts ≤ rounds
        → length ts ≤ n
        → Leaves (suc (length ts)) (operator_loop is_op step below rounds left ts)
    operator_loop-Leaves rounds left [] h k = unfold operator_loop in omega arith
    operator_loop-Leaves zero left (t ∷ ts) h k = absurd (omega arith)
    operator_loop-Leaves (suc rounds) left (t ∷ ts) h k = elim (Bool-cases (is_op t)) [
      | inr other ↦ rw (loop_stops t left ts (suc rounds) other) (omega arith)
      | inl op ↦ rw (loop_takes t left ts rounds op) (
          Leaves-bind (length ts) (suc (suc (length ts))) (below ts) _ (takes ts (omega arith))
            (λ right rest shorter.
              Leaves-bind_value (suc (suc (length ts))) (step t left right) _ (fine t left right)
                (λ value.
                  Leaves-weaken (suc (length rest)) (suc (suc (length ts))) _ (omega arith)
                    (operator_loop-Leaves rounds value rest (omega arith) (omega arith)))))
    ]

    pub level-Takes : Takes n (level is_op step below)
    unfolding level
    level-Takes ts k =
        Leaves-bind (length ts) (length ts) (below ts) _ (takes ts k) (λ left rest shorter.
          Leaves-weaken (suc (length rest)) (length ts) _ (omega arith)
            (operator_loop-Leaves (length rest) left rest (omega arith) (omega arith)))

int_of-Fine : (s : Bytes) (n : Option ℤ) → Fine (int_of s n)
unfolding int_of
int_of-Fine s none = cc
int_of-Fine s (some n) = tt

to_ints-Fine : (left right : Bytes) → Fine (to_ints left right)
unfolding to_ints
to_ints-Fine left right =
    Fine-bind (int_of left (atoi left)) _ (int_of-Fine left (atoi left))
      (λ l. Fine-bind (int_of right (atoi right)) _ (int_of-Fine right (atoi right)) (λ r. tt))

pub add_sub_step-Fine : (op left right : Bytes) → Fine (add_sub_step op left right)
unfolding add_sub_step
add_sub_step-Fine op left right =
    Fine-bind (to_ints left right) _ (to_ints-Fine left right) (λ o. tt)

mul_or_div-Fine : (op : Bytes) (o : ℤ × ℤ) → Fine (mul_or_div op o)
unfolding mul_or_div
mul_or_div-Fine op (l, r) = elim (Bool-cases (bytes_eq op (codes "*"))) [
  | inl h ↦ rw h tt
  | inr h ↦ rw h (elim (Bool-cases (is_zero_ℤ r)) [ inl z ↦ rw z (cc) | inr z ↦ rw z tt ])
]

pub mul_div_step-Fine : (op left right : Bytes) → Fine (mul_div_step op left right)
unfolding mul_div_step
mul_div_step-Fine op left right =
    Fine-bind (to_ints left right) _ (to_ints-Fine left right) (mul_or_div-Fine op)

slice_text-Fine : (rs : List ℕ) (p len : ℕ) → Fine (slice_text (slice_runes rs p len))
unfolding slice_text slice_runes
slice_text-Fine rs p len = elim (Bool-cases (ltb max_int (p + len))) [
  | inl h ↦ rw h (cc)
  | inr h ↦ rw h tt
]

substr_of-Fine : (rs : List ℕ) (p len : Option ℤ) → Fine (substr_of rs p len)
unfolding substr_of
substr_of-Fine rs (some (pos p)) (some (pos len)) =
    elim (Bool-cases (ltb p 1 || ltb (length rs) p)) [
      | inl h ↦ rw h tt
      | inr h ↦ rw h (slice_text-Fine rs (p - 1) len)
    ]
substr_of-Fine rs (some (pos p)) (some (negsuc len)) = tt
substr_of-Fine rs (some (negsuc p)) len = tt
substr_of-Fine rs (some (pos p)) none = tt
substr_of-Fine rs none len = tt

pub substr-Fine : (s p len : Bytes) → Fine (substr s p len)
unfolding substr
substr-Fine s p len = substr_of-Fine (runes s) (atoi p) (atoi len)

pub with_rest-Leaves :
    (n : ℕ) (ts : List Bytes) (r : Result ExprError Bytes)
    → length ts < n
    → Fine r
    → Leaves n (with_rest ts r)
unfolding with_rest
with_rest-Leaves n ts (ok value) h f = h
with_rest-Leaves n ts (err e) h f = f
