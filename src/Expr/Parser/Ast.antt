-- ===== src/Expr/Parser/Ast.antt =====
-- Arithmetic expressions for the evaluator of internal/applets/shellutils/expr/expr.go: their tokens,
-- their values, and the single operations.
use mimixbox.Prelude.{
  ℕ, suc, ◌≤◌, ◌≡◌, refl, Bool-cases, inl, inr, List, [], ◌∷◌, ◌++◌, arith, max, if◌then◌else◌,
  Bytes, bytes_eq, codes, length, length-append, Result, ok, err, ◌>>=◌,
}
use mimixbox.Golang.Int.{ℤ, ◌+ℤ◌, ◌-ℤ◌, ◌*ℤ◌, quo, rem, wrap, wrap-IsInt, IsInt}
use mimixbox.Golang.Strconv.{itoa, atoi-itoa}
use mimixbox.Expr.Operators.{
  ExprError, division_by_zero, int_of, to_ints, is_zero_ℤ, add_or_sub, mul_or_div, add_sub_step,
  mul_div_step,
}
use mimixbox.Expr.Parser.Levels.{text_of, InRange}

pub data Op : Type 0 where
  op_add op_sub op_mul op_div op_mod : Op

pub data Ast : Type 0 where
  lit : ℤ → Ast
  bin : Op → Ast → Ast → Ast

abbrev pub op_text : Op → Bytes
op_text op_add = codes "+"
op_text op_sub = codes "-"
op_text op_mul = codes "*"
op_text op_div = codes "/"
op_text op_mod = codes "%"

-- The tokens of an expression.
unfoldable pub print : Ast → List Bytes
print (lit a) = itoa a ∷ []
print (bin op l r) = codes "(" ∷ (print l ++ (op_text op ∷ (print r ++ codes ")" ∷ [])))

divided : (ℤ → ℤ → ℤ) → ℤ → ℤ → Result ExprError ℤ
divided f a b = if is_zero_ℤ b then err division_by_zero else ok (wrap (f a b))

-- Arithmetic in 64 bits, with an error for a division by zero.
unfoldable pub apply : Op → ℤ → ℤ → Result ExprError ℤ
unfolding divided
apply op_add a b = ok (wrap (a +ℤ b))
apply op_sub a b = ok (wrap (a -ℤ b))
apply op_mul a b = ok (wrap (a *ℤ b))
apply op_div a b = divided quo a b
apply op_mod a b = divided rem a b

unfoldable pub value : Ast → Result ExprError ℤ
value (lit a) = ok a
value (bin op l r) = value l >>= λ a. value r >>= λ b. apply op a b

-- The numbers of the expression are in range.
abbrev pub Literals : Ast → Type 0
Literals (lit a) = IsInt a
Literals (bin op l r) = Literals l × Literals r

to_ints-itoa : (a b : ℤ) → IsInt a → IsInt b → to_ints (itoa a) (itoa b) ≡ ok (a, b)
unfolding to_ints int_of
to_ints-itoa a b ha hb = rw (atoi-itoa a ha, atoi-itoa b hb) refl

module _ (a b : ℤ) (ha : IsInt a) (hb : IsInt b) (rest : List Bytes) where
  pub add_step :
      (add_sub_step (codes "+") (itoa a) (itoa b) >>= λ v. ok (v, rest))
      ≡ text_of (apply op_add a b) rest
  unfolding add_sub_step add_or_sub bytes_eq apply
  add_step = rw (to_ints-itoa a b ha hb) refl

  pub sub_step :
      (add_sub_step (codes "-") (itoa a) (itoa b) >>= λ v. ok (v, rest))
      ≡ text_of (apply op_sub a b) rest
  unfolding add_sub_step add_or_sub bytes_eq apply
  sub_step = rw (to_ints-itoa a b ha hb) refl

  pub mul_step :
      (mul_div_step (codes "*") (itoa a) (itoa b) >>= λ v. ok (v, rest))
      ≡ text_of (apply op_mul a b) rest
  unfolding mul_div_step mul_or_div bytes_eq apply
  mul_step = rw (to_ints-itoa a b ha hb) refl

  pub div_step :
      (mul_div_step (codes "/") (itoa a) (itoa b) >>= λ v. ok (v, rest))
      ≡ text_of (apply op_div a b) rest
  unfolding mul_div_step mul_or_div bytes_eq apply divided
  div_step =
      rw (to_ints-itoa a b ha hb)
        (elim (Bool-cases (is_zero_ℤ b)) [ inl z ↦ rw z refl | inr z ↦ rw z refl ])

  pub mod_step :
      (mul_div_step (codes "%") (itoa a) (itoa b) >>= λ v. ok (v, rest))
      ≡ text_of (apply op_mod a b) rest
  unfolding mul_div_step mul_or_div bytes_eq apply divided
  mod_step =
      rw (to_ints-itoa a b ha hb)
        (elim (Bool-cases (is_zero_ℤ b)) [ inl z ↦ rw z refl | inr z ↦ rw z refl ])

divided-InRange : (f : ℤ → ℤ → ℤ) (a b : ℤ) → InRange (divided f a b)
unfolding divided
divided-InRange f a b = elim (Bool-cases (is_zero_ℤ b)) [
  | inl z ↦ rw z tt
  | inr z ↦ rw z (wrap-IsInt (f a b))
]

apply-InRange : (op : Op) (a b : ℤ) → InRange (apply op a b)
unfolding apply
apply-InRange op_add a b = wrap-IsInt (a +ℤ b)
apply-InRange op_sub a b = wrap-IsInt (a -ℤ b)
apply-InRange op_mul a b = wrap-IsInt (a *ℤ b)
apply-InRange op_div a b = divided-InRange quo a b
apply-InRange op_mod a b = divided-InRange rem a b

InRange-bind :
    (m n : Result ExprError ℤ) (f : ℤ → ℤ → Result ExprError ℤ)
    → ((a b : ℤ) → InRange (f a b))
    → InRange (m >>= λ a. n >>= λ b. f a b)
InRange-bind (err x) n f h = tt
InRange-bind (ok a) (err x) f h = tt
InRange-bind (ok a) (ok b) f h = h a b

pub value-InRange : (e : Ast) → Literals e → InRange (value e)
unfolding value
value-InRange (lit a) h = h
value-InRange (bin op l r) h = InRange-bind (value l) (value r) (apply op) (apply-InRange op)

unfoldable pub depth : Ast → ℕ
depth (lit a) = 0
depth (bin op l r) = suc (max (depth l) (depth r))

pub depth-le : (e : Ast) → depth e ≤ length (print e)
unfolding depth print
depth-le (lit a) = omega arith
depth-le (bin op l r) = omega (
  arith,
  depth-le l,
  depth-le r,
  length-append (print l) (op_text op ∷ (print r ++ codes ")" ∷ [])),
  length-append (print r) (codes ")" ∷ []),
)
