-- ===== src/Expr/Parser/Levels.antt =====
-- What one level of the evaluator of internal/applets/shellutils/expr/expr.go does around the level
-- below it.
use mimixbox.Prelude.{
  ℕ, zero, suc, ◌≡◌, refl, ◌∙◌, Bool, true, false, List, [], ◌∷◌, Bytes, length, Result, ok, err,
  ◌>>=◌,
}
use mimixbox.Golang.Int.{ℤ, IsInt}
use mimixbox.Golang.Strconv.{itoa}
use mimixbox.Expr.Operators.{ExprError}
use mimixbox.Expr.Parser.{Parsed, Step, operator_loop, level}

-- A value as its text, with the tokens left.
abbrev pub text_of : Result ExprError ℤ → List Bytes → Parsed
text_of (ok a) rest = ok (itoa a, rest)
text_of (err e) rest = err e

abbrev pub InRange : Result ExprError ℤ → Type 0
InRange (ok a) = IsInt a
InRange (err e) = Unit

abbrev pub Stops : (Bytes → Bool) → List Bytes → Type 0
Stops is_op [] = Unit
Stops is_op (t ∷ ts) = is_op t ≡ false

module _ (is_op : Bytes → Bool) (step : Step) (below : List Bytes → Parsed) where
  operator_loop-Stops :
      (rounds : ℕ) (left : Bytes) (ts : List Bytes)
      → Stops is_op ts
      → operator_loop is_op step below rounds left ts ≡ ok (left, ts)
  unfolding operator_loop
  operator_loop-Stops zero left [] h = refl
  operator_loop-Stops (suc rounds) left [] h = refl
  operator_loop-Stops zero left (t ∷ ts) h = rw (h, operator_loop) refl
  operator_loop-Stops (suc rounds) left (t ∷ ts) h = rw (h, operator_loop) refl

  -- A level passes on what the level below gives if no operator of its own follows.
  pub level-pass :
      (ts rest : List Bytes) (m : Result ExprError ℤ)
      → below ts ≡ text_of m rest
      → Stops is_op rest
      → level is_op step below ts ≡ text_of m rest
  unfolding level
  level-pass ts rest (err e) h stops = rw h refl
  level-pass ts rest (ok a) h stops = rw h (operator_loop-Stops (length rest) (itoa a) rest stops)

  operator_loop-take :
      (t left : Bytes) (ts : List Bytes) (rounds : ℕ)
      → is_op t ≡ true
      → operator_loop is_op step below (suc rounds) left (t ∷ ts) ≡ (
          below ts >>= λ right.
          step t left right.0 >>= λ v. operator_loop is_op step below rounds v right.1)
  unfolding operator_loop
  operator_loop-take t left ts rounds h = rw (h, operator_loop) refl

  -- A level applies one operator between two operands of the level below.
  pub level-apply :
      (ts us rest : List Bytes) (t : Bytes) (m n : Result ExprError ℤ)
      (f : ℤ → ℤ → Result ExprError ℤ)
      → below ts ≡ text_of m (t ∷ us)
      → below us ≡ text_of n rest
      → is_op t ≡ true
      → Stops is_op rest
      → InRange m
      → InRange n
      → ((a b : ℤ)
          → IsInt a
          → IsInt b
          → (step t (itoa a) (itoa b) >>= λ v. ok (v, rest)) ≡ text_of (f a b) rest)
      → level is_op step below ts ≡ text_of (m >>= λ a. n >>= λ b. f a b) rest
  unfolding level
  level-apply ts us rest t (err x) n f h i op stops hm hn e = rw h refl
  level-apply ts us rest t (ok a) (err x) f h i op stops hm hn e =
      rw h (operator_loop-take t (itoa a) us (length us) op ∙ rw i refl)
  level-apply ts us rest t (ok a) (ok b) f h i op stops hm hn e = rw h (
      operator_loop-take t (itoa a) us (length us) op
      ∙ rw i (stepped (step t (itoa a) (itoa b)) (f a b) (e a b hm hn)))
    where
      stepped :
          (r : Result ExprError Bytes) (k : Result ExprError ℤ)
          → (r >>= λ v. ok (v, rest)) ≡ text_of k rest
          → (r >>= λ v. operator_loop is_op step below (length us) v rest) ≡ text_of k rest
      stepped (err x) k g = g
      stepped (ok v) k g = operator_loop-Stops (length us) v rest stops ∙ g
