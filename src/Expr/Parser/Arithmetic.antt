-- ===== src/Expr/Parser/Arithmetic.antt =====
-- The evaluator on arithmetic expressions with parentheses around every operation.
use mimixbox.Prelude.{
  ℕ, zero, suc, ◌≤◌, ◌≡◌, ◌==◌, ◌||◌, refl, ◌∙◌, sym, ap, true, false, List, [], ◌∷◌, ◌++◌, Option,
  arith, Bytes, bytes_eq, codes, length, append_assoc, append-nil, Result, ok, err, ◌>>=◌,
}
use mimixbox.Golang.Int.{ℤ, pos, negsuc, IsInt}
use mimixbox.Golang.Strconv.{itoa, format_nat, format_nat-DigitFirst, DigitFirst, is_digit}
use mimixbox.Expr.Operators.{
  ExprError, Found, or_step, and_step, compare_step, add_sub_step, mul_div_step, match_step,
}
use mimixbox.Expr.Parser.{
  Parsed, is_or, is_and, is_compare_op, is_add_sub, is_mul_div, is_match, level, close, closed_by,
  parse_primary, parse_match, parse_mul_div, parse_add_sub, parse_compare, parse_and, parse_or,
  all_used, eval,
}
use mimixbox.Expr.Parser.Levels.{text_of, InRange, level-pass, level-apply}
use mimixbox.Expr.Parser.Ast.{
  Op, op_add, op_sub, op_mul, op_div, op_mod, op_text, Ast, lit, bin, print, apply, value, Literals,
  add_step, sub_step, mul_step, div_step, mod_step, value-InRange, depth, depth-le,
}

module _ (compile : Bytes → Option (Bytes → Option Found)) where
  -- The levels above the operands, without that of `|`.
  module _ (operand : List Bytes → Parsed) (ts us rest : List Bytes)
      (m n : Result ExprError ℤ) where
    abbrev products : List Bytes → Parsed
    products = parse_mul_div compile (parse_match compile operand)

    abbrev sums : List Bytes → Parsed
    sums = parse_add_sub compile products

    abbrev top : List Bytes → Parsed
    top = level is_or or_step (parse_and compile (parse_compare compile sums))

    closed-pass :
        (k : Result ExprError ℤ)
        → sums ts ≡ text_of k (codes ")" ∷ rest)
        → top ts ≡ text_of k (codes ")" ∷ rest)
    unfolding parse_and parse_compare is_or is_and is_compare_op bytes_eq
    closed-pass k h =
        level-pass is_or or_step (parse_and compile (parse_compare compile sums)) ts
          (codes ")" ∷ rest) k
          (level-pass is_and and_step (parse_compare compile sums) ts (codes ")" ∷ rest) k
            (level-pass is_compare_op compare_step sums ts (codes ")" ∷ rest) k h refl) refl)
          refl

    module _ (right : operand us ≡ text_of n (codes ")" ∷ rest)) (hm : InRange m)
        (hn : InRange n) where
      sum-level :
          (t : Bytes) (f : ℤ → ℤ → Result ExprError ℤ)
          → operand ts ≡ text_of m (t ∷ us)
          → is_match t ≡ false
          → is_mul_div t ≡ false
          → is_add_sub t ≡ true
          → ((a b : ℤ)
              → IsInt a
              → IsInt b
              → (add_sub_step t (itoa a) (itoa b) >>= λ v. ok (v, codes ")" ∷ rest))
                ≡ text_of (f a b) (codes ")" ∷ rest))
          → top ts ≡ text_of (m >>= λ a. n >>= λ b. f a b) (codes ")" ∷ rest)
      unfolding parse_match parse_mul_div parse_add_sub is_match is_mul_div is_add_sub bytes_eq
      sum-level t f left no_match no_mul op e = closed-pass (m >>= λ a. n >>= λ b. f a b) (
          level-apply is_add_sub add_sub_step products ts us (codes ")" ∷ rest) t m n f
            (level-pass is_mul_div mul_div_step (parse_match compile operand) ts (t ∷ us) m
              (level-pass is_match (match_step compile) operand ts (t ∷ us) m left no_match) no_mul)
            (level-pass is_mul_div mul_div_step (parse_match compile operand) us (codes ")" ∷ rest)
              n
              (level-pass is_match (match_step compile) operand us (codes ")" ∷ rest) n right refl)
              refl)
            op refl hm hn e)

      product-level :
          (t : Bytes) (f : ℤ → ℤ → Result ExprError ℤ)
          → operand ts ≡ text_of m (t ∷ us)
          → is_match t ≡ false
          → is_mul_div t ≡ true
          → ((a b : ℤ)
              → IsInt a
              → IsInt b
              → (mul_div_step t (itoa a) (itoa b) >>= λ v. ok (v, codes ")" ∷ rest))
                ≡ text_of (f a b) (codes ")" ∷ rest))
          → top ts ≡ text_of (m >>= λ a. n >>= λ b. f a b) (codes ")" ∷ rest)
      unfolding parse_match parse_mul_div parse_add_sub is_match is_mul_div is_add_sub bytes_eq
      product-level t f left no_match op e = closed-pass (m >>= λ a. n >>= λ b. f a b) (
          level-pass is_add_sub add_sub_step products ts (codes ")" ∷ rest)
            (m >>= λ a. n >>= λ b. f a b)
            (level-apply is_mul_div mul_div_step (parse_match compile operand) ts us
              (codes ")" ∷ rest) t m n f
              (level-pass is_match (match_step compile) operand ts (t ∷ us) m left no_match)
              (level-pass is_match (match_step compile) operand us (codes ")" ∷ rest) n right refl)
              op refl hm hn e)
            refl)

  -- The evaluator of what stands in parentheses.
  bin-level :
      (operand : List Bytes → Parsed) (op : Op) (ts us rest : List Bytes) (m n : Result ExprError ℤ)
      → operand ts ≡ text_of m (op_text op ∷ us)
      → operand us ≡ text_of n (codes ")" ∷ rest)
      → InRange m
      → InRange n
      → top operand ts us rest m n ts
        ≡ text_of (m >>= λ a. n >>= λ b. apply op a b) (codes ")" ∷ rest)
  unfolding is_match is_mul_div is_add_sub bytes_eq
  bin-level operand op_add ts us rest m n left right hm hn =
      sum-level operand ts us rest m n right hm hn (codes "+") (apply op_add) left refl refl refl
        (λ a b ha hb. add_step a b ha hb (codes ")" ∷ rest))
  bin-level operand op_sub ts us rest m n left right hm hn =
      sum-level operand ts us rest m n right hm hn (codes "-") (apply op_sub) left refl refl refl
        (λ a b ha hb. sub_step a b ha hb (codes ")" ∷ rest))
  bin-level operand op_mul ts us rest m n left right hm hn =
      product-level operand ts us rest m n right hm hn (codes "*") (apply op_mul) left refl refl
        (λ a b ha hb. mul_step a b ha hb (codes ")" ∷ rest))
  bin-level operand op_div ts us rest m n left right hm hn =
      product-level operand ts us rest m n right hm hn (codes "/") (apply op_div) left refl refl
        (λ a b ha hb. div_step a b ha hb (codes ")" ∷ rest))
  bin-level operand op_mod ts us rest m n left right hm hn =
      product-level operand ts us rest m n right hm hn (codes "%") (apply op_mod) left refl refl
        (λ a b ha hb. mod_step a b ha hb (codes ")" ∷ rest))

  -- A text that begins with a digit or a minus sign is no keyword.
  abbrev NumberFirst : Bytes → Type 0
  NumberFirst [] = ⊥
  NumberFirst (c ∷ s) = (is_digit c || c == b'-') ≡ true

  digit-NumberFirst : (s : Bytes) → DigitFirst s → NumberFirst s
  digit-NumberFirst [] h = absurd h
  digit-NumberFirst (c ∷ s) h = rw h refl

  itoa-NumberFirst : (a : ℤ) → NumberFirst (itoa a)
  unfolding itoa
  itoa-NumberFirst (pos n) = digit-NumberFirst (format_nat n) (format_nat-DigitFirst n)
  itoa-NumberFirst (negsuc n) = refl

  number-keyword :
      (s : Bytes) (c : ℕ) (word : Bytes)
      → NumberFirst s
      → (is_digit c || c == b'-') ≡ false
      → bytes_eq s (c ∷ word) ≡ false
  unfolding bytes_eq
  number-keyword [] c word h k = absurd h
  number-keyword (a ∷ s) c word h k = ground arith

  parse_primary-number :
      (inner : List Bytes → Parsed) (s : Bytes) (rest : List Bytes)
      → NumberFirst s
      → parse_primary compile inner (s ∷ rest) ≡ ok (s, rest)
  unfolding parse_primary
  parse_primary-number inner s rest h =
      rw
        (
          number-keyword s b'(' [] h refl,
          number-keyword s b'l' (codes "ength") h refl,
          number-keyword s b's' (codes "ubstr") h refl,
          number-keyword s b'i' (codes "ndex") h refl,
          number-keyword s b'm' (codes "atch") h refl,
        )
        refl

  parse_primary-open :
      (inner : List Bytes → Parsed) (ts : List Bytes)
      → parse_primary compile inner (codes "(" ∷ ts) ≡ (inner ts >>= close)
  unfolding parse_primary bytes_eq
  parse_primary-open inner ts = refl

  close-text :
      (k : Result ExprError ℤ) (rest : List Bytes)
      → (text_of k (codes ")" ∷ rest) >>= close) ≡ text_of k rest
  unfolding close closed_by bytes_eq
  close-text (ok a) rest = refl
  close-text (err e) rest = refl

  parse_or-level :
      (d : ℕ) (ts us rest : List Bytes) (m n : Result ExprError ℤ)
      → parse_or compile (suc d) ts
        ≡ top (parse_primary compile (parse_or compile d)) ts us rest m n ts
  unfolding parse_or
  parse_or-level d ts us rest m n = refl

  print-lit : (a : ℤ) → print (lit a) ≡ itoa a ∷ []
  unfolding print
  print-lit a = refl

  print-bin :
      (op : Op) (l r : Ast) (rest : List Bytes)
      → print (bin op l r) ++ rest
        ≡ codes "(" ∷ (print l ++ (op_text op ∷ (print r ++ (codes ")" ∷ rest))))
  unfolding print
  print-bin op l r rest =
      ap (λ t. codes "(" ∷ t)
        (append_assoc (print l) (op_text op ∷ (print r ++ codes ")" ∷ [])) rest
          ∙ ap (λ t. print l ++ (op_text op ∷ t)) (append_assoc (print r) (codes ")" ∷ []) rest))

  -- An operand is read as its value, whatever follows it.
  parse_primary-print :
      (e : Ast) (d : ℕ) (rest : List Bytes)
      → depth e ≤ d
      → Literals e
      → parse_primary compile (parse_or compile d) (print e ++ rest) ≡ text_of (value e) rest
  unfolding depth value
  parse_primary-print (lit a) d rest h ok_literals =
      ap (λ t. parse_primary compile (parse_or compile d) (t ++ rest)) (print-lit a)
      ∙ parse_primary-number (parse_or compile d) (itoa a) rest (itoa-NumberFirst a)
  parse_primary-print (bin op l r) zero rest h ok_literals = absurd (omega arith)
  parse_primary-print (bin op l r) (suc d) rest h ok_literals =
      ap (parse_primary compile (parse_or compile (suc d))) (print-bin op l r rest)
      ∙ parse_primary-open (parse_or compile (suc d))
          (print l ++ (op_text op ∷ (print r ++ (codes ")" ∷ rest))))
      ∙ ap (λ p. p >>= close)
          (parse_or-level d (print l ++ (op_text op ∷ (print r ++ (codes ")" ∷ rest))))
              (print r ++ (codes ")" ∷ rest)) rest (value l) (value r)
            ∙ bin-level (parse_primary compile (parse_or compile d)) op
                (print l ++ (op_text op ∷ (print r ++ (codes ")" ∷ rest))))
                (print r ++ (codes ")" ∷ rest)) rest (value l) (value r)
                (parse_primary-print l d (op_text op ∷ (print r ++ (codes ")" ∷ rest)))
                  (omega arith) ok_literals.0)
                (parse_primary-print r d (codes ")" ∷ rest) (omega arith) ok_literals.1)
                (value-InRange l ok_literals.0) (value-InRange r ok_literals.1))
      ∙ close-text (value l >>= λ a. value r >>= λ b. apply op a b) rest

  -- All levels pass on the value of an operand at the end of the tokens.
  end-pass :
      (operand : List Bytes → Parsed) (ts : List Bytes) (m : Result ExprError ℤ)
      → operand ts ≡ text_of m []
      → top operand ts [] [] m m ts ≡ text_of m []
  unfolding parse_and parse_compare parse_add_sub parse_mul_div parse_match
  end-pass operand ts m h =
      level-pass is_or or_step
        (parse_and compile (parse_compare compile (sums operand ts [] [] m m))) ts [] m
        (level-pass is_and and_step (parse_compare compile (sums operand ts [] [] m m)) ts [] m
          (level-pass is_compare_op compare_step (sums operand ts [] [] m m) ts [] m
            (level-pass is_add_sub add_sub_step (products operand ts [] [] m m) ts [] m
              (level-pass is_mul_div mul_div_step (parse_match compile operand) ts [] m
                (level-pass is_match (match_step compile) operand ts [] m h tt) tt)
              tt)
            tt)
          tt)
        tt

  all_used-text :
      (m : Result ExprError ℤ) → (text_of m [] >>= all_used compile) ≡ (m >>= λ a. ok (itoa a))
  unfolding all_used
  all_used-text (ok a) = refl
  all_used-text (err e) = refl

  eval-value :
      (ts : List Bytes) (m : Result ExprError ℤ)
      → parse_primary compile (parse_or compile (length ts)) ts ≡ text_of m []
      → eval compile ts ≡ (m >>= λ a. ok (itoa a))
  unfolding eval
  eval-value ts m h =
      ap (λ p. p >>= all_used compile)
        (parse_or-level (length ts) ts [] [] m m
          ∙ end-pass (parse_primary compile (parse_or compile (length ts))) ts m h)
      ∙ all_used-text m

-- An arithmetic expression with parentheses around each operation is evaluated to its value in
-- 64 bits, or to the error of its first division by zero, if its numbers are in range.
pub eval-print :
    (compile : Bytes → Option (Bytes → Option Found)) (e : Ast)
    → Literals e
    → eval compile (print e) ≡ (value e >>= λ a. ok (itoa a))
eval-print compile e ok_literals = eval-value compile (print e) (value e) (
    ap (parse_primary compile (parse_or compile (length (print e)))) (sym (append-nil (print e)))
    ∙ parse_primary-print compile e (length (print e)) [] (depth-le e) ok_literals)
