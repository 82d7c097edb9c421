-- ===== src/Expr/Parser/Totality.antt =====
-- The fuel of the evaluator of internal/applets/shellutils/expr/expr.go.
use mimixbox.Prelude.{
  ℕ, zero, suc, ◌<◌, ◌≢◌, subst, refl, Bool-cases, inl, inr, List, [], ◌∷◌, Option, none, some,
  arith, Bytes, bytes_eq, codes, length, Result, ok, err, ◌>>=◌,
}
use mimixbox.Expr.Operators.{
  ExprError, out_of_fuel, Found, or_step, and_step, compare_step, add_sub_step, mul_div_step,
  matched, match_op, match_step, substr,
}
use mimixbox.Expr.Parser.{
  Parsed, is_or, is_and, is_compare_op, is_add_sub, is_mul_div, is_match, closed_by, close,
  parse_length, parse_substr, parse_index, parse_match_keyword, parse_primary, parse_match,
  parse_mul_div, parse_add_sub, parse_compare, parse_and, parse_or, all_used, eval,
}
use mimixbox.Expr.Parser.Fine.{
  level-Takes, Fine, Leaves, Leaves-weaken, Leaves-bind, Takes, add_sub_step-Fine,
  mul_div_step-Fine, substr-Fine, with_rest-Leaves,
}

parse_length-Leaves : (ts : List Bytes) → Leaves (suc (length ts)) (parse_length ts)
unfolding parse_length
parse_length-Leaves [] = cc
parse_length-Leaves (s ∷ ts) = omega arith

parse_substr-Leaves : (ts : List Bytes) → Leaves (suc (length ts)) (parse_substr ts)
unfolding parse_substr
parse_substr-Leaves [] = cc
parse_substr-Leaves (s ∷ []) = cc
parse_substr-Leaves (s ∷ p ∷ []) = cc
parse_substr-Leaves (s ∷ p ∷ len ∷ ts) =
    with_rest-Leaves (suc (length (s ∷ p ∷ len ∷ ts))) ts (substr s p len) (omega arith)
      (substr-Fine s p len)

parse_index-Leaves : (ts : List Bytes) → Leaves (suc (length ts)) (parse_index ts)
unfolding parse_index
parse_index-Leaves [] = cc
parse_index-Leaves (s ∷ []) = cc
parse_index-Leaves (s ∷ chars ∷ ts) = omega arith

closed_by-Leaves :
    (value t : Bytes) (ts : List Bytes) → Leaves (suc (suc (length ts))) (closed_by value t ts)
unfolding closed_by
closed_by-Leaves value t ts = elim (Bool-cases (bytes_eq t (codes ")"))) [
  | inl h ↦ rw h (omega arith)
  | inr h ↦ rw h (cc)
]

close-Leaves : (value : Bytes) (ts : List Bytes) → Leaves (suc (length ts)) (close (value, ts))
unfolding close
close-Leaves value [] = cc
close-Leaves value (t ∷ ts) = closed_by-Leaves value t ts

module _ (compile : Bytes → Option (Bytes → Option Found)) where
  matched-Fine :
      (s pattern : Bytes) (find : Option (Bytes → Option Found))
      → Fine (matched compile s pattern find)
  unfolding matched
  matched-Fine s pattern none = cc
  matched-Fine s pattern (some find) = tt

  match_op-Fine : (s pattern : Bytes) → Fine (match_op compile s pattern)
  unfolding match_op
  match_op-Fine s pattern = matched-Fine s pattern _

  parse_match_keyword-Leaves :
      (ts : List Bytes) → Leaves (suc (length ts)) (parse_match_keyword compile ts)
  unfolding parse_match_keyword
  parse_match_keyword-Leaves [] = cc
  parse_match_keyword-Leaves (s ∷ []) = cc
  parse_match_keyword-Leaves (s ∷ pattern ∷ ts) =
      with_rest-Leaves (suc (length (s ∷ pattern ∷ ts))) ts (match_op compile s pattern)
        (omega arith) (match_op-Fine s pattern)

  parse_primary-Takes :
      (n : ℕ) (inner : List Bytes → Parsed)
      → ((ts : List Bytes) → length ts < n → Leaves (length ts) (inner ts))
      → Takes n (parse_primary compile inner)
  unfolding parse_primary
  parse_primary-Takes n inner takes [] h = cc
  parse_primary-Takes n inner takes (t ∷ ts) h = elim (Bool-cases (bytes_eq t (codes "("))) [
    | inl e ↦ rw e (
        Leaves-bind (length ts) (suc (length ts)) (inner ts) close (takes ts (omega arith))
          (λ value rest shorter.
            Leaves-weaken (suc (length rest)) (suc (length ts)) (close (value, rest)) (omega arith)
              (close-Leaves value rest)))
    | inr e ↦ rw e (elim (Bool-cases (bytes_eq t (codes "length"))) [
      | inl e ↦ rw e (parse_length-Leaves ts)
      | inr e ↦ rw e (elim (Bool-cases (bytes_eq t (codes "substr"))) [
        | inl e ↦ rw e (parse_substr-Leaves ts)
        | inr e ↦ rw e (elim (Bool-cases (bytes_eq t (codes "index"))) [
          | inl e ↦ rw e (parse_index-Leaves ts)
          | inr e ↦ rw e (elim (Bool-cases (bytes_eq t (codes "match"))) [
            | inl e ↦ rw e (parse_match_keyword-Leaves ts)
            | inr e ↦ rw e (omega arith)
          ])
        ])
      ])
    ])
  ]

  parse_or-step :
      (depth : ℕ)
      → ((ts : List Bytes) → length ts < depth → Leaves (length ts) (parse_or compile depth ts))
      → Takes depth (parse_or compile (suc depth))
  unfolding parse_or parse_and parse_compare parse_add_sub parse_mul_div parse_match or_step
      and_step compare_step match_step
  parse_or-step depth takes =
      level-Takes is_or or_step _ depth (λ t l r. tt)
        (level-Takes is_and and_step _ depth (λ t l r. tt)
          (level-Takes is_compare_op compare_step _ depth (λ t l r. tt)
            (level-Takes is_add_sub add_sub_step _ depth add_sub_step-Fine (
              level-Takes is_mul_div mul_div_step _ depth mul_div_step-Fine (
                level-Takes is_match (match_step compile) _ depth (λ t l r. match_op-Fine l r)
                  (parse_primary-Takes depth (parse_or compile depth) takes))))))

  parse_or-Takes :
      (depth : ℕ) (ts : List Bytes)
      → length ts < depth
      → Leaves (length ts) (parse_or compile depth ts)
  parse_or-Takes zero ts h = absurd (omega arith)
  parse_or-Takes (suc depth) ts h = parse_or-step depth (parse_or-Takes depth) ts (omega arith)

  all_used-Fine : (r : Bytes × List Bytes) → Fine (all_used compile r)
  unfolding all_used
  all_used-Fine (value, []) = tt
  all_used-Fine (value, t ∷ ts) = cc

  Leaves-bind_all : (n : ℕ) (r : Parsed) → Leaves n r → Fine (r >>= all_used compile)
  Leaves-bind_all n (ok r) h = all_used-Fine r
  Leaves-bind_all n (err e) h = h

  eval-Fine : (ts : List Bytes) → Fine (eval compile ts)
  unfolding eval
  eval-Fine ts =
      Leaves-bind_all (length ts) (parse_or compile (suc (length ts)) ts)
        (parse_or-Takes (suc (length ts)) ts (omega arith))

Fine→ne : {A : Type 0} (r : Result ExprError A) → Fine r → r ≢ err out_of_fuel
Fine→ne r h same = subst (λ x. Fine x) same h refl

-- Whatever the tokens and the pattern library, the evaluator comes to an end: with a value, with an
-- error of the source, or in the panic of the slice that substr takes. The fuel of the model, one
-- round for each token and one more, is always enough.
pub eval-total :
    (compile : Bytes → Option (Bytes → Option Found)) (ts : List Bytes)
    → eval compile ts ≢ err out_of_fuel
eval-total compile ts = Fine→ne (eval compile ts) (eval-Fine compile ts)
