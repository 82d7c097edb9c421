-- ===== src/Expr/Parser.antt =====
-- The recursive-descent evaluator of internal/applets/shellutils/expr/expr.go. The parser is the
-- list of the tokens that are left.
pub mod Fine
pub mod Totality
pub mod Levels
pub mod Ast
pub mod Arithmetic
use mimixbox.Prelude.{
  ℕ, zero, suc, ◌≡◌, refl, Bool, true, false, ◌||◌, List, [], ◌∷◌, ◌++◌, Option, none, some,
  if◌then◌else◌, Bytes, bytes_eq, codes, length, Result, ok, err, ◌>>=◌,
}
use mimixbox.Golang.Int.{pos}
use mimixbox.Golang.Utf8.{runes}
use mimixbox.Golang.Strconv.{itoa}
use mimixbox.Expr.Operators.{
  ExprError, missing_argument, expecting_paren, missing_after, unexpected, slice_panic, out_of_fuel,
  Found, is_false, or_step, and_step, compare_step, add_sub_step, mul_div_step, match_op,
  match_step, substr, index,
}

abbrev pub Parsed : Type 0
Parsed = Result ExprError (Bytes × List Bytes)

abbrev pub Step : Type 0
Step = Bytes → Bytes → Bytes → Result ExprError Bytes

unfoldable pub is_or : Bytes → Bool
unfolding bytes_eq
is_or t = bytes_eq t (codes "|")

unfoldable pub is_and : Bytes → Bool
unfolding bytes_eq
is_and t = bytes_eq t (codes "&")

unfoldable pub is_compare_op : Bytes → Bool
unfolding bytes_eq
is_compare_op t =
    bytes_eq t (codes "<")
    || bytes_eq t (codes "<=")
    || bytes_eq t (codes "=")
    || bytes_eq t (codes "!=")
    || bytes_eq t (codes ">=")
    || bytes_eq t (codes ">")

unfoldable pub is_add_sub : Bytes → Bool
unfolding bytes_eq
is_add_sub t = bytes_eq t (codes "+") || bytes_eq t (codes "-")

unfoldable pub is_mul_div : Bytes → Bool
unfolding bytes_eq
is_mul_div t = bytes_eq t (codes "*") || bytes_eq t (codes "/") || bytes_eq t (codes "%")

unfoldable pub is_match : Bytes → Bool
unfolding bytes_eq
is_match t = bytes_eq t (codes ":")

-- The loop that `parseOr`, `parseAnd`, `parseCompare`, `parseAddSub`, `parseMulDiv` and
-- `parseMatch` have in common, by their operators, by what becomes of `left`, and by the level
-- below. A round takes a token at least.
module _ (is_op : Bytes → Bool) (step : Step) (below : List Bytes → Parsed) where
  unfoldable pub operator_loop : ℕ → Bytes → List Bytes → Parsed
  operator_loop rounds left [] = ok (left, [])
  operator_loop zero left (t ∷ ts) = if is_op t then err out_of_fuel else ok (left, t ∷ ts)
  operator_loop (suc rounds) left (t ∷ ts) = elim (is_op t) [
    | true ↦
        below ts >>= λ right. step t left right.0 >>= λ value. operator_loop rounds value right.1
    | false ↦ ok (left, t ∷ ts)
  ]

  unfoldable pub level : List Bytes → Parsed
  unfolding operator_loop
  level ts = below ts >>= λ left. operator_loop (length left.1) left.0 left.1

closed_by : Bytes → Bytes → List Bytes → Parsed
unfolding bytes_eq
closed_by value t ts = if bytes_eq t (codes ")") then ok (value, ts) else err expecting_paren

-- The `)` behind an expression in parentheses.
unfoldable pub close : Bytes × List Bytes → Parsed
unfolding closed_by
close (value, []) = err expecting_paren
close (value, t ∷ ts) = closed_by value t ts

unfoldable pub parse_length : List Bytes → Parsed
unfolding itoa runes
parse_length [] = err (missing_after (codes "length"))
parse_length (s ∷ ts) = ok (itoa (pos (length (runes s))), ts)

-- A value with the tokens left behind it.
pub with_rest : List Bytes → Result ExprError Bytes → Parsed
with_rest ts (ok value) = ok (value, ts)
with_rest ts (err e) = err e

unfoldable pub parse_substr : List Bytes → Parsed
unfolding with_rest substr
parse_substr [] = err (missing_after (codes "substr"))
parse_substr (s ∷ []) = err (missing_after (codes "substr"))
parse_substr (s ∷ p ∷ []) = err (missing_after (codes "substr"))
parse_substr (s ∷ p ∷ len ∷ ts) = with_rest ts (substr s p len)

unfoldable pub parse_index : List Bytes → Parsed
unfolding index
parse_index [] = err (missing_after (codes "index"))
parse_index (s ∷ []) = err (missing_after (codes "index"))
parse_index (s ∷ chars ∷ ts) = ok (index s chars, ts)

module _ (compile : Bytes → Option (Bytes → Option Found)) where
  unfoldable pub parse_match_keyword : List Bytes → Parsed
  unfolding with_rest match_op
  parse_match_keyword [] = err (missing_after (codes "match"))
  parse_match_keyword (s ∷ []) = err (missing_after (codes "match"))
  parse_match_keyword (s ∷ pattern ∷ ts) = with_rest ts (match_op compile s pattern)

  -- `inner` is `parseOr`, for what stands in parentheses.
  unfoldable pub parse_primary : (List Bytes → Parsed) → List Bytes → Parsed
  unfolding close parse_length parse_substr parse_index parse_match_keyword bytes_eq
  parse_primary inner [] = err missing_argument
  parse_primary inner (t ∷ ts) =
      if bytes_eq t (codes "(")
      then inner ts >>= close
      else if bytes_eq t (codes "length")
      then parse_length ts
      else if bytes_eq t (codes "substr")
      then parse_substr ts
      else if bytes_eq t (codes "index")
      then parse_index ts
      else if bytes_eq t (codes "match")
      then parse_match_keyword ts
      else ok (t, ts)

  unfoldable pub parse_match : (List Bytes → Parsed) → List Bytes → Parsed
  unfolding level is_match match_step
  parse_match = level is_match (match_step compile)

  unfoldable pub parse_mul_div : (List Bytes → Parsed) → List Bytes → Parsed
  unfolding level is_mul_div mul_div_step
  parse_mul_div = level is_mul_div mul_div_step

  unfoldable pub parse_add_sub : (List Bytes → Parsed) → List Bytes → Parsed
  unfolding level is_add_sub add_sub_step
  parse_add_sub = level is_add_sub add_sub_step

  unfoldable pub parse_compare : (List Bytes → Parsed) → List Bytes → Parsed
  unfolding level is_compare_op compare_step
  parse_compare = level is_compare_op compare_step

  unfoldable pub parse_and : (List Bytes → Parsed) → List Bytes → Parsed
  unfolding level is_and and_step
  parse_and = level is_and and_step

  -- Each round of parentheses takes a token, so as many as there are tokens are enough.
  unfoldable pub parse_or : ℕ → List Bytes → Parsed
  unfolding level is_or or_step parse_and parse_compare parse_add_sub parse_mul_div parse_match
      parse_primary
  parse_or zero ts = err out_of_fuel
  parse_or (suc depth) ts =
      level is_or or_step
        (parse_and (
          parse_compare
            (parse_add_sub (parse_mul_div (parse_match (parse_primary (parse_or depth)))))))
        ts

  all_used : Bytes × List Bytes → Result ExprError Bytes
  all_used (value, []) = ok value
  all_used (value, t ∷ ts) = err (unexpected t)

  unfoldable pub eval : List Bytes → Result ExprError Bytes
  unfolding parse_or all_used
  eval ts = parse_or (suc (length ts)) ts >>= all_used

-- The output and the exit status of `Run`, behind --help and --version.
status_of : Bytes → Bytes × ℕ
unfolding is_false
status_of value = (value ++ codes "\n", if is_false value then 1 else 0)

-- A syntax error gives status 2; a panic and the failure of the model stay errors.
unfoldable pub outcome : Result ExprError Bytes → Result ExprError (Bytes × ℕ)
unfolding status_of
outcome (ok value) = ok (status_of value)
outcome (err e) = elim e [
  | slice_panic ↦ err slice_panic
  | out_of_fuel ↦ err out_of_fuel
  | _ ↦ ok ([], 2)
]

unfoldable pub run :
    (Bytes → Option (Bytes → Option Found)) → List Bytes → Result ExprError (Bytes × ℕ)
unfolding outcome eval
run compile args = outcome (eval compile args)
