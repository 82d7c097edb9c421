-- ===== src/Expr/Tests.antt =====
-- Runs of expr, and the theorems about it at concrete inputs.
use mimixbox.Prelude.{
  ◌≡◌, ◌≢◌, refl, List, [], ◌∷◌, Option, none, Bytes, codes, ok, err, ◌>>=◌, ◌≤◌, ℕ, arith,
}
use mimixbox.Golang.Strconv.{itoa}
use mimixbox.Golang.Int.{pos, IsInt, ◌+ℤ◌, ◌*ℤ◌, wrap}
use mimixbox.Expr.Operators.{slice_panic, out_of_fuel, Found, substr, slice_runes}
use mimixbox.Expr.Parser.{eval, run}
use mimixbox.Expr.Parser.Totality.{eval-total}
use mimixbox.Expr.Parser.Ast.{Ast, lit, bin, op_mul, op_sub, op_div, print, value}
use mimixbox.Expr.Parser.Arithmetic.{eval-print}

-- A pattern library in which no pattern is valid.
abbrev no_patterns : Bytes → Option (Bytes → Option Found)
no_patterns _ = none

abbrev sum : List Bytes
sum = codes "1" ∷ codes "+" ∷ codes "2" ∷ codes "*" ∷ codes "3" ∷ []

sum_of_product : run no_patterns sum ≡ ok (codes "7\n", 0)
unfolding run ◌+ℤ◌ ◌*ℤ◌ wrap
sum_of_product = refl

-- The end of the slice wraps around below its start.
huge_length : substr (codes "abc") (codes "2") (codes "9223372036854775807") ≡ err slice_panic
unfolding substr slice_runes
huge_length = refl

eval-total_example : eval no_patterns sum ≢ err out_of_fuel
eval-total_example = eval-total no_patterns sum

-- (2 - 5) * (7 / 0)
abbrev by_zero : Ast
by_zero =
    bin op_mul (bin op_sub (lit (pos 2)) (lit (pos 5))) (bin op_div (lit (pos 7)) (lit (pos 0)))

eval-print_example : eval no_patterns (print by_zero) ≡ (value by_zero >>= λ a. ok (itoa a))
unfolding wrap
eval-print_example =
    eval-print no_patterns by_zero (
      (small 2 (omega arith), small 5 (omega arith)),
      (small 7 (omega arith), small 0 (omega arith)),
    )
  where
    small : (n : ℕ) → n ≤ 7 → IsInt (pos n)
    small n h = omega arith
