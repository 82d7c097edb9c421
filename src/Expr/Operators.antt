-- ===== src/Expr/Operators.antt =====
-- The operators of internal/applets/shellutils/expr/expr.go on their operands.
use mimixbox.Prelude.{
  ℕ, ◌+◌, ◌-◌, Bool, true, false, not, ◌&&◌, ◌||◌, [], ◌∷◌, Option, none, some, ltb, ◌==◌,
  if◌then◌else◌, min, Bytes, bytes_eq, Runes, codes, length, take, drop, Result, ok, err, ◌>>=◌,
}
use mimixbox.Golang.Int.{ℤ, pos, negsuc, ◌+ℤ◌, ◌-ℤ◌, ◌*ℤ◌, quo, rem, ltb_ℤ, eqb_ℤ, wrap, max_int}
use mimixbox.Golang.Utf8.{runes, string_of}
use mimixbox.Golang.Strconv.{itoa, atoi}
use mimixbox.Golang.Strings.Order.{bytes_ltb}
use mimixbox.Golang.Strings.{contains}

-- The syntax errors, the panic of a slice out of range, and the failure of the model where its
-- fuel runs out.
pub data ExprError : Type 0 where
  missing_argument expecting_paren division_by_zero invalid_regexp : ExprError
  missing_after unexpected non_integer : Bytes → ExprError
  slice_panic out_of_fuel : ExprError

is_zero : Option ℤ → Bool
is_zero (some (pos n)) = n == 0
is_zero (some (negsuc n)) = false
is_zero none = false

unfoldable pub is_false : Bytes → Bool
unfolding is_zero atoi
is_false [] = true
is_false (c ∷ s) = is_zero (atoi (c ∷ s))

-- The switches of `compare`, by whether the left operand is less and whether it is equal; both
-- orders are total.
unfoldable pub compare_by : Bytes → Bool → Bool → Bool
unfolding bytes_eq
compare_by op less equal =
    if bytes_eq op (codes "<")
    then less
    else if bytes_eq op (codes "<=")
    then less || equal
    else if bytes_eq op (codes "=")
    then equal
    else if bytes_eq op (codes "!=")
    then not equal
    else if bytes_eq op (codes ">=")
    then not less
    else bytes_eq op (codes ">") && not (less || equal)

compare_ints : Bytes → Bytes → Bytes → Option ℤ → Option ℤ → Bool
unfolding compare_by bytes_ltb
compare_ints left right op (some l) (some r) = compare_by op (ltb_ℤ l r) (eqb_ℤ l r)
compare_ints left right op (some l) none =
    compare_by op (bytes_ltb left right) (bytes_eq left right)
compare_ints left right op none r = compare_by op (bytes_ltb left right) (bytes_eq left right)

unfoldable pub compare : Bytes → Bytes → Bytes → Bool
unfolding compare_ints atoi
compare left right op = compare_ints left right op (atoi left) (atoi right)

unfoldable pub bool_to_str : Bool → Bytes
bool_to_str true = codes "1"
bool_to_str false = codes "0"

unfoldable pub int_of : Bytes → Option ℤ → Result ExprError ℤ
int_of s none = err (non_integer s)
int_of s (some n) = ok n

unfoldable pub to_ints : Bytes → Bytes → Result ExprError (ℤ × ℤ)
unfolding int_of atoi
to_ints left right = do l ← int_of left (atoi left); r ← int_of right (atoi right); ok (l, r)

unfoldable pub is_zero_ℤ : ℤ → Bool
is_zero_ℤ (pos n) = n == 0
is_zero_ℤ (negsuc n) = false

-- `+` and `-`, which wrap around.
unfoldable pub add_or_sub : Bytes → ℤ × ℤ → Bytes
unfolding bytes_eq itoa wrap ◌+ℤ◌ ◌-ℤ◌
add_or_sub op (l, r) = itoa (wrap (if bytes_eq op (codes "+") then l +ℤ r else l -ℤ r))

unfoldable pub mul_or_div : Bytes → ℤ × ℤ → Result ExprError Bytes
unfolding bytes_eq itoa wrap ◌*ℤ◌ quo rem is_zero_ℤ
mul_or_div op (l, r) =
    if bytes_eq op (codes "*")
    then ok (itoa (wrap (l *ℤ r)))
    else if is_zero_ℤ r
    then err division_by_zero
    else ok (itoa (wrap (if bytes_eq op (codes "/") then quo l r else rem l r)))

-- The bodies of the loops of `parseOr` down to `parseMulDiv`: what becomes of `left`.
unfoldable pub or_step : Bytes → Bytes → Bytes → Result ExprError Bytes
unfolding is_false
or_step op left right = ok (if is_false left then right else left)

unfoldable pub and_step : Bytes → Bytes → Bytes → Result ExprError Bytes
unfolding is_false
and_step op left right = ok (if is_false left || is_false right then codes "0" else left)

unfoldable pub compare_step : Bytes → Bytes → Bytes → Result ExprError Bytes
unfolding compare bool_to_str
compare_step op left right = ok (bool_to_str (compare left right op))

unfoldable pub add_sub_step : Bytes → Bytes → Bytes → Result ExprError Bytes
unfolding to_ints add_or_sub
add_sub_step op left right = do operands ← to_ints left right; ok (add_or_sub op operands)

unfoldable pub mul_div_step : Bytes → Bytes → Bytes → Result ExprError Bytes
unfolding to_ints mul_or_div
mul_div_step op left right = do operands ← to_ints left right; mul_or_div op operands

-- `basicToGoRegexp`.
escapes : ℕ → Bool
escapes c = c == b'(' || c == b')' || c == b'{' || c == b'}'

unfoldable pub basic_to_go_regexp : Bytes → Bytes
unfolding escapes
basic_to_go_regexp [] = []
basic_to_go_regexp (c ∷ []) =
    if escapes c || c == b'+' || c == b'?' || c == b'|' then b'\\' ∷ c ∷ [] else c ∷ []
basic_to_go_regexp (c ∷ d ∷ s) =
    let rest = basic_to_go_regexp (d ∷ s) in
    let behind = basic_to_go_regexp s in
    if c == b'\\'
    then (if escapes d then d ∷ behind else b'\\' ∷ d ∷ behind)
    else if escapes c || c == b'+' || c == b'?' || c == b'|'
    then b'\\' ∷ c ∷ rest
    else c ∷ rest

-- A match: its text, and the text of the first group if the pattern has groups.
abbrev pub Found : Type 0
Found = Bytes × Option Bytes

found_text : Bytes → Option Found → Bytes
unfolding contains itoa runes
found_text pattern none = if contains pattern (codes "\\(") then [] else codes "0"
found_text pattern (some (whole, some inner)) = inner
found_text pattern (some (whole, none)) = itoa (pos (length (runes whole)))

-- `compile` stands for `regexp.Compile` and `FindStringSubmatch`: `none` for an invalid pattern.
module _ (compile : Bytes → Option (Bytes → Option Found)) where
  unfoldable pub matched : Bytes → Bytes → Option (Bytes → Option Found) → Result ExprError Bytes
  unfolding found_text
  matched s pattern none = err invalid_regexp
  matched s pattern (some find) = ok (found_text pattern (find s))

  unfoldable pub match_op : Bytes → Bytes → Result ExprError Bytes
  unfolding matched basic_to_go_regexp
  match_op s pattern = matched s pattern (compile (b'^' ∷ basic_to_go_regexp pattern))

  unfoldable pub match_step : Bytes → Bytes → Bytes → Result ExprError Bytes
  unfolding match_op
  match_step op left right = match_op left right

-- The slice of `parseSubstr`; `start + length` may wrap around below `start`.
unfoldable pub slice_runes : Runes → ℕ → ℕ → Result ExprError Runes
slice_runes rs start len =
    if ltb max_int (start + len)
    then err slice_panic
    else ok (take (min (start + len) (length rs) - start) (drop start rs))

unfoldable pub slice_text : Result ExprError Runes → Result ExprError Bytes
unfolding string_of
slice_text (ok rs) = ok (string_of rs)
slice_text (err e) = err e

unfoldable pub substr_of : Runes → Option ℤ → Option ℤ → Result ExprError Bytes
unfolding slice_runes slice_text
substr_of rs (some (pos p)) (some (pos len)) =
    if ltb p 1 || ltb (length rs) p then ok [] else slice_text (slice_runes rs (p - 1) len)
substr_of rs (some (pos p)) (some (negsuc len)) = ok []
substr_of rs (some (negsuc p)) len = ok []
substr_of rs (some (pos p)) none = ok []
substr_of rs none len = ok []

unfoldable pub substr : Bytes → Bytes → Bytes → Result ExprError Bytes
unfolding substr_of atoi runes
substr s p len = substr_of (runes s) (atoi p) (atoi len)

has_rune : Runes → ℕ → Bool
has_rune [] c = false
has_rune (d ∷ rs) c = c == d || has_rune rs c

index_from : Runes → ℕ → Runes → Bytes
unfolding has_rune itoa
index_from set i [] = codes "0"
index_from set i (c ∷ rs) =
    let later = index_from set (i + 1) rs in if has_rune set c then itoa (pos (i + 1)) else later

unfoldable pub index : Bytes → Bytes → Bytes
unfolding index_from runes
index s chars = index_from (runes chars) 0 (runes s)
