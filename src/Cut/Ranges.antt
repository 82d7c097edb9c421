-- ===== src/Cut/Ranges.antt =====
-- The LIST of cut: its parsing, and the sorted and merged ranges, of
-- internal/applets/shellutils/cut/cut.go.
pub mod Covered
pub mod Merge
pub mod Gaps
pub mod Parsed
pub mod Print
use mimixbox.Prelude.{
  ℕ, zero, suc, ◌+◌, ◌-◌, ◌≤◌, ◌<◌, ◌≡◌, refl, Bool, true, false, not, ◌&&◌, ◌||◌, List, [], ◌∷◌,
  ◌++◌, Option, none, some, arith, ltb, leb, ◌==◌, if◌then◌else◌, Bytes, codes, All, Result, ok,
  err, ◌>>=◌,
}
use mimixbox.Golang.Int.{ℤ, pos, negsuc, max_int}
use mimixbox.Golang.Strconv.{is_digit, atoi}
use mimixbox.Golang.Strings.{cut_at, split, trim_space}

-- A 1-based inclusive range; `hi` is 0 where it goes on to the end of the line.
pub record Rng : Type 0 where
  pub lo : ℕ
  pub hi : ℕ

abbrev pub is_open : Rng → Bool
is_open r = r.hi == 0

pub data ListError : Type 0 where
  invalid_list no_endpoint decreasing_range from_one : ListError

all_digits : Bytes → Bool
all_digits [] = true
all_digits (c ∷ s) = is_digit c && all_digits s

at_least_one : Option ℤ → Result ListError ℕ
at_least_one none = err invalid_list
at_least_one (some (pos n)) = if ltb n 1 then err from_one else ok n
at_least_one (some (negsuc n)) = err from_one

-- `parsePos`: what `strings.Trim` by the digits leaves is empty where all bytes are digits.
unfoldable pub parse_pos : Bytes → Result ListError ℕ
unfolding all_digits at_least_one atoi
parse_pos s = if all_digits s then at_least_one (atoi s) else err invalid_list

is_empty : Bytes → Bool
is_empty [] = true
is_empty (_ ∷ _) = false

endpoint : ℕ → Bytes → Result ListError ℕ
unfolding is_empty
endpoint default s = if is_empty s then ok default else parse_pos s

-- The two ends in the order in which they are parsed.
both_ends : Result ListError ℕ → Result ListError ℕ → Result ListError Rng
both_ends low high = do
  lo ← low
  hi ← high
  if not (hi == 0) && ltb hi lo then err decreasing_range else ok (record { lo = lo; hi = hi })

-- A range of which one end may be left out.
between : Bytes → Bytes → Result ListError Rng
unfolding endpoint both_ends
between lo_text hi_text =
    if is_empty lo_text && is_empty hi_text
    then err no_endpoint
    else both_ends (endpoint 1 lo_text) (endpoint 0 hi_text)

position : Result ListError ℕ → Result ListError Rng
position (ok n) = ok (record { lo = n; hi = n })
position (err e) = err e

-- A list item by its first dash, if it has one.
ranged : Bytes → Option (Bytes × Bytes) → Result ListError Rng
unfolding between position
ranged item none = position (parse_pos item)
ranged item (some (lo_text, hi_text)) = between lo_text hi_text

unfoldable pub parse_range : Bytes → Result ListError Rng
unfolding ranged parse_pos cut_at
parse_range item = ranged item (cut_at b'-' item)

-- The items of the list, in order.
unfoldable pub parse_items : List Bytes → Result ListError (List Rng)
unfolding is_empty
parse_items [] = ok []
parse_items (item ∷ items) =
    let text = trim_space item in
    if is_empty text
    then err invalid_list
    else do r ← parse_range text; rest ← parse_items items; ok (r ∷ rest)

-- The order of `sort.Slice`: by `lo`, an open range after the others.
unfoldable pub less : Rng → Rng → Bool
less a b = if not (a.lo == b.lo) then ltb a.lo b.lo else not (is_open a) && is_open b

insert : Rng → List Rng → List Rng
insert r [] = r ∷ []
insert r (s ∷ rs) = let later = s ∷ insert r rs in if less s r then later else r ∷ s ∷ rs

-- `sort.Slice` promises no order of ranges that `less` does not tell apart; this is one that it may
-- give.
unfoldable pub sort_ranges : List Rng → List Rng
unfolding insert less
sort_ranges [] = []
sort_ranges (r ∷ rs) = insert r (sort_ranges rs)

-- `r.lo <= last.hi+1`, where the sum of the largest `int` wraps around to the smallest.
unfoldable pub reaches : ℕ → ℕ → Bool
reaches hi lo = if hi == max_int then false else leb lo (hi + 1)

-- The merging loop; `last` is the last range of `merged`, and the result is the rest of `merged`
-- from there on.
unfoldable pub merge_from : Rng → List Rng → List Rng
unfolding reaches
merge_from last [] = last ∷ []
merge_from last (r ∷ rs) =
    let skip = merge_from last rs in
    let open_ended = merge_from (record last { hi = 0 }) rs in
    let extended = merge_from (record last { hi = r.hi }) rs in
    let apart = last ∷ merge_from r rs in
    if is_open last
    then skip
    else if reaches last.hi r.lo
    then (if is_open r then open_ended else if ltb last.hi r.hi then extended else skip)
    else apart

unfoldable pub merge_sorted : List Rng → List Rng
unfolding merge_from
merge_sorted [] = []
merge_sorted (r ∷ rs) = merge_from r rs

unfoldable pub merge_ranges : List Rng → List Rng
unfolding sort_ranges merge_sorted
merge_ranges ranges = merge_sorted (sort_ranges ranges)

merged : Result ListError (List Rng) → Result ListError (List Rng)
merged (ok ranges) = ok (merge_ranges ranges)
merged (err e) = err e

unfoldable pub parse_ranges : Bytes → Result ListError (List Rng)
unfolding merged parse_items merge_ranges split trim_space is_empty parse_range
parse_ranges list = merged (parse_items (split list (b',' ∷ [])))

-- `selected`: the ranges are sorted, so a position before one is before all that follow.
unfoldable pub selected : List Rng → ℕ → Bool
selected [] p = false
selected (r ∷ ranges) p =
    let later = selected ranges p in
    if ltb p r.lo then false else if is_open r || leb p r.hi then true else later
