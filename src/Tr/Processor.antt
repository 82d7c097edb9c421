-- ===== src/Tr/Processor.antt =====
-- The state machine of tr: `cell`, `processor` and their methods, and the reading loop
-- `streamTransform`, of internal/applets/textutils/tr/tr.go.
pub mod Reference
pub mod Stream
use mimixbox.Prelude.{
  ℕ, zero, suc, ◌+◌, ◌-◌, ◌≤◌, ◌≡◌, refl, Bool, true, false, not, ◌&&◌, ◌||◌, List, [], ◌∷◌, ◌++◌,
  Option, none, some, arith, ltb, leb, ◌==◌, if◌then◌else◌, Bytes, Runes, codes, length, take, drop,
  Result, ok, err, ◌>>=◌,
}
use mimixbox.Golang.Utf8.{rune_error, decode_rune, encode_rune, rune_start, full_rune}

pub record Options : Type 0 where
  pub delete : Bool
  pub squeeze : Bool
  pub complement : Bool
  pub truncate_set1 : Bool

-- One decoded input symbol: a rune, or an invalid byte, which is `raw`.
pub record Cell : Type 0 where
  pub r : ℕ
  pub raw : Bool

cell_of : ℕ → ℕ × ℕ → Cell
cell_of b (r, size) =
    if r == rune_error && size == 1
    then record { r = b; raw = true }
    else record { r = r; raw = false }

-- `decodeCells`. The first argument counts the bytes that `i += size` still passes over.
unfoldable pub decode_cells : ℕ → Bytes → List Cell
unfolding cell_of decode_rune
decode_cells skip [] = []
decode_cells (suc k) (b ∷ bytes) = decode_cells k bytes
decode_cells zero (b ∷ bytes) =
    cell_of b (decode_rune (b ∷ bytes)) ∷ decode_cells ((decode_rune (b ∷ bytes)).1 - 1) bytes

unfoldable pub append_cell : Bytes → Cell → Bytes
unfolding encode_rune
append_cell out c = if c.raw then out ++ c.r ∷ [] else out ++ encode_rune c.r

-- `mapped`: a translated byte stays one byte where the result fits.
unfoldable pub mapped : Cell → ℕ → Cell
mapped c to = record { r = to; raw = c.raw && leb to 0xFF }

unfoldable pub contains : Runes → ℕ → Bool
contains [] r = false
contains (s ∷ set) r = s == r || contains set r

-- `membership`: whether a set, or its complement, selects a rune.
unfoldable pub membership : Runes → Bool → ℕ → Bool
unfolding contains
membership set complement r = if complement then not (contains set r) else contains set r

-- A `map[rune]rune`: the entry that was written last stands first and is the one found.
abbrev TransMap : Type 0
TransMap = List (ℕ × ℕ)

unfoldable pub lookup : TransMap → ℕ → Option ℕ
lookup [] r = none
lookup ((k, v) ∷ m) r = if k == r then some v else lookup m r

unfoldable pub last_or : ℕ → Runes → ℕ
last_or d [] = d
last_or d (r ∷ rs) = last_or r rs

-- The loop that fills `transMap`: `set2` holds what is left of SET2, and `last` its last rune.
unfoldable pub fill_trans_map : Runes → Runes → ℕ → TransMap → TransMap
fill_trans_map [] set2 last m = m
fill_trans_map (r ∷ set1) [] last m = fill_trans_map set1 [] last ((r, last) ∷ m)
fill_trans_map (r ∷ set1) (to ∷ set2) last m = fill_trans_map set1 set2 last ((r, to) ∷ m)

-- The fields of `processor` that do not change. `in_set2` answers no where the source leaves it
-- unset, and there it is never called.
pub record Processor : Type 0 where
  pub opts : Options
  pub set2 : Runes
  pub in_set1 : ℕ → Bool
  pub in_set2 : ℕ → Bool
  pub translate : Bool
  pub trans_map : TransMap
  pub trans_comp : ℕ → Bool
  pub trans_last : ℕ

unfoldable pub is_empty : Runes → Bool
is_empty [] = true
is_empty (_ ∷ _) = false

abbrev unset : ℕ → Bool
unset r = false

unfoldable pub translating : Runes → Runes → Options → Processor → Processor
unfolding membership fill_trans_map last_or
translating set1 set2 opts p =
    if opts.complement
    then record p {
      translate = true;
      trans_comp = membership set1 false;
      trans_last = last_or 0 set2;
    }
    else record p { translate = true; trans_map = fill_trans_map set1 set2 (last_or 0 set2) [] }

unfoldable pub new_processor : Runes → Runes → Options → Processor
unfolding translating is_empty
new_processor set1 set2 opts =
    let base : Processor = record {
      opts = opts;
      set2 = set2;
      in_set1 = membership set1 opts.complement;
      in_set2 = unset;
      translate = false;
      trans_map = [];
      trans_comp = unset;
      trans_last = 0;
    } in
    let both : Processor = record base { in_set2 = membership set2 false } in
    let start = if opts.squeeze then both else base in
    if opts.delete
    then (if opts.squeeze && not (is_empty set2) then both else base)
    else if opts.squeeze && is_empty set2
    then base
    else if is_empty set2
    then start
    else translating set1 set2 opts start

-- `squeezeEmit`; `prev` holds the last rune written, if `havePrev`.
abbrev pub repeats : Option ℕ → ℕ → Bool
repeats none r = false
repeats (some prev) r = r == prev

abbrev pub State : Type 0
State = Bytes × Option ℕ

squeeze_emit : State → Cell → (ℕ → Bool) → State
unfolding append_cell
squeeze_emit (out, prev) c selected =
    if repeats prev c.r && selected c.r then (out, prev) else (append_cell out c, some c.r)

unfoldable pub found_or_same : Cell → Option ℕ → Cell
found_or_same c none = c
found_or_same c (some to) = mapped c to

unfoldable pub translate_cell : Processor → Cell → Cell
unfolding found_or_same lookup mapped
translate_cell p c =
    if not p.translate
    then c
    else if p.opts.complement
    then (if p.trans_comp c.r then c else mapped c p.trans_last)
    else found_or_same c (lookup p.trans_map c.r)

-- The body of the loop of `process`.
unfoldable pub process_cell : Processor → State → Cell → State
unfolding squeeze_emit translate_cell is_empty
process_cell p (out, prev) c =
    if p.opts.delete
    then (if p.in_set1 c.r
        then (out, prev)
        else if p.opts.squeeze && not (is_empty p.set2)
        then squeeze_emit (out, prev) c p.in_set2
        else (append_cell out c, prev))
    else if p.opts.squeeze && is_empty p.set2
    then squeeze_emit (out, prev) c p.in_set1
    else if p.opts.squeeze
    then squeeze_emit (out, prev) (translate_cell p c) p.in_set2
    else (append_cell out (translate_cell p c), prev)

unfoldable pub process : Processor → State → List Cell → State
process p s [] = s
process p s (c ∷ cells) = process p (process_cell p s c) cells

-- `completeRuneLen`: round `i` looks at the byte `i` places before the end.
starts : Bytes → Bool
unfolding rune_start
starts [] = false
starts (x ∷ _) = rune_start x

complete_loop : ℕ → ℕ → Bytes → ℕ
unfolding starts full_rune
complete_loop zero i b = length b
complete_loop (suc rounds) i b =
    let start = length b - i in
    let tail = drop start b in
    let more = complete_loop rounds (i + 1) b in
    if ltb (length b) i
    then length b
    else if starts tail
    then (if full_rune tail then length b else start)
    else more

unfoldable pub complete_rune_len : Bytes → ℕ
unfolding complete_loop
complete_rune_len b = complete_loop 4 1 b

-- `streamTransform` over a reader that gives `reads` without an error and `last` with `io.EOF`.
-- The chunk of a round is the carried bytes and the bytes read.
stream : Processor → Bytes → State → List Bytes → Bytes → Bytes
unfolding process process_cell decode_cells complete_rune_len
stream p carry s [] last = (process p s (decode_cells 0 (carry ++ last))).0
stream p carry s (buf ∷ reads) last =
    let chunk = carry ++ buf in
    let n = complete_rune_len chunk in
    stream p (drop n chunk) (process p s (decode_cells 0 (take n chunk))) reads last

unfoldable pub stream_transform : Runes → Runes → Options → List Bytes → Bytes → Bytes
unfolding stream new_processor
stream_transform set1 set2 opts reads last =
    stream (new_processor set1 set2 opts) [] ([], none) reads last
