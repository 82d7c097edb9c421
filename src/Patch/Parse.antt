-- ===== src/Patch/Parse.antt =====
-- The parser of internal/applets/editors/patch/parse.go: `parseUnified` down to `parseRange`.
pub mod Ranges
pub mod Written
pub mod Bounds
pub mod RoundTrip
use mimixbox.Prelude.{
  ℕ, zero, suc, ◌+◌, ◌≡◌, refl, Bool, true, false, ◌&&◌, ◌||◌, List, [], ◌∷◌, ◌++◌, ◌==◌,
  if◌then◌else◌, Option, none, some, Bytes, codes, bytes_eq, drop, Result, ok, err,
}
use mimixbox.Golang.Int.{ℤ, pos}
use mimixbox.Golang.Strconv.{atoi}
use mimixbox.Golang.Strings.{has_prefix, cut_at, split, trim_space}
use mimixbox.Golang.Strings.Fields.{fields}
use mimixbox.Patch.Hunks.{
  Hunk, FilePatch, PatchError, malformed_header, hunk_before_header, bad_hunk_header, bad_number,
}

-- `TrimPrefix(s, prefix)` for a prefix of one byte.
unfoldable pub trim_prefix : ℕ → Bytes → Bytes
trim_prefix c [] = []
trim_prefix c (a ∷ s) = if a == c then s else a ∷ s

unfoldable pub number : Bytes → Result PatchError ℤ
unfolding atoi
number s = elim (atoi s) [ none ↦ err bad_number | some n ↦ ok n ]

-- The numbers of `"start,len"` or `"start"`.
unfoldable pub parse_range : Bytes → Result PatchError (ℤ × ℤ)
unfolding number cut_at
parse_range s = elim (cut_at b',' s) [
  | none ↦ elim (number s) [ err e ↦ err e | ok start ↦ ok (start, pos 1) ]
  | some (before, after) ↦ elim (number after) [
    | err e ↦ err e
    | ok len ↦ elim (number before) [ err e ↦ err e | ok start ↦ ok (start, len) ]
  ]
]

-- The hunk of a header `@@ -l,s +l,s @@`, without its lines.
unfoldable pub parse_header_fields : Bytes → List Bytes → Result PatchError Hunk
unfolding parse_range trim_prefix bytes_eq
parse_header_fields s (at ∷ old ∷ new ∷ _) = elim (bytes_eq at (codes "@@")) [
  | false ↦ err (bad_hunk_header s)
  | true ↦ elim (parse_range (trim_prefix b'-' old)) [
    | err e ↦ err e
    | ok o ↦ elim (parse_range (trim_prefix b'+' new)) [
      | err e ↦ err e
      | ok n ↦
          ok (record { old_start = o.0; old_len = o.1; new_start = n.0; new_len = n.1; lines = [] })
    ]
  ]
]
parse_header_fields s _ = err (bad_hunk_header s)

unfoldable pub parse_hunk_header : Bytes → Result PatchError Hunk
unfolding parse_header_fields fields
parse_hunk_header s = parse_header_fields s (fields s)

-- How a line stands in the body of a hunk: at its end, with the line to keep, or passed over.
pub data BodyLine : Type 0 where
  body_end : BodyLine
  body_text : Bytes → BodyLine
  body_skip : BodyLine

-- One round of the loop of `parseHunk`; `is_last` says that no line comes behind this one.
unfoldable pub body_line : Bool → Bytes → BodyLine
unfolding has_prefix
body_line true [] = body_end
body_line false [] = body_text (b' ' ∷ [])
body_line is_last (c ∷ text) =
    if has_prefix (c ∷ text) (codes "@@") || has_prefix (c ∷ text) (codes "--- ")
    then body_end
    else if c == b' ' || c == b'-' || c == b'+'
    then body_text (c ∷ text)
    else if c == b'\\'
    then body_skip
    else body_end

abbrev is_nil : List Bytes → Bool
is_nil [] = true
is_nil (_ ∷ _) = false

-- The lines of the hunk, and how many lines of the text they are.
unfoldable pub parse_body : List Bytes → List Bytes × ℕ
unfolding body_line
parse_body [] = ([], 0)
parse_body (l ∷ rest) =
    let later : List Bytes × ℕ = parse_body rest in
    elim (body_line (is_nil rest) l) [
      | body_end ↦ ([], 0)
      | body_text text ↦ (text ∷ later.0, suc later.1)
      | body_skip ↦ (later.0, suc later.1)
    ]

-- `cur.hunks = append(cur.hunks, h)`, where `cur` is the last patch.
unfoldable pub add_hunk : Hunk → List FilePatch → List FilePatch
add_hunk h [] = []
add_hunk h (p ∷ []) = record p { hunks = p.hunks ++ h ∷ [] } ∷ []
add_hunk h (p ∷ q ∷ patches) = p ∷ add_hunk h (q ∷ patches)

-- The file names of a header, whose second line is the next one.
unfoldable pub file_header : Bytes → List Bytes → Option FilePatch
unfolding has_prefix trim_space
file_header line [] = none
file_header line (next ∷ _) =
    if has_prefix next (codes "+++ ")
    then some (record {
      old_name = trim_space (drop 4 line);
      new_name = trim_space (drop 4 next);
      hunks = [];
    })
    else none

-- The loop of `parseUnified` at line `i`: the next `skip` lines are parsed already.
unfoldable pub parse_lines :
    ℕ → ℕ → List FilePatch → List Bytes → Result PatchError (List FilePatch)
unfolding has_prefix file_header parse_hunk_header parse_body add_hunk
parse_lines i skip patches [] = ok patches
parse_lines i (suc skip) patches (line ∷ lines) = parse_lines (suc i) skip patches lines
parse_lines i zero patches (line ∷ lines) = elim (has_prefix line (codes "--- ")) [
  | true ↦ elim (file_header line lines) [
    | none ↦ err (malformed_header (i + 1))
    | some p ↦ parse_lines (suc i) 1 (patches ++ p ∷ []) lines
  ]
  | false ↦ elim (has_prefix line (codes "@@")) [
    | false ↦ parse_lines (suc i) 0 patches lines
    | true ↦ elim patches [
      | [] ↦ err hunk_before_header
      | p ∷ others ↦ elim (parse_hunk_header line) [
        | err e ↦ err e
        | ok h ↦
            let body = parse_body lines in
            parse_lines (suc i) body.1 (add_hunk (record h { lines = body.0 }) (p ∷ others)) lines
      ]
    ]
  ]
]

unfoldable pub parse_unified : Bytes → Result PatchError (List FilePatch)
unfolding parse_lines split
parse_unified text = parse_lines 0 0 [] (split text (codes "\n"))
