-- ===== src/Tr/Tests.antt =====
-- Runs of tr, and the theorems about it at concrete inputs.
use mimixbox.Prelude.{
  ◌≡◌, ◌≢◌, refl, inl, true, false, List, [], ◌∷◌, none, arith, Bytes, codes, ok, err,
}
use mimixbox.Golang.Utf8.{string_of, runes}
use mimixbox.Tr.Sets.{reverse_range, out_of_fuel, expand_set}
use mimixbox.Tr.Sets.Quoting.{expand_set-total, escape_set, expand_set-escape_set}
use mimixbox.Tr.Processor.{
  Options, Cell, new_processor, process, decode_cells, membership, translate_cell, found_or_same,
  last_or, stream_transform,
}
use mimixbox.Tr.Processor.Stream.{contents, stream_transform-contents}
use mimixbox.Tr.Processor.Reference.{write_cells, transformed, kept, target}
use mimixbox.Tr.Command.{truncated, run, missing_operand_after}
use mimixbox.Tr.Command.Squeezing.{squeezed_runes, NoRepeat, squeeze_only-NoRepeat}
use mimixbox.Tr.Command.Laws.{run-transformed, delete_only-kept, translate_cell-target}

abbrev plain : Options
plain = record { delete = false; squeeze = false; complement = false; truncate_set1 = false }

abbrev squeezing : Options
squeezing = record { delete = false; squeeze = true; complement = false; truncate_set1 = false }

abbrev deleting : Options
deleting = record { delete = true; squeeze = false; complement = false; truncate_set1 = false }

-- The letter U+3042 in two reads.
abbrev halves : List Bytes
halves = (b'a' ∷ 0xE3 ∷ []) ∷ (0x81 ∷ []) ∷ []

upper_case :
    run plain (codes "a-z" ∷ codes "A-Z" ∷ []) (codes "ok, " ∷ []) (codes "go")
    ≡ ok (codes "OK, GO")
unfolding run expand_set stream_transform
upper_case = refl

one_operand : run plain (codes "a" ∷ []) [] [] ≡ err (missing_operand_after (codes "a"))
unfolding run
one_operand = refl

squeeze_runs : run squeezing (codes "ab" ∷ []) [] (codes "aabbccaa") ≡ ok (codes "abcca")
unfolding run expand_set stream_transform
squeeze_runs = refl

run-transformed_example :
    run plain (codes "ab" ∷ codes "x" ∷ []) halves (0x82 ∷ [])
    ≡ ok (
        write_cells [] (
          transformed
            (new_processor (truncated plain (codes "ab") (codes "x")) (codes "x") plain)
            (decode_cells 0 (contents halves (0x82 ∷ [])))))
unfolding expand_set
run-transformed_example =
    run-transformed plain (codes "ab") (codes "x") (codes "ab") (codes "x") halves (0x82 ∷ []) refl
      refl

expand_set-total_example : expand_set (codes "[:digit:]a-c\\101") ≢ err out_of_fuel
expand_set-total_example = expand_set-total (codes "[:digit:]a-c\\101")

expand_set-escape_set_example :
    expand_set (string_of (escape_set (codes "[a-\\"))) ≡ ok (codes "[a-\\")
expand_set-escape_set_example = expand_set-escape_set (codes "[a-\\") (omega arith)

stream_transform-contents_example :
    stream_transform (codes "a") (codes "x") plain halves (0x82 ∷ [])
    ≡ (process
        (new_processor (codes "a") (codes "x") plain)
        ([], none)
        (decode_cells 0 (contents halves (0x82 ∷ [])))).0
stream_transform-contents_example =
    stream_transform-contents (codes "a") (codes "x") plain halves (0x82 ∷ [])

-- Two U+3042 and a letter, in reads that cut the second.
squeeze_only-NoRepeat_example :
    (stream_transform
        (0x3042 ∷ [])
        []
        squeezing
        ((0xE3 ∷ 0x81 ∷ 0x82 ∷ 0xE3 ∷ []) ∷ [])
        (0x81 ∷ 0x82 ∷ b'b' ∷ [])
      ≡ string_of
          (squeezed_runes (membership (0x3042 ∷ []) false) none (0x3042 ∷ 0x3042 ∷ b'b' ∷ [])))
    × NoRepeat (membership (0x3042 ∷ []) false) none (
        runes (
          stream_transform
            (0x3042 ∷ [])
            []
            squeezing
            ((0xE3 ∷ 0x81 ∷ 0x82 ∷ 0xE3 ∷ []) ∷ [])
            (0x81 ∷ 0x82 ∷ b'b' ∷ [])))
squeeze_only-NoRepeat_example =
    squeeze_only-NoRepeat (0x3042 ∷ []) squeezing ((0xE3 ∷ 0x81 ∷ 0x82 ∷ 0xE3 ∷ []) ∷ [])
      (0x81 ∷ 0x82 ∷ b'b' ∷ []) (0x3042 ∷ 0x3042 ∷ b'b' ∷ []) refl refl
      (inl (omega arith), (inl (omega arith), (inl (omega arith), tt)))
      (unfold string_of contents in refl)

delete_only-kept_example :
    stream_transform (codes "a") [] deleting (codes "ab" ∷ []) (codes "ca")
    ≡ write_cells [] (
        kept
          (membership (codes "a") false)
          (decode_cells 0 (contents (codes "ab" ∷ []) (codes "ca"))))
delete_only-kept_example =
    delete_only-kept (codes "a") [] deleting (codes "ab" ∷ []) (codes "ca") refl refl

abbrev letter_b : Cell
letter_b = record { r = b'b'; raw = false }

translate_cell-target_example :
    translate_cell (new_processor (codes "abb") (codes "xy") plain) letter_b
    ≡ found_or_same letter_b (target (codes "abb") (codes "xy") (last_or 0 (codes "xy")) b'b' none)
translate_cell-target_example =
    translate_cell-target (codes "abb") (codes "xy") plain letter_b refl refl (cc)

class_and_range : expand_set (codes "[:digit:]a-c\\n") ≡ ok (codes "0123456789abc\n")
unfolding expand_set
class_and_range = refl

reversed : expand_set (codes "z-a") ≡ err (reverse_range b'z' b'a')
unfolding expand_set
reversed = refl

octal_escape : expand_set (codes "\\101x") ≡ ok (codes "Ax")
unfolding expand_set
octal_escape = refl
