-- ===== src/Tr/Command.antt =====
-- `Run` of internal/applets/textutils/tr/tr.go, behind the parsing of its options: the checks of
-- the operands, the two sets, and the transformation of standard input. The output is what
-- reaches standard output; an error is the message on standard error.
pub mod Laws
pub mod Squeezing
use mimixbox.Prelude.{
  ℕ, Bool, true, false, not, ◌&&◌, List, [], ◌∷◌, none, some, ltb, if◌then◌else◌, Bytes, Runes,
  length, take, Result, ok, err, ◌>>=◌, ◌>>◌,
}
use mimixbox.Tr.Sets.{SetError, expand_set}
use mimixbox.Tr.Processor.{Options, stream_transform}

pub data TrError : Type 0 where
  missing_operand : TrError
  missing_operand_after : Bytes → TrError
  extra_operand : Bytes → TrError
  bad_set : SetError → TrError

-- `validate`, clause by clause on the number of operands.
unfoldable pub validate : Options → List Bytes → Result TrError (Unit {0})
validate opts [] = err missing_operand
validate opts (a ∷ []) =
    if not opts.delete && not opts.squeeze then err (missing_operand_after a) else ok tt
validate opts (a ∷ b ∷ []) = ok tt
validate opts (a ∷ b ∷ c ∷ rest) = err (extra_operand c)

-- A failed expansion is reported as such.
unfoldable pub report : Result SetError Runes → Result TrError Runes
report (ok set) = ok set
report (err e) = err (bad_set e)

unfoldable pub expanded : Bytes → Result TrError Runes
unfolding report
expanded spec = report (expand_set spec)

set2_of : List Bytes → Result TrError Runes
set2_of [] = ok []
set2_of (spec ∷ _) = expanded spec

-- SET1 under --truncate-set1.
unfoldable pub truncated : Options → Runes → Runes → Runes
truncated opts set1 set2 =
    if opts.truncate_set1 && ltb 0 (length set2) && ltb (length set2) (length set1)
    then take (length set2) set1
    else set1

transform : Options → List Bytes → List Bytes → Bytes → Result TrError Bytes
transform opts [] reads last = err missing_operand
transform opts (spec ∷ rest) reads last = do
  set1 ← expanded spec
  set2 ← set2_of rest
  ok (stream_transform (truncated opts set1 set2) set2 opts reads last)

unfoldable pub run : Options → List Bytes → List Bytes → Bytes → Result TrError Bytes
unfolding validate transform expanded set2_of truncated
run opts operands reads last = do validate opts operands; transform opts operands reads last
