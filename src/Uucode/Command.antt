-- ===== src/Uucode/Command.antt =====
-- `runUuencode` and `runUudecode` of internal/applets/textutils/uucode/uucode.go, behind the parsing
-- of their options. `os.Open` with what it reads is the parameter `open_file`; writing the decoded
-- file does not fail.
use mimixbox.Prelude.{
  ◌≡◌, ◌≢◌, sym, subst, ap, inl, inr, Bool, Bool-cases, bytes_eq_refl, bytes_eq→eq, true, false,
  List, [], ◌∷◌, Option, none, some, All, if◌then◌else◌, Bytes, bytes_eq, codes, Result, ok, err,
  ◌>>=◌,
}
use mimixbox.Golang.Strings.{AllInk}
use mimixbox.Uucode.Encode.{write_uu, write_base64}
use mimixbox.Uucode.Decode.{UuError, decode}
use mimixbox.Uucode.Decode.Groups.{IsByte}
use mimixbox.Uucode.Decode.RoundTrip.{decode-write_uu}

pub data RunError : Type 0 where
  usage : RunError
  cannot_open : Bytes → RunError
  bad_input : UuError → RunError

-- Where the decoded bytes go.
pub data Written : Type 0 where
  to_output : Bytes → Written
  to_file : Bytes → Bytes → Written

unfoldable pub encoded : Bool → Bytes → Bytes → Bytes
unfolding write_uu write_base64
encoded use_base64 name text = if use_base64 then write_base64 name text else write_uu name text

opened : Bytes → Option Bytes → Result RunError Bytes
opened name none = err (cannot_open name)
opened name (some text) = ok text

decoded : Result UuError (Bytes × Bytes) → Result RunError (Bytes × Bytes)
decoded (ok r) = ok r
decoded (err e) = err (bad_input e)

is_empty : Bytes → Bool
is_empty [] = true
is_empty (_ ∷ _) = false

-- The destination: -o, or the name in the header; "-" is standard output.
unfoldable pub written_to : Bytes → Bytes × Bytes → Written
unfolding is_empty
written_to output (name, text) =
    let dest = if is_empty output then name else output in
    if bytes_eq dest (codes "-") then to_output text else to_file dest text

module _ (open_file : Bytes → Option Bytes) where
  unfoldable pub run_uuencode : Bool → List Bytes → Bytes → Result RunError Bytes
  unfolding encoded opened
  run_uuencode use_base64 (name ∷ []) input = ok (encoded use_base64 name input)
  run_uuencode use_base64 (file ∷ name ∷ []) input = do
    text ← opened file (open_file file)
    ok (encoded use_base64 name text)
  run_uuencode use_base64 [] input = err usage
  run_uuencode use_base64 (_ ∷ _ ∷ _ ∷ _) input = err usage

  -- What is decoded: standard input, or the first operand unless it is "-".
  source : List Bytes → Bytes → Result RunError Bytes
  unfolding opened
  source [] input = ok input
  source (file ∷ _) input =
      if bytes_eq file (codes "-") then ok input else opened file (open_file file)

  unfoldable pub run_uudecode : Bytes → List Bytes → Bytes → Result RunError Written
  unfolding source decoded written_to decode
  run_uudecode output operands input = do
    text ← source operands input
    r ← decoded (decode text)
    ok (written_to output r)

-- Where a text goes by -o and the name in the header: to the name that -o gives, without -o to the
-- name in the header, and "-" is the standard output.
pub data GoesTo (text : Bytes) : Bytes → Bytes → Written → Type 0 where
  option_output : {name : Bytes} → GoesTo text (codes "-") name (to_output text)
  option_file :
      {output name : Bytes}
      → output ≢ []
      → output ≢ codes "-"
      → GoesTo text output name (to_file output text)
  header_output : GoesTo text [] (codes "-") (to_output text)
  header_file : {name : Bytes} → name ≢ codes "-" → GoesTo text [] name (to_file name text)

bytes_ne : (x y : Bytes) → bytes_eq x y ≡ false → x ≢ y
bytes_ne x y h e =
    let same = bytes_eq_refl y in
    let differ : bytes_eq y y ≡ false = subst (λ z. bytes_eq z y ≡ false) e h in absurd cc

option_output_at :
    {dest name text : Bytes} → dest ≡ codes "-" → GoesTo text dest name (to_output text)
option_output_at {dest} {name} {text} e =
    subst (λ d. GoesTo text d name (to_output text)) (sym e) option_output

header_output_at : {name text : Bytes} → name ≡ codes "-" → GoesTo text [] name (to_output text)
header_output_at {name} {text} e =
    subst (λ n. GoesTo text [] n (to_output text)) (sym e) header_output

written_to-GoesTo :
    (output name text : Bytes) → GoesTo text output name (written_to output (name, text))
unfolding written_to
written_to-GoesTo [] name text = elim (Bool-cases (bytes_eq name (codes "-"))) [
  | inl h ↦ rw h (header_output_at (bytes_eq→eq name (codes "-") h))
  | inr h ↦ rw h (header_file (bytes_ne name (codes "-") h))
]
written_to-GoesTo (c ∷ output) name text = elim (Bool-cases (bytes_eq (c ∷ output) (codes "-"))) [
  | inl h ↦ rw h (option_output_at (bytes_eq→eq (c ∷ output) (codes "-") h))
  | inr h ↦ rw h (option_file (cc) (bytes_ne (c ∷ output) (codes "-") h))
]

-- For a name that is not empty, of ASCII characters past the blank, what uuencode makes of its
-- standard input is accepted by uudecode, and the same bytes are written: with -o to the file that it
-- names, without -o to the file of the name in the header, and to the standard output if that
-- destination is "-".
pub run_uudecode-run_uuencode :
    (open_file : Bytes → Option Bytes) (output name input : Bytes)
    → name ≢ []
    → AllInk name
    → All IsByte input
    → (place : Written) × ((run_uuencode open_file false (name ∷ []) input
          >>= run_uudecode open_file output [])
        ≡ ok place)
      × GoesTo input output name place
unfolding run_uuencode encoded run_uudecode source decoded
run_uudecode-run_uuencode open_file output name input some_name ink bytes = (
  written_to output (name, input),
  ap (λ r. decoded r >>= λ d. ok (written_to output d))
      (decode-write_uu name input some_name ink bytes),
  written_to-GoesTo output name input,
)
