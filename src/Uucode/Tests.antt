-- ===== src/Uucode/Tests.antt =====
-- Runs of uuencode and uudecode, and the theorem about them at a concrete input.
use mimixbox.Prelude.{◌∷◌, [], false, none, ◌>>=◌, ◌≡◌, refl, arith, codes, bytes_eq, ok, err}
use mimixbox.Golang.Strings.{trim_space, cut_at}
use mimixbox.Uucode.Encode.{write_uu_line, write_uu, write_base64}
use mimixbox.Uucode.Decode.{no_begin_line, decode}
use mimixbox.Uucode.Command.{run_uuencode, run_uudecode, Written, GoesTo, run_uudecode-run_uuencode}
use mimixbox.Uucode.Decode.RoundTrip.{decode-write_uu}

cat_line : write_uu_line (codes "Cat") ≡ codes "#0V%T\n"
unfolding write_uu_line
cat_line = refl

base64_file : write_base64 (codes "n") (codes "Cat!") ≡ codes "begin-base64 644 n\nQ2F0IQ==\n====\n"
unfolding write_base64
base64_file = refl

base64_back : decode (codes "begin-base64 644 n\nQ2F0IQ==\n====\n") ≡ ok (codes "n", codes "Cat!")
unfolding decode bytes_eq trim_space cut_at
base64_back = refl

no_header : decode (codes "abc\n") ≡ err no_begin_line
unfolding decode
no_header = refl

decode-write_uu_example :
    decode (write_uu (codes "n") (codes "Cat!")) ≡ ok (codes "n", codes "Cat!")
decode-write_uu_example =
    decode-write_uu (codes "n") (codes "Cat!") (cc) ((omega arith, omega arith), tt)
      (omega arith, (omega arith, (omega arith, (omega arith, tt))))

run_uudecode-run_uuencode_example :
    (place : Written) × ((run_uuencode (λ file. none) false (codes "n" ∷ []) (codes "Cat!")
        >>= run_uudecode (λ file. none) (codes "-") [])
      ≡ ok place)
    × GoesTo (codes "Cat!") (codes "-") (codes "n") place
run_uudecode-run_uuencode_example =
    run_uudecode-run_uuencode (λ file. none) (codes "-") (codes "n") (codes "Cat!") (cc)
      ((omega arith, omega arith), tt)
      (omega arith, (omega arith, (omega arith, (omega arith, tt))))
