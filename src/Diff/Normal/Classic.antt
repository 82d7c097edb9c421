-- ===== src/Diff/Normal/Classic.antt =====
-- What the classic output of internal/applets/editors/diff/format.go is to be, by the numbers of the
-- lines and the kinds of the operations alone.
use mimixbox.Prelude.{
  ℕ, zero, suc, ◌+◌, List, [], ◌∷◌, ◌++◌, ◌==◌, if◌then◌else◌, Bytes, codes, take, drop,
}
use mimixbox.Golang.Strconv.{format_nat}
use mimixbox.Diff.Lines.{Op, op_equal, op_delete, op_insert}

-- The numbers, from 1, of the `n` lines from index `first` on.
unfoldable pub span : ℕ → ℕ → Bytes
span first n =
    if n == 1
    then format_nat (first + 1)
    else format_nat (first + 1) ++ (codes "," ++ format_nat (first + n))

unfoldable pub prefixed : Bytes → List Bytes → Bytes
prefixed prefix [] = []
prefixed prefix (l ∷ lines) = prefix ++ (l ++ (codes "\n" ++ prefixed prefix lines))

-- The change of the `n` lines of `a` from index `i` on into the `m` lines of `b` from index `j` on.
unfoldable pub change_text : List Bytes → List Bytes → ℕ → ℕ → ℕ → ℕ → Bytes
unfolding span prefixed
change_text a b i zero j zero = []
change_text a b i (suc n) j zero =
    span i (suc n)
    ++ (codes "d"
        ++ (format_nat j ++ (codes "\n" ++ prefixed (codes "< ") (take (suc n) (drop i a)))))
change_text a b i zero j (suc m) =
    format_nat i
    ++ (codes "a"
        ++ (span j (suc m) ++ (codes "\n" ++ prefixed (codes "> ") (take (suc m) (drop j b)))))
change_text a b i (suc n) j (suc m) =
    span i (suc n)
    ++ (codes "c"
        ++ (span j (suc m)
            ++ (codes "\n"
                ++ (prefixed (codes "< ") (take (suc n) (drop i a))
                    ++ (codes "---\n" ++ prefixed (codes "> ") (take (suc m) (drop j b)))))))

-- The text of a script: `n` lines from `i` on were deleted and `m` lines from `j` on inserted since
-- the last kept line. Only the kinds of the operations are read.
unfoldable pub classic : List Bytes → List Bytes → ℕ → ℕ → ℕ → ℕ → List Op → Bytes
unfolding change_text
classic a b i n j m [] = change_text a b i n j m
classic a b i n j m (o ∷ ops) = elim o.kind [
  | op_delete ↦ classic a b i (suc n) j m ops
  | op_equal ↦ change_text a b i n j m ++ classic a b (suc (i + n)) 0 (suc (j + m)) 0 ops
  | op_insert ↦ classic a b i n j (suc m) ops
]
