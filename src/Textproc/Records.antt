-- ===== src/Textproc/Records.antt =====
-- `Reverse`, `HeadRecords`, `TailRecords`, `HeadBytes` and `TailBytes` of
-- internal/textproc/textproc.go. Readers give their bytes without an error.
pub mod Reversal
pub mod HeadTail
use mimixbox.Prelude.{
  ℕ, zero, suc, ◌+◌, ◌-◌, ◌≡◌, refl, Bool, true, false, ◌&&◌, ◌||◌, List, [], ◌∷◌, ◌++◌, arith, ltb,
  ◌==◌, if◌then◌else◌, Option, none, some, Bytes, length, take, drop,
}
use mimixbox.Golang.Strings.{has_prefix}

-- `ReadString(delim)`: the bytes up to and with the first `delim`, or all of them, and the rest.
unfoldable pub read_string : ℕ → Bytes → Bytes × Bytes
read_string delim [] = ([], [])
read_string delim (c ∷ s) =
    let later : Bytes × Bytes = (c ∷ (read_string delim s).0, (read_string delim s).1) in
    if c == delim then (c ∷ [], s) else later

-- The loop of `HeadRecords`. At the end of the input it returns early; the rounds left would read
-- and write nothing.
unfoldable pub head_records : ℕ → ℕ → Bytes → Bytes
unfolding read_string
head_records delim zero s = []
head_records delim (suc n) s =
    (read_string delim s).0 ++ head_records delim n (read_string delim s).1

-- One record put into the ring of `TailRecords`.
unfoldable pub push : ℕ → List Bytes → Bytes → List Bytes
push n ring r = if ltb (length ring) n then ring ++ r ∷ [] else drop 1 ring ++ r ∷ []

-- The loop of `TailRecords`; every round reads a byte at least, so as many rounds as there are
-- bytes are enough.
unfoldable pub tail_loop : ℕ → ℕ → ℕ → List Bytes → Bytes → List Bytes
unfolding push read_string
tail_loop rounds n delim ring [] = ring
tail_loop zero n delim ring (c ∷ s) = ring
tail_loop (suc rounds) n delim ring (c ∷ s) =
    tail_loop rounds n delim (push n ring (read_string delim (c ∷ s)).0)
      (read_string delim (c ∷ s)).1

unfoldable pub concat : List Bytes → Bytes
concat [] = []
concat (r ∷ records) = r ++ concat records

-- `none` is the panic of `make([]string, 0, n)` where `n` strings are more than the runtime can
-- allocate, which is `capacity`.
unfoldable pub tail_records : ℕ → ℕ → ℕ → Bytes → Option Bytes
unfolding tail_loop concat
tail_records capacity delim zero s = some []
tail_records capacity delim (suc n) s =
    if ltb capacity (suc n) then none else some (concat (tail_loop (length s) (suc n) delim [] s))

unfoldable pub head_bytes : ℕ → Bytes → Bytes
head_bytes n s = take n s

unfoldable pub tail_bytes : ℕ → Bytes → Bytes
tail_bytes n s = if ltb (length s) n then s else drop (length s - n) s

-- The loop of `Reverse` at a separator that is not empty: `skip` bytes of a separator are still to
-- be taken, `cur` is the record so far, and the records come in order.
unfoldable pub records_from : Bytes → ℕ → Bytes → Bytes → List Bytes
unfolding has_prefix
records_from sep skip [] [] = []
records_from sep skip (c ∷ cur) [] = (c ∷ cur) ∷ []
records_from sep (suc zero) cur (a ∷ s) = (cur ++ a ∷ []) ∷ records_from sep 0 [] s
records_from sep (suc (suc skip)) cur (a ∷ s) = records_from sep (suc skip) (cur ++ a ∷ []) s
records_from sep zero cur (a ∷ s) = elim (has_prefix (a ∷ s) sep) [
  | true ↦ elim (length sep - 1) [
    | zero ↦ (cur ++ a ∷ []) ∷ records_from sep 0 [] s
    | suc more ↦ records_from sep (suc more) (cur ++ a ∷ []) s
  ]
  | false ↦ records_from sep 0 (cur ++ a ∷ []) s
]

-- The records written from the last to the first.
unfoldable pub backwards : List Bytes → Bytes
backwards [] = []
backwards (r ∷ records) = backwards records ++ r

unfoldable pub reverse_records : Bytes → Bytes → Bytes
unfolding records_from backwards
reverse_records text [] = text
reverse_records text (b ∷ sep) = backwards (records_from (b ∷ sep) 0 [] text)
