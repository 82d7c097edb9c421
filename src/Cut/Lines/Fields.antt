-- ===== src/Cut/Lines/Fields.antt =====
-- `cutFields` and `cutBytes` of internal/applets/shellutils/cut/cut.go on fields and whole lines.
use mimixbox.Prelude.{
  ℕ, suc, ◌+◌, ◌≤◌, ◌≡◌, refl, ◌∙◌, sym, ap, inl, inr, Bool-cases, true, false, List, [], ◌∷◌, ◌++◌,
  some, arith, Bytes, append_assoc, append-nil, zero, ◌-◌, ◌<◌, if◌then◌else◌, map, map-append,
  get_or, length, take, length-take,
}
use mimixbox.Prelude.Indices.{take-length}
use mimixbox.Golang.Strings.{contains, join}
use mimixbox.Golang.Strings.Split.{join-split}
use mimixbox.Golang.Strings.Explode.{split_any}
use mimixbox.Cut.Lines.{Options, write_byte, keep_pos, selected_fields, cut_fields, cut_bytes}
use mimixbox.Cut.Lines.Runs.{runs, runs_opened, cut_bytes-runs}

-- All positions from `p` on are kept.
abbrev pub KeepsAll : Options → Type 0
KeepsAll opts = (p : ℕ) → 1 ≤ p → keep_pos opts p ≡ true

cut_fields_delimited :
    (opts : Options) (line : Bytes)
    → contains line opts.delimiter ≡ true
    → cut_fields opts line
      ≡ some (join (selected_fields opts 1 (split_any line opts.delimiter)) opts.output_delimiter)
unfolding cut_fields
cut_fields_delimited opts line h = rw h refl

cut_fields_undelimited :
    (opts : Options) (line : Bytes)
    → contains line opts.delimiter ≡ false
    → opts.only_delimited ≡ false
    → cut_fields opts line ≡ some line
unfolding cut_fields
cut_fields_undelimited opts line h k = rw (h, k) refl

selected_fields-KeepsAll :
    (opts : Options) (p : ℕ) (fields : List Bytes)
    → KeepsAll opts
    → selected_fields opts (suc p) fields ≡ fields
unfolding selected_fields
selected_fields-KeepsAll opts p [] keeps = refl
selected_fields-KeepsAll opts p (f ∷ fields) keeps = rw (keeps (suc p) (omega arith)) (
    ap (λ r. f ∷ r)
      (ap (λ q. selected_fields opts q fields) (let e : suc p + 1 ≡ suc (suc p) = omega arith in e)
        ∙ selected_fields-KeepsAll opts (suc p) fields keeps))

-- cut -f with all fields kept and the delimiters equal and not empty gives back each line.
pub cut_fields-KeepsAll :
    (opts : Options) (b : ℕ) (sep line : Bytes)
    → KeepsAll opts
    → opts.only_delimited ≡ false
    → opts.delimiter ≡ b ∷ sep
    → opts.output_delimiter ≡ b ∷ sep
    → cut_fields opts line ≡ some line
cut_fields-KeepsAll opts b sep line keeps unsuppressed from to =
    elim (Bool-cases (contains line opts.delimiter)) [
      | inr h ↦ cut_fields_undelimited opts line h unsuppressed
      | inl h ↦
          cut_fields_delimited opts line h
          ∙ ap some (
              ap (λ fs. join fs opts.output_delimiter)
                (selected_fields-KeepsAll opts 0 (split_any line opts.delimiter) keeps)
              ∙ ap (join (split_any line opts.delimiter)) to
              ∙ ap (λ d. join (split_any line d) (b ∷ sep)) from
              ∙ unfold split_any in join-split b sep line)
    ]

runs-KeepsAll :
    (opts : Options) (p c : ℕ) (cur units : List ℕ)
    → KeepsAll opts
    → runs opts (suc p) (c ∷ cur) units ≡ ((c ∷ cur) ++ units) ∷ []
unfolding runs
runs-KeepsAll opts p c cur [] keeps = rw append-nil refl
runs-KeepsAll opts p c cur (u ∷ units) keeps = rw (keeps (suc p) (omega arith)) (
    ap (λ q. runs opts q (c ∷ cur ++ u ∷ []) units)
      (let e : suc p + 1 ≡ suc (suc p) = omega arith in e)
    ∙ runs-KeepsAll opts (suc p) c (cur ++ u ∷ []) units keeps
    ∙ ap (λ r. r ∷ []) (append_assoc (c ∷ cur) (u ∷ []) units))

-- cut -b with all bytes kept gives back each line, whatever the output delimiter is.
pub cut_bytes-KeepsAll :
    (opts : Options) (line : Bytes) → KeepsAll opts → cut_bytes opts line ≡ line
cut_bytes-KeepsAll opts [] keeps = cut_bytes-runs opts [] ∙ unfold runs join in refl
cut_bytes-KeepsAll opts (c ∷ line) keeps =
    cut_bytes-runs opts (c ∷ line)
    ∙ ap (λ rs. join rs opts.output_delimiter)
        (runs_opened write_byte opts 1 c line (keeps 1 (omega arith))
          ∙ runs-KeepsAll opts 1 c [] line keeps)
    ∙ unfold join in refl

-- The kept positions up to `n`.
pub kept_positions : Options → ℕ → List ℕ
kept_positions opts zero = []
kept_positions opts (suc n) =
    let before = kept_positions opts n in
    if keep_pos opts (suc n) then before ++ suc n ∷ [] else before

-- The fields at these positions, counted from 1.
pub fields_at : List Bytes → List ℕ → List Bytes
fields_at fields positions = map (λ p. get_or fields (p - 1) []) positions

abbrev no_fields : List Bytes
no_fields = []

selected_fields-append :
    (opts : Options) (p : ℕ) (fields : List Bytes) (f : Bytes)
    → selected_fields opts p (fields ++ f ∷ [])
      ≡ selected_fields opts p fields ++ (if keep_pos opts (p + length fields) then f ∷ [] else [])
unfolding selected_fields
selected_fields-append opts p [] f =
    ap (λ q. if keep_pos opts q then f ∷ [] else [])
      (let e : p ≡ p + length no_fields = omega arith in e)
selected_fields-append opts p (g ∷ fields) f =
    let onward =
      selected_fields-append opts (p + 1) fields f
      ∙ ap (λ q. selected_fields opts (p + 1) fields ++ (if keep_pos opts q then f ∷ [] else []))
          (let e : p + 1 + length fields ≡ p + length (g ∷ fields) = omega arith in e) in
    elim (Bool-cases (keep_pos opts p)) [
      | inl k ↦ rw k (ap (λ r. g ∷ r) onward)
      | inr k ↦ rw k onward
    ]

take-get_or :
    (n : ℕ) (fields : List Bytes)
    → n < length fields
    → take (suc n) fields ≡ take n fields ++ get_or fields n [] ∷ []
take-get_or n [] h = absurd (omega arith)
take-get_or zero (f ∷ fields) h = refl
take-get_or (suc n) (f ∷ fields) h = ap (λ r. f ∷ r) (take-get_or n fields (omega arith))

selected_fields-take :
    (opts : Options) (fields : List Bytes) (n : ℕ)
    → n ≤ length fields
    → selected_fields opts 1 (take n fields) ≡ fields_at fields (kept_positions opts n)
unfolding kept_positions fields_at
selected_fields-take opts fields zero h = unfold selected_fields in refl
selected_fields-take opts fields (suc n) h =
    ap (selected_fields opts 1) (take-get_or n fields (omega arith))
    ∙ selected_fields-append opts 1 (take n fields) (get_or fields n [])
    ∙ ap
        (λ q.
          selected_fields opts 1 (take n fields)
          ++ (if keep_pos opts q then get_or fields n [] ∷ [] else []))
        (let e : 1 + length (take n fields) ≡ suc n = omega (arith, length-take n fields) in e)
    ∙ ap (λ l. l ++ (if keep_pos opts (suc n) then get_or fields n [] ∷ [] else []))
        (selected_fields-take opts fields n (omega arith))
    ∙ last_kept
  where
    last_kept :
        fields_at fields (kept_positions opts n)
          ++ (if keep_pos opts (suc n) then get_or fields n [] ∷ [] else [])
        ≡ fields_at fields (
            if keep_pos opts (suc n)
            then kept_positions opts n ++ suc n ∷ []
            else kept_positions opts n)
    last_kept = elim (Bool-cases (keep_pos opts (suc n))) [
      | inl k ↦ rw k (
          ap (λ m. fields_at fields (kept_positions opts n) ++ get_or fields m [] ∷ [])
            (let e : n ≡ suc n - 1 = omega arith in e)
          ∙ sym (map-append (λ p. get_or fields (p - 1) []) (kept_positions opts n) (suc n ∷ [])))
      | inr k ↦ rw k (append-nil (fields_at fields (kept_positions opts n)))
    ]

-- For a line with the delimiter, cut -f writes the fields at the positions that LIST keeps, in the
-- order of the line and each once, joined by the output delimiter.
pub cut_fields-kept_positions :
    (opts : Options) (line : Bytes)
    → contains line opts.delimiter ≡ true
    → cut_fields opts line
      ≡ some (
          join
            (fields_at
              (split_any line opts.delimiter)
              (kept_positions opts (length (split_any line opts.delimiter))))
            opts.output_delimiter)
cut_fields-kept_positions opts line h =
    cut_fields_delimited opts line h
    ∙ ap (λ fs. some (join fs opts.output_delimiter))
        (ap (selected_fields opts 1) (sym (take-length (length fields) fields (omega arith)))
          ∙ selected_fields-take opts fields (length fields) (omega arith))
  where
    fields : List Bytes
    fields = split_any line opts.delimiter
