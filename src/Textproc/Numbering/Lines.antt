-- ===== src/Textproc/Numbering/Lines.antt =====
-- What nl and cat write where all lines are numbered or none, and the width of a number.
use mimixbox.Prelude.{
  ℕ, zero, suc, ◌-◌, ◌≤◌, ◌≡◌, refl, ◌∙◌, ap, Bool-cases, inl, inr, true, false, List, [], ◌∷◌,
  ◌++◌, arith, ltb, ◌==◌, if◌then◌else◌, max, Bytes, length, length-append,
}
use mimixbox.Golang.Int.{ℤ, pos, negsuc, ◌+ℤ◌, wrap}
use mimixbox.Golang.Strconv.{format_nat, itoa}
use mimixbox.Textproc.Records.{read_string}
use mimixbox.Textproc.Records.HeadTail.{
  records_in, all_records, read_string-append, read_string-shorter,
}
use mimixbox.Textproc.Numbering.{
  Numberer, number_none, number_all, NumberJustify, justify_right, justify_right_zero, justify_left,
  Place, section_body, numbered, style_for, numbered_by, is_blank, repeat, format, format_by,
  zero_padded, max_width, run_with, emit_line, body_and_end, line_or_section, write_chunk,
  write_loop, write_to,
}

length-repeat : (c k : ℕ) → length (repeat c k) ≡ k
unfolding repeat
length-repeat c zero = refl
length-repeat c (suc k) = omega (arith, length-repeat c k)

length-zero_padded : (w : ℕ) (num : ℤ) → length (zero_padded w num) ≡ max w (length (itoa num))
unfolding zero_padded itoa
length-zero_padded w (pos a) = omega (
  arith,
  length-append (repeat b'0' (w - length (format_nat a))) (format_nat a),
  length-repeat b'0' (w - length (format_nat a)),
)
length-zero_padded w (negsuc a) = omega (
  arith,
  length-append (repeat b'0' (w - suc (length (format_nat (suc a))))) (format_nat (suc a)),
  length-repeat b'0' (w - suc (length (format_nat (suc a)))),
)

length-format_by :
    (j : NumberJustify) (w : ℕ) (num : ℤ) → length (format_by j w num) ≡ max w (length (itoa num))
unfolding format_by
length-format_by justify_right_zero w num = length-zero_padded w num
length-format_by justify_left w num = omega (
  arith,
  length-append (itoa num) (repeat b' ' (w - length (itoa num))),
  length-repeat b' ' (w - length (itoa num)),
)
length-format_by justify_right w num = omega (
  arith,
  length-append (repeat b' ' (w - length (itoa num))) (itoa num),
  length-repeat b' ' (w - length (itoa num)),
)

-- With a width that `fmt` takes, up to 1,000,000, a number fills its field, or overflows it where it
-- is longer, in all three styles.
pub length-format :
    (n : Numberer) (num : ℤ)
    → n.width ≤ max_width
    → length (format n num) ≡ max n.width (length (itoa num))
unfolding format
length-format n num h =
    let narrow : ltb max_width n.width ≡ false = ground arith in
    rw narrow (length-format_by n.justify n.width num)

body_and_end-append : (s : Bytes) → (body_and_end s).0 ++ (body_and_end s).1 ≡ s
unfolding body_and_end
body_and_end-append [] = refl
body_and_end-append (c ∷ []) = elim (Bool-cases (c == b'\n')) [
  | inl h ↦ rw h refl
  | inr h ↦ rw h refl
]
body_and_end-append (c ∷ d ∷ s) = ap (λ r. c ∷ r) (body_and_end-append (d ∷ s))

-- The lines, each behind its number and the separator.
unfoldable pub labelled : Numberer → ℤ → List Bytes → Bytes
labelled n num [] = []
labelled n num (r ∷ records) =
    (format n num ++ (n.separator ++ r)) ++ labelled n (wrap (num +ℤ n.increment)) records

module _ (n : Numberer) (unsectioned : n.sections ≡ false) where
  write_chunk-emit :
      (chunk : Bytes) (p : Place)
      → write_chunk n chunk p ≡ emit_line n (body_and_end chunk).0 (body_and_end chunk).1 p
  unfolding write_chunk line_or_section
  write_chunk-emit chunk p = rw unsectioned refl

  module _ (all : n.style ≡ number_all) (apart : n.join_blank_lines ≤ 1) where
    numbered-all : (body : Bytes) (k : ℕ) → numbered n body section_body k ≡ true
    unfolding numbered style_for numbered_by
    numbered-all body k = rw all (ground arith)

    emit_line-all :
        (body nl : Bytes) (num : ℤ) (k : ℕ)
        → emit_line n body nl (record { num = num; cur = section_body; blank_run = k }) ≡ (
          format n num ++ (n.separator ++ (body ++ nl)),
          record {
            num = wrap (num +ℤ n.increment);
            cur = section_body;
            blank_run = if is_blank body then 0 else run_with body k;
          },
        )
    unfolding emit_line
    emit_line-all body nl num k = rw (numbered-all body (run_with body k)) refl

    write_loop-all :
        (rounds : ℕ) (s : Bytes) (num : ℤ) (k : ℕ)
        → write_loop rounds n (record { num = num; cur = section_body; blank_run = k }) s
          ≡ labelled n num (records_in rounds b'\n' s)
    unfolding write_loop labelled records_in
    write_loop-all zero [] num k = refl
    write_loop-all (suc rounds) [] num k = refl
    write_loop-all zero (c ∷ s) num k = refl
    write_loop-all (suc rounds) (c ∷ s) num k =
        ap (λ w. w.0 ++ write_loop rounds n w.1 (read_string b'\n' (c ∷ s)).1)
          (write_chunk-emit chunk (record { num = num; cur = section_body; blank_run = k })
            ∙ emit_line-all (body_and_end chunk).0 (body_and_end chunk).1 num k)
        ∙ ap
            (λ t.
              (format n num ++ (n.separator ++ t))
              ++ write_loop rounds n
                  (record { num = wrap (num +ℤ n.increment); cur = section_body; blank_run = next })
                  (read_string b'\n' (c ∷ s)).1)
            (body_and_end-append chunk)
        ∙ ap (λ r. (format n num ++ (n.separator ++ chunk)) ++ r)
            (write_loop-all rounds (read_string b'\n' (c ∷ s)).1 (wrap (num +ℤ n.increment)) next)
      where
        chunk : Bytes
        chunk = (read_string b'\n' (c ∷ s)).0

        next : ℕ
        next = if is_blank (body_and_end chunk).0 then 0 else run_with (body_and_end chunk).0 k

  module _ (bare : n.style ≡ number_none) (unpadded : n.pad_blank ≡ false) where
    numbered-none : (body : Bytes) (k : ℕ) → numbered n body section_body k ≡ false
    unfolding numbered style_for numbered_by
    numbered-none body k = rw bare refl

    emit_line-none :
        (body nl : Bytes) (num : ℤ) (k : ℕ)
        → emit_line n body nl (record { num = num; cur = section_body; blank_run = k })
          ≡ (body ++ nl, record { num = num; cur = section_body; blank_run = run_with body k })
    unfolding emit_line
    emit_line-none body nl num k = rw (numbered-none body (run_with body k), unpadded) refl

    write_loop-none :
        (rounds : ℕ) (s : Bytes) (num : ℤ) (k : ℕ)
        → length s ≤ rounds
        → write_loop rounds n (record { num = num; cur = section_body; blank_run = k }) s ≡ s
    unfolding write_loop
    write_loop-none zero [] num k h = refl
    write_loop-none (suc rounds) [] num k h = refl
    write_loop-none zero (c ∷ s) num k h = absurd (omega arith)
    write_loop-none (suc rounds) (c ∷ s) num k h =
        ap (λ w. w.0 ++ write_loop rounds n w.1 (read_string b'\n' (c ∷ s)).1)
          (write_chunk-emit chunk (record { num = num; cur = section_body; blank_run = k })
            ∙ emit_line-none (body_and_end chunk).0 (body_and_end chunk).1 num k)
        ∙ ap (λ r. ((body_and_end chunk).0 ++ (body_and_end chunk).1) ++ r)
            (write_loop-none rounds (read_string b'\n' (c ∷ s)).1 num
              (run_with (body_and_end chunk).0 k) (omega (arith, read_string-shorter b'\n' c s)))
        ∙ ap (λ t. t ++ (read_string b'\n' (c ∷ s)).1) (body_and_end-append chunk)
        ∙ read_string-append b'\n' (c ∷ s)
      where
        chunk : Bytes
        chunk = (read_string b'\n' (c ∷ s)).0

-- With all lines numbered, no sections and no joined blank lines, each line stands behind its
-- number and the separator, and the numbers go up by the increment.
pub write_to-labelled :
    (n : Numberer) (s : Bytes)
    → n.sections ≡ false
    → n.style ≡ number_all
    → n.join_blank_lines ≤ 1
    → write_to n s ≡ labelled n n.start (all_records b'\n' s)
unfolding write_to all_records
write_to-labelled n s unsectioned all apart =
    write_loop-all n unsectioned all apart (length s) s n.start 0

-- With no line numbered, no sections and no padding, the text is copied.
pub write_to-unnumbered :
    (n : Numberer) (s : Bytes)
    → n.sections ≡ false
    → n.style ≡ number_none
    → n.pad_blank ≡ false
    → write_to n s ≡ s
unfolding write_to
write_to-unnumbered n s unsectioned bare unpadded =
    write_loop-none n unsectioned bare unpadded (length s) s n.start 0 (omega arith)
