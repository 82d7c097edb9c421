-- ===== src/Textproc/Numbering.antt =====
-- `Numberer` of internal/textproc/textproc.go, for cat -n and nl. A compiled pattern is its
-- `MatchString`, and none where the pointer is nil; the width of the number is not negative.
pub mod Lines
use mimixbox.Prelude.{
  ℕ, zero, suc, ◌+◌, ◌-◌, ◌%◌, ◌≡◌, refl, Bool, true, false, not, ◌&&◌, ◌||◌, List, [], ◌∷◌, ◌++◌,
  Option, none, some, ltb, ◌==◌, if◌then◌else◌, Bytes, bytes_eq, codes, length,
}
use mimixbox.Golang.Int.{ℤ, pos, negsuc, ◌+ℤ◌, wrap}
use mimixbox.Golang.Strconv.{format_nat, itoa}
use mimixbox.Textproc.Records.{read_string}

pub data NumberStyle : Type 0 where
  number_none number_all number_non_blank number_regexp : NumberStyle

pub data NumberJustify : Type 0 where
  justify_right justify_right_zero justify_left : NumberJustify

abbrev pub Pattern : Type 0
Pattern = Option (Bytes → Bool)

pub record Numberer : Type 0 where
  pub style : NumberStyle
  pub start : ℤ
  pub increment : ℤ
  pub width : ℕ
  pub separator : Bytes
  pub justify : NumberJustify
  pub pad_blank : Bool
  pub pattern : Pattern
  pub sections : Bool
  pub header_style : NumberStyle
  pub footer_style : NumberStyle
  pub header_regexp : Pattern
  pub footer_regexp : Pattern
  pub join_blank_lines : ℕ

pub data Section : Type 0 where
  section_body section_header section_footer : Section

unfoldable pub delimiter_section : Bytes → Option Section
unfolding bytes_eq
delimiter_section body =
    if bytes_eq body (codes "\\:\\:\\:")
    then some section_header
    else if bytes_eq body (codes "\\:\\:")
    then some section_body
    else if bytes_eq body (codes "\\:")
    then some section_footer
    else none

unfoldable pub style_for : Numberer → Section → NumberStyle × Pattern
style_for n section_header = (n.header_style, n.header_regexp)
style_for n section_footer = (n.footer_style, n.footer_regexp)
style_for n section_body = (n.style, n.pattern)

is_blank : Bytes → Bool
is_blank [] = true
is_blank (_ ∷ _) = false

matches : Pattern → Bytes → Bool
matches none body = false
matches (some test) body = test body

-- The switch of `numbered`.
numbered_by : NumberStyle → Pattern → ℕ → Bytes → ℕ → Bool
unfolding is_blank matches
numbered_by number_all pattern join body blank_run =
    if is_blank body && ltb 1 join then blank_run % join == 0 else true
numbered_by number_non_blank pattern join body blank_run = not (is_blank body)
numbered_by number_regexp pattern join body blank_run = matches pattern body
numbered_by number_none pattern join body blank_run = false

unfoldable pub numbered : Numberer → Bytes → Section → ℕ → Bool
unfolding numbered_by style_for
numbered n body sec blank_run =
    numbered_by (style_for n sec).0 (style_for n sec).1 n.join_blank_lines body blank_run

unfoldable pub repeat : ℕ → ℕ → Bytes
repeat c zero = []
repeat c (suc k) = c ∷ repeat c k

-- `%0*d`: the zeros stand behind the sign.
zero_padded : ℕ → ℤ → Bytes
unfolding repeat format_nat
zero_padded w (pos a) = repeat b'0' (w - length (format_nat a)) ++ format_nat a
zero_padded w (negsuc a) =
    b'-' ∷ (repeat b'0' (w - suc (length (format_nat (suc a)))) ++ format_nat (suc a))

format_by : NumberJustify → ℕ → ℤ → Bytes
unfolding zero_padded itoa
format_by justify_right_zero w num = zero_padded w num
format_by justify_left w num = itoa num ++ repeat b' ' (w - length (itoa num))
format_by justify_right w num = repeat b' ' (w - length (itoa num)) ++ itoa num

-- The largest width that `fmt` takes for a `*`. Past it, it writes a mark and does not pad.
abbrev pub max_width : ℕ
max_width = 1000000

unfoldable pub format : Numberer → ℤ → Bytes
unfolding format_by itoa
format n num =
    if ltb max_width n.width
    then codes "%!(BADWIDTH)" ++ itoa num
    else format_by n.justify n.width num

-- The variables of `WriteTo`.
pub record Place : Type 0 where
  pub num : ℤ
  pub cur : Section
  pub blank_run : ℕ

-- The run of blank lines that ends with this one.
unfoldable pub run_with : Bytes → ℕ → ℕ
unfolding is_blank
run_with body blank_run = if is_blank body then blank_run + 1 else 0

-- `emitLine`, and the increment behind it: what is written, and the place behind the line.
unfoldable pub emit_line : Numberer → Bytes → Bytes → Place → Bytes × Place
unfolding numbered run_with format is_blank repeat
emit_line n body nl p =
    let blank_run = run_with body p.blank_run in
    let labelled : Bytes × Place = (
      format n p.num ++ (n.separator ++ (body ++ nl)),
      record p {
        num = wrap (p.num +ℤ n.increment);
        blank_run = if is_blank body then 0 else blank_run;
      },
    ) in
    let prefix = if n.pad_blank then repeat b' ' (n.width + length n.separator) else [] in
    let bare : Bytes × Place = (prefix ++ (body ++ nl), record p { blank_run = blank_run }) in
    if numbered n body p.cur blank_run then labelled else bare

-- A chunk without its line end, and the line end if there is one.
unfoldable pub body_and_end : Bytes → Bytes × Bytes
body_and_end [] = ([], [])
body_and_end (c ∷ []) = if c == b'\n' then ([], c ∷ []) else (c ∷ [], [])
body_and_end (c ∷ d ∷ s) = (c ∷ (body_and_end (d ∷ s)).0, (body_and_end (d ∷ s)).1)

-- A line that may open a section.
line_or_section : Numberer → Bytes → Bytes → Place → Option Section → Bytes × Place
unfolding emit_line
line_or_section n body nl p none = emit_line n body nl p
line_or_section n body nl p (some sec) = (nl, record { num = n.start; cur = sec; blank_run = 0 })

unfoldable pub write_chunk : Numberer → Bytes → Place → Bytes × Place
unfolding line_or_section delimiter_section body_and_end
write_chunk n chunk p =
    let (body, nl) = body_and_end chunk in
    line_or_section n body nl p (if n.sections then delimiter_section body else none)

-- The loop of `WriteTo`; every round reads a byte at least, so as many rounds as there are bytes
-- are enough.
unfoldable pub write_loop : ℕ → Numberer → Place → Bytes → Bytes
unfolding write_chunk read_string
write_loop rounds n p [] = []
write_loop zero n p (c ∷ s) = []
write_loop (suc rounds) n p (c ∷ s) =
    (write_chunk n (read_string b'\n' (c ∷ s)).0 p).0
    ++ write_loop rounds n (write_chunk n (read_string b'\n' (c ∷ s)).0 p).1
        (read_string b'\n' (c ∷ s)).1

unfoldable pub write_to : Numberer → Bytes → Bytes
unfolding write_loop
write_to n s =
    write_loop (length s) n (record { num = n.start; cur = section_body; blank_run = 0 }) s
