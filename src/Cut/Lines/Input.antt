-- ===== src/Cut/Lines/Input.antt =====
-- `cutReader` of internal/applets/shellutils/cut/cut.go on whole inputs.
use mimixbox.Prelude.{
  ℕ, ◌≡◌, refl, ◌∙◌, sym, ap, inl, inr, Bool, Bool-cases, true, false, List, [], ◌∷◌, ◌++◌, some,
  arith, ◌==◌, Bytes, append_assoc,
}
use mimixbox.Cut.Lines.{Options, cut_line, tokens, written, cut_lines, cut_reader}

tokens_hit : (d : ℕ) (cur s : Bytes) → tokens d cur (d ∷ s) ≡ cur ∷ tokens d [] s
unfolding tokens
tokens_hit d [] s = ground arith
tokens_hit d (c ∷ cur) s = ground arith

tokens-nil : (d : ℕ) → tokens d [] [] ≡ []
unfolding tokens
tokens-nil d = refl

module _ (d : ℕ) (c : ℕ) (s : Bytes) where
  tokens_stop : (cur : Bytes) → (c == d) ≡ true → tokens d cur (c ∷ s) ≡ cur ∷ tokens d [] s
  unfolding tokens
  tokens_stop [] h = rw h refl
  tokens_stop (a ∷ cur) h = rw h refl

  tokens_go : (cur : Bytes) → (c == d) ≡ false → tokens d cur (c ∷ s) ≡ tokens d (cur ++ c ∷ []) s
  unfolding tokens
  tokens_go [] h = rw h refl
  tokens_go (a ∷ cur) h = rw h refl

tokens-append :
    (d : ℕ) (cur s t : Bytes)
    → tokens d cur (s ++ d ∷ t) ≡ tokens d cur (s ++ d ∷ []) ++ tokens d [] t
tokens-append d cur [] t =
    tokens_hit d cur t
    ∙ ap (λ r. r ++ tokens d [] t) (sym (tokens_hit d cur [] ∙ ap (λ r. cur ∷ r) (tokens-nil d)))
tokens-append d cur (c ∷ s) t = elim (Bool-cases (c == d)) [
  | inl h ↦
      tokens_stop d c (s ++ d ∷ t) cur h
      ∙ ap (λ r. cur ∷ r) (tokens-append d [] s t)
      ∙ ap (λ r. r ++ tokens d [] t) (sym (tokens_stop d c (s ++ d ∷ []) cur h))
  | inr h ↦
      tokens_go d c (s ++ d ∷ t) cur h
      ∙ tokens-append d (cur ++ c ∷ []) s t
      ∙ ap (λ r. r ++ tokens d [] t) (sym (tokens_go d c (s ++ d ∷ []) cur h))
]

cut_lines-append :
    (opts : Options) (ls ms : List Bytes)
    → cut_lines opts (ls ++ ms) ≡ cut_lines opts ls ++ cut_lines opts ms
unfolding cut_lines
cut_lines-append opts [] ms = refl
cut_lines-append opts (l ∷ ls) ms =
    ap (λ r. written opts.line_delim (cut_line opts l) ++ r) (cut_lines-append opts ls ms)
    ∙ sym (
        append_assoc (written opts.line_delim (cut_line opts l)) (cut_lines opts ls)
          (cut_lines opts ms))

-- An input is cut independently before and behind any line delimiter.
pub cut_reader-append :
    (opts : Options) (s t : Bytes)
    → cut_reader opts (s ++ opts.line_delim ∷ t)
      ≡ cut_reader opts (s ++ opts.line_delim ∷ []) ++ cut_reader opts t
unfolding cut_reader
cut_reader-append opts s t =
    ap (cut_lines opts) (tokens-append opts.line_delim [] s t)
    ∙ cut_lines-append opts (tokens opts.line_delim [] (s ++ opts.line_delim ∷ []))
        (tokens opts.line_delim [] t)

-- The text with a line delimiter at its end, unless it is empty or has one; the second argument
-- says whether nothing is left to terminate.
terminated_from : ℕ → Bool → Bytes → Bytes
terminated_from d true [] = []
terminated_from d false [] = d ∷ []
terminated_from d ended (c ∷ s) = c ∷ terminated_from d (c == d) s

unfoldable pub terminated : ℕ → Bytes → Bytes
unfolding terminated_from
terminated d s = terminated_from d true s

abbrev is_nil : Bytes → Bool
is_nil [] = true
is_nil (_ ∷ _) = false

is_nil-snoc : (cur : Bytes) (c : ℕ) → is_nil (cur ++ c ∷ []) ≡ false
is_nil-snoc [] c = refl
is_nil-snoc (a ∷ cur) c = refl

terminated_step :
    (d : ℕ) (ended : Bool) (c : ℕ) (s : Bytes)
    → terminated_from d ended (c ∷ s) ≡ c ∷ terminated_from d (c == d) s
unfolding terminated_from
terminated_step d true c s = refl
terminated_step d false c s = refl

-- Every line is emitted as it is.
abbrev pub PassesLines : Options → Type 0
PassesLines opts = (line : Bytes) → cut_line opts line ≡ some line

module _ (opts : Options) (passes : PassesLines opts) where
  abbrev delim : ℕ
  delim = opts.line_delim

  cut_lines-cons :
      (line : Bytes) (lines : List Bytes)
      → cut_lines opts (line ∷ lines) ≡ line ++ (delim ∷ cut_lines opts lines)
  unfolding cut_lines written
  cut_lines-cons line lines =
      ap (λ o. written delim o ++ cut_lines opts lines) (passes line)
      ∙ append_assoc line (delim ∷ []) (cut_lines opts lines)

  cut_lines-nil : cut_lines opts [] ≡ []
  unfolding cut_lines
  cut_lines-nil = refl

  cut_lines-tokens :
      (s cur : Bytes)
      → cut_lines opts (tokens delim cur s) ≡ cur ++ terminated_from delim (is_nil cur) s
  cut_lines-tokens [] [] = unfold tokens terminated_from in cut_lines-nil
  cut_lines-tokens [] (a ∷ cur) =
      unfold tokens terminated_from in
      (cut_lines-cons (a ∷ cur) [] ∙ ap (λ r. (a ∷ cur) ++ (delim ∷ r)) cut_lines-nil)
  cut_lines-tokens (c ∷ s) cur = elim (Bool-cases (c == delim)) [
    | inl h ↦
        ap (cut_lines opts) (tokens_stop delim c s cur h)
        ∙ cut_lines-cons cur (tokens delim [] s)
        ∙ ap (λ r. cur ++ (delim ∷ r)) (cut_lines-tokens s [])
        ∙ ap (λ r. cur ++ r)
            (ap (λ x. x ∷ terminated_from delim true s) (let e : delim ≡ c = ground arith in e)
              ∙ sym (
                  terminated_step delim (is_nil cur) c s
                  ∙ ap (λ b. c ∷ terminated_from delim b s) h))
    | inr h ↦
        ap (cut_lines opts) (tokens_go delim c s cur h)
        ∙ cut_lines-tokens s (cur ++ c ∷ [])
        ∙ ap (λ b. (cur ++ c ∷ []) ++ terminated_from delim b s) (is_nil-snoc cur c)
        ∙ append_assoc cur (c ∷ []) (terminated_from delim false s)
        ∙ ap (λ r. cur ++ r)
            (sym
              (terminated_step delim (is_nil cur) c s ∙ ap (λ b. c ∷ terminated_from delim b s) h))
  ]

-- Where every line passes, cut copies its input and terminates the last line.
pub cut_reader-terminated :
    (opts : Options) (input : Bytes)
    → PassesLines opts
    → cut_reader opts input ≡ terminated opts.line_delim input
unfolding cut_reader terminated
cut_reader-terminated opts input passes = cut_lines-tokens opts passes input []
