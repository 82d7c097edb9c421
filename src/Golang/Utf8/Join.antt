-- ===== src/Golang/Utf8/Join.antt =====
-- Decoding a text in UTF-8 part by part.
use mimixbox.Prelude.{
  ℕ, zero, suc, ◌+◌, ◌-◌, ◌≤◌, ◌≡◌, refl, true, [], ◌∷◌, ◌++◌, arith, ap, All, length-append, Bytes,
  length,
}
use mimixbox.Golang.Utf8.{
  rune_start, decode_rune, full_rune, announced, accepts_second, is_continuation, rune_error,
  symbol_of, symbols,
}

-- Nothing follows, or a byte that starts a sequence.
abbrev pub StartsRune : Bytes → Type 0
StartsRune [] = Unit
StartsRune (b ∷ _) = rune_start b ≡ true

decode_rune_size : (b : ℕ) (s : Bytes) → (decode_rune (b ∷ s)).1 ≤ suc (length s)
unfolding decode_rune announced
decode_rune_size b [] = ground arith
decode_rune_size b (c ∷ []) = ground arith
decode_rune_size b (c ∷ d ∷ []) = ground arith
decode_rune_size b (c ∷ d ∷ e ∷ s) = ground arith

decode_rune-append :
    (b : ℕ) (p s : Bytes) → StartsRune s → decode_rune (b ∷ p ++ s) ≡ decode_rune (b ∷ p)
unfolding decode_rune announced accepts_second rune_start
decode_rune-append b [] [] h = refl
decode_rune-append b [] (x ∷ []) h = ground arith
decode_rune-append b [] (x ∷ y ∷ []) h = ground arith
decode_rune-append b [] (x ∷ y ∷ z ∷ s) h = ground arith
decode_rune-append b (c ∷ []) [] h = refl
decode_rune-append b (c ∷ []) (x ∷ []) h = ground arith
decode_rune-append b (c ∷ []) (x ∷ y ∷ s) h = ground arith
decode_rune-append b (c ∷ d ∷ []) [] h = refl
decode_rune-append b (c ∷ d ∷ []) (x ∷ s) h = ground arith
decode_rune-append b (c ∷ d ∷ e ∷ p) s h = refl

-- A text may be cut before a byte that starts a sequence.
pub symbols-append :
    (k : ℕ) (p s : Bytes)
    → k ≤ length p
    → StartsRune s
    → symbols k (p ++ s) ≡ symbols k p ++ symbols 0 s
unfolding symbols
symbols-append zero [] s h start = refl
symbols-append (suc k) [] s h start = absurd (omega arith)
symbols-append (suc k) (b ∷ p) s h start = symbols-append k p s (omega arith) start
symbols-append zero (b ∷ p) s h start = rw (decode_rune-append b p s start) (
    ap (λ r. symbol_of b (decode_rune (b ∷ p)) ∷ r)
      (symbols-append ((decode_rune (b ∷ p)).1 - 1) p s (omega (arith, decode_rune_size b p))
        start))

-- A continuation byte that begins a text is invalid, whatever follows it.
decode_rune-continuation :
    (b : ℕ) (s : Bytes) → is_continuation b ≡ true → decode_rune (b ∷ s) ≡ (rune_error, 1)
unfolding decode_rune announced
decode_rune-continuation b [] h = ground arith
decode_rune-continuation b (c ∷ []) h = ground arith
decode_rune-continuation b (c ∷ d ∷ []) h = ground arith
decode_rune-continuation b (c ∷ d ∷ e ∷ s) h = ground arith

abbrev pub Continues : Bytes → Type 0
Continues = All (λ b. is_continuation b ≡ true)

-- A text may be cut behind continuation bytes of which no more are owed than there are.
pub symbols-append-Continues :
    (k : ℕ) (t s : Bytes)
    → k ≤ length t
    → Continues t
    → symbols k (t ++ s) ≡ symbols k t ++ symbols 0 s
unfolding symbols
symbols-append-Continues zero [] s h all = refl
symbols-append-Continues (suc k) [] s h all = absurd (omega arith)
symbols-append-Continues (suc k) (b ∷ t) s h all =
    symbols-append-Continues k t s (omega arith) all.1
symbols-append-Continues zero (b ∷ t) s h all =
    rw (decode_rune-continuation b (t ++ s) all.0, decode_rune-continuation b t all.0)
      (ap (λ r. symbol_of b (rune_error, 1) ∷ r)
        (symbols-append-Continues 0 t s (omega arith) all.1))

decode_rune-append_long :
    (b : ℕ) (p s : Bytes) → 3 ≤ length p → decode_rune (b ∷ p ++ s) ≡ decode_rune (b ∷ p)
decode_rune-append_long b [] s h = absurd (omega arith)
decode_rune-append_long b (_ ∷ []) s h = absurd (omega arith)
decode_rune-append_long b (_ ∷ _ ∷ []) s h = absurd (omega arith)
decode_rune-append_long b (c ∷ d ∷ e ∷ p) s h = unfold decode_rune in refl

-- A text may be cut behind three or more continuation bytes.
pub symbols-append_long :
    (k : ℕ) (p t s : Bytes)
    → k ≤ length p + length t
    → Continues t
    → 3 ≤ length t
    → symbols k ((p ++ t) ++ s) ≡ symbols k (p ++ t) ++ symbols 0 s
unfolding symbols
symbols-append_long k [] t s h all long = symbols-append-Continues k t s (omega arith) all
symbols-append_long (suc k) (b ∷ p) t s h all long =
    symbols-append_long k p t s (omega arith) all long
symbols-append_long zero (b ∷ p) t s h all long =
    let q : Bytes = p ++ t in
    let size = decode_rune_size b q in
    rw (decode_rune-append_long b q s (omega (arith, length-append p t))) (
      ap (λ r. symbol_of b (decode_rune (b ∷ q)) ∷ r)
        (symbols-append_long ((decode_rune (b ∷ q)).1 - 1) p t s
          (omega (arith, size, length-append p t)) all long))

decode_rune-append_full :
    (b : ℕ) (t s : Bytes)
    → Continues t
    → full_rune (b ∷ t) ≡ true
    → decode_rune (b ∷ t ++ s) ≡ decode_rune (b ∷ t)
unfolding decode_rune full_rune announced accepts_second
decode_rune-append_full b [] [] all full = refl
decode_rune-append_full b [] (x ∷ []) all full = ground arith
decode_rune-append_full b [] (x ∷ y ∷ []) all full = ground arith
decode_rune-append_full b [] (x ∷ y ∷ z ∷ s) all full = ground arith
decode_rune-append_full b (c ∷ []) [] all full = refl
decode_rune-append_full b (c ∷ []) (x ∷ []) all full = ground arith
decode_rune-append_full b (c ∷ []) (x ∷ y ∷ s) all full = ground arith
decode_rune-append_full b (c ∷ d ∷ []) [] all full = refl
decode_rune-append_full b (c ∷ d ∷ []) (x ∷ s) all full = ground arith
decode_rune-append_full b (c ∷ d ∷ e ∷ t) s all full = refl

-- A text may be cut behind a whole sequence and what continuation bytes follow it.
pub symbols-append_full :
    (b : ℕ) (t s : Bytes)
    → Continues t
    → full_rune (b ∷ t) ≡ true
    → symbols 0 ((b ∷ t) ++ s) ≡ symbols 0 (b ∷ t) ++ symbols 0 s
unfolding symbols
symbols-append_full b t s all full = rw (decode_rune-append_full b t s all full) (
    ap (λ r. symbol_of b (decode_rune (b ∷ t)) ∷ r)
      (symbols-append-Continues ((decode_rune (b ∷ t)).1 - 1) t s
        (omega (arith, decode_rune_size b t)) all))
