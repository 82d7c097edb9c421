-- ===== src/Tr/Processor/Stream.antt =====
-- `streamTransform` of internal/applets/textutils/tr/tr.go over different reads of an input.
use mimixbox.Prelude.{
  ℕ, zero, suc, ◌+◌, ◌-◌, ◌≤◌, ◌<◌, ◌≡◌, refl, sym, ap, ◌∙◌, Bool, true, false, List, [], ◌∷◌, ◌++◌,
  none, arith, ltb, if◌then◌else◌, Bytes, Runes, length, take, drop, append_assoc, map-append,
  Bool-cases, inl, inr, map, take-append-drop, length-drop, subst,
}
use mimixbox.Golang.Utf8.{
  decode_rune, rune_start, full_rune, Symbol, valid, invalid, symbols, symbol_of, is_continuation,
}
use mimixbox.Golang.Utf8.Join.{
  Continues, symbols-append, symbols-append-Continues, symbols-append_long, symbols-append_full,
}
use mimixbox.Tr.Processor.{
  Options, Cell, cell_of, decode_cells, Processor, State, process, process_cell, starts,
  complete_loop, complete_rune_len, stream, stream_transform, new_processor,
}

unfoldable pub cell : Symbol → Cell
cell (valid r) = record { r = r; raw = false }
cell (invalid b) = record { r = b; raw = true }

cell-symbol_of : (b : ℕ) (d : ℕ × ℕ) → cell (symbol_of b d) ≡ cell_of b d
unfolding cell symbol_of cell_of
cell-symbol_of b (r, size) = ground arith

pub decode_cells-symbols : (k : ℕ) (s : Bytes) → decode_cells k s ≡ map cell (symbols k s)
unfolding decode_cells symbols
decode_cells-symbols k [] = refl
decode_cells-symbols (suc k) (b ∷ s) = decode_cells-symbols k s
decode_cells-symbols zero (b ∷ s) =
    cc
      (cell-symbol_of b (decode_rune (b ∷ s)), decode_cells-symbols ((decode_rune (b ∷ s)).1 - 1) s)

module _ {ℓ} {A : Type ℓ} where
  take_all : (xs : List A) → take (length xs) xs ≡ xs
  take_all [] = refl
  take_all (x ∷ xs) = ap (λ r. x ∷ r) (take_all xs)

  drop_all : (xs : List A) → drop (length xs) xs ≡ []
  drop_all [] = refl
  drop_all (x ∷ xs) = drop_all xs

  drop-suc : (n : ℕ) (xs : List A) {x : A} {r : List A} → drop n xs ≡ x ∷ r → drop (suc n) xs ≡ r
  drop-suc zero [] h = cc
  drop-suc zero (y ∷ xs) h = cc
  drop-suc (suc n) [] h = cc
  drop-suc (suc n) (y ∷ xs) h = drop-suc n xs h

  drop-cons : (n : ℕ) (xs : List A) → n < length xs → (x : A) × (r : List A) × (drop n xs ≡ x ∷ r)
  drop-cons n [] h = absurd (omega arith)
  drop-cons zero (x ∷ xs) h = (x, xs, refl)
  drop-cons (suc n) (x ∷ xs) h = drop-cons n xs (omega arith)

-- `b` may be cut behind `n` bytes, whatever follows it.
abbrev Cuts : ℕ → Bytes → Type 0
Cuts n b = (s : Bytes) → symbols 0 (b ++ s) ≡ symbols 0 (take n b) ++ symbols 0 (drop n b ++ s)

Cuts-length :
    (b : Bytes)
    → ((s : Bytes) → symbols 0 (b ++ s) ≡ symbols 0 b ++ symbols 0 s)
    → Cuts (length b) b
Cuts-length b h s = rw (take_all b, drop_all b) (h s)

end_full :
    (p : Bytes) (c : ℕ) (t s : Bytes)
    → rune_start c ≡ true
    → Continues t
    → full_rune (c ∷ t) ≡ true
    → symbols 0 ((p ++ c ∷ t) ++ s) ≡ symbols 0 (p ++ c ∷ t) ++ symbols 0 s
end_full p c t s start all full =
    rw (append_assoc p (c ∷ t) s, symbols-append 0 p (c ∷ t ++ s) (omega arith) start)
      (rw (symbols-append_full c t s all full, symbols-append 0 p (c ∷ t) (omega arith) start)
        (sym (append_assoc (symbols 0 p) (symbols 0 (c ∷ t)) (symbols 0 s))))

cut_before :
    (b : Bytes) (start c : ℕ) (t : Bytes)
    → drop start b ≡ c ∷ t
    → rune_start c ≡ true
    → Cuts start b
cut_before b start c t e begins s =
    subst (λ x. symbols 0 (x ++ s) ≡ symbols 0 (take start b) ++ symbols 0 (drop start b ++ s))
      (take-append-drop start b)
      (rw (append_assoc (take start b) (drop start b) s)
        (symbols-append 0 (take start b) (drop start b ++ s) (omega arith) (rw e begins)))

cut_behind :
    (b : Bytes) (start c : ℕ) (t : Bytes)
    → drop start b ≡ c ∷ t
    → rune_start c ≡ true
    → Continues t
    → full_rune (c ∷ t) ≡ true
    → Cuts (length b) b
cut_behind b start c t e begins all full = Cuts-length b λ s.
    subst (λ x. symbols 0 (x ++ s) ≡ symbols 0 x ++ symbols 0 s)
      (ap (λ d. take start b ++ d) (sym e) ∙ take-append-drop start b)
      (end_full (take start b) c t s begins all full)

continues_of : (c : ℕ) → rune_start c ≡ false → is_continuation c ≡ true
unfolding rune_start
continues_of c h = ground arith

-- The choice of one round.
choice-Cuts :
    (b : Bytes) (start c : ℕ) (t : Bytes) (m : ℕ)
    → drop start b ≡ c ∷ t
    → Continues t
    → (is_continuation c ≡ true → Cuts m b)
    → Cuts
        (if starts (drop start b)
          then (if full_rune (drop start b) then length b else start)
          else m)
        b
unfolding starts
choice-Cuts b start c t m e all later =
    subst (λ d. Cuts (if starts d then (if full_rune d then length b else start) else m) b) (sym e)
      (elim (Bool-cases (rune_start c)) [
        | inl begins ↦ rw begins (inner (full_rune (c ∷ t)) refl begins)
        | inr inside ↦ rw inside (later (continues_of c inside))
      ])
  where
    inner :
        (full : Bool)
        → full_rune (c ∷ t) ≡ full
        → rune_start c ≡ true
        → Cuts (if full then length b else start) b
    inner true full begins = cut_behind b start c t e begins all full
    inner false full begins = cut_before b start c t e begins

complete_loop-Cuts :
    (rounds i : ℕ) (b : Bytes)
    → rounds + i ≡ 5
    → 1 ≤ i
    → i ≤ length b + 1
    → Continues (drop (length b + 1 - i) b)
    → Cuts (complete_loop rounds i b) b
unfolding complete_loop
complete_loop-Cuts zero i b e low high all = Cuts-length b λ s.
    let t : Bytes = drop (length b + 1 - i) b in
    let p : Bytes = take (length b + 1 - i) b in
    subst (λ x. symbols 0 (x ++ s) ≡ symbols 0 x ++ symbols 0 s)
      (take-append-drop (length b + 1 - i) b)
      (symbols-append_long 0 p t s (omega arith) all
        (omega (arith, length-drop (length b + 1 - i) b)))
complete_loop-Cuts (suc rounds) i b e low high all = elim (Bool-cases (ltb (length b) i)) [
  | inl short ↦ rw short (
      Cuts-length b (λ s.
        symbols-append-Continues 0 b s (omega arith)
          (whole b (length b + 1 - i) (ground arith) all)))
  | inr enough ↦
      let (c, t, cut) = drop-cons (length b - i) b (ground arith) in
      let fits : suc i ≤ length b + 1 = ground arith in
      let rest =
        continues_tail b (length b - i) c t (length b + 1 - i) cut (omega (arith, fits)) all in
      rw enough (
        choice-Cuts b (length b - i) c t (complete_loop rounds (i + 1) b) cut rest (λ inside.
          complete_loop-Cuts rounds (i + 1) b (omega arith) (omega arith) (omega (arith, fits)) (
            continues_more b (length b - i) c t (length b + 1 - (i + 1)) cut (omega (arith, fits))
              (inside, rest))))
]
  where
    whole : (b : Bytes) (n : ℕ) → n ≡ 0 → Continues (drop n b) → Continues b
    whole b n z h = rw z at h

    continues_tail :
        (b : Bytes) (n c : ℕ) (t : Bytes) (m : ℕ)
        → drop n b ≡ c ∷ t
        → m ≡ suc n
        → Continues (drop m b)
        → Continues t
    continues_tail b n c t m e z h = rw (z, drop-suc n b e) at h

    continues_more :
        (b : Bytes) (n c : ℕ) (t : Bytes) (m : ℕ)
        → drop n b ≡ c ∷ t
        → m ≡ n
        → Continues (c ∷ t)
        → Continues (drop m b)
    continues_more b n c t m e z h = rw (z, e) h

Continues-end : (b : Bytes) (n : ℕ) → n ≡ length b → Continues (drop n b)
Continues-end b n e = rw (e, drop_all b) tt

-- What `completeRuneLen` holds back is no part of a symbol that is already complete.
complete_rune_len-Cuts : (b : Bytes) → Cuts (complete_rune_len b) b
unfolding complete_rune_len
complete_rune_len-Cuts b =
    complete_loop-Cuts 4 1 b (omega arith) (omega arith) (omega arith)
      (Continues-end b (length b + 1 - 1) (omega arith))

decode_cells-cut :
    (b s : Bytes)
    → decode_cells 0 (b ++ s)
      ≡ decode_cells 0 (take (complete_rune_len b) b)
        ++ decode_cells 0 (drop (complete_rune_len b) b ++ s)
decode_cells-cut b s =
    rw (decode_cells-symbols 0 (b ++ s), complete_rune_len-Cuts b s)
      (rw
        (
          decode_cells-symbols 0 (take (complete_rune_len b) b),
          decode_cells-symbols 0 (drop (complete_rune_len b) b ++ s),
        )
        (map-append cell _ _))

process-append :
    (p : Processor) (s : State) (xs ys : List Cell)
    → process p s (xs ++ ys) ≡ process p (process p s xs) ys
unfolding process
process-append p s [] ys = refl
process-append p s (c ∷ xs) ys = process-append p (process_cell p s c) xs ys

-- All the bytes of a reader.
unfoldable pub contents : List Bytes → Bytes → Bytes
contents [] last = last
contents (buf ∷ reads) last = buf ++ contents reads last

stream-contents :
    (p : Processor) (carry : Bytes) (s : State) (reads : List Bytes) (last : Bytes)
    → stream p carry s reads last ≡ (process p s (decode_cells 0 (carry ++ contents reads last))).0
unfolding stream contents
stream-contents p carry s [] last = refl
stream-contents p carry s (buf ∷ reads) last =
    stream-contents p (drop (complete_rune_len (carry ++ buf)) (carry ++ buf))
      (process p s (decode_cells 0 (take (complete_rune_len (carry ++ buf)) (carry ++ buf)))) reads
      last
    ∙ ap (λ r. r.0)
        (sym (
          process-append p s
            (decode_cells 0 (take (complete_rune_len (carry ++ buf)) (carry ++ buf))) _))
    ∙ ap (λ cells. (process p s cells).0)
        (sym (decode_cells-cut (carry ++ buf) (contents reads last))
          ∙ ap (decode_cells 0) (append_assoc carry buf (contents reads last)))

-- However the reader cuts its input into reads, `streamTransform` writes what one pass over the
-- whole input writes.
pub stream_transform-contents :
    (set1 set2 : Runes) (opts : Options) (reads : List Bytes) (last : Bytes)
    → stream_transform set1 set2 opts reads last
      ≡ (process (new_processor set1 set2 opts) ([], none) (decode_cells 0 (contents reads last))).0
unfolding stream_transform
stream_transform-contents set1 set2 opts reads last =
    stream-contents (new_processor set1 set2 opts) [] ([], none) reads last
