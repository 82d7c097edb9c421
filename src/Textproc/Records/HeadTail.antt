-- ===== src/Textproc/Records/HeadTail.antt =====
-- head and tail against the list of all records of the input.
use mathlib.Core.Option.{map}
use mimixbox.Prelude.{
  ℕ, zero, suc, ◌+◌, ◌-◌, ◌≤◌, ◌<◌, ◌≡◌, refl, ◌∙◌, sym, ap, Bool-cases, inl, inr, List, [], ◌∷◌,
  ◌++◌, arith, ltb, ltb→lt, ◌==◌, Bytes, none, some, ◌⊎◌, length, length-append, take, drop,
  take-append-drop, append_assoc, append-nil,
}
use mimixbox.Textproc.Records.{
  read_string, head_records, push, tail_loop, concat, tail_records, head_bytes, tail_bytes,
}

pub read_string-append : (d : ℕ) (s : Bytes) → (read_string d s).0 ++ (read_string d s).1 ≡ s
unfolding read_string
read_string-append d [] = refl
read_string-append d (c ∷ s) = elim (Bool-cases (c == d)) [
  | inl h ↦ rw h refl
  | inr h ↦ rw h (ap (λ r. c ∷ r) (read_string-append d s))
]

pub read_string-shorter : (d c : ℕ) (s : Bytes) → length (read_string d (c ∷ s)).1 ≤ length s
unfolding read_string
read_string-shorter d c [] = ground arith
read_string-shorter d c (e ∷ s) = ground (arith, read_string-shorter d e s)

-- All records, each with its delimiter, the last perhaps without.
unfoldable pub records_in : ℕ → ℕ → Bytes → List Bytes
records_in rounds d [] = []
records_in zero d (c ∷ s) = []
records_in (suc rounds) d (c ∷ s) =
    (read_string d (c ∷ s)).0 ∷ records_in rounds d (read_string d (c ∷ s)).1

unfoldable pub all_records : ℕ → Bytes → List Bytes
unfolding records_in
all_records d s = records_in (length s) d s

concat-records_in : (k d : ℕ) (s : Bytes) → length s ≤ k → concat (records_in k d s) ≡ s
unfolding concat records_in
concat-records_in zero d [] h = refl
concat-records_in (suc k) d [] h = refl
concat-records_in zero d (c ∷ s) h = absurd (omega arith)
concat-records_in (suc k) d (c ∷ s) h =
    ap (λ r. (read_string d (c ∷ s)).0 ++ r)
      (concat-records_in k d (read_string d (c ∷ s)).1 (omega (arith, read_string-shorter d c s)))
    ∙ read_string-append d (c ∷ s)

head_records-nil : (n d : ℕ) → head_records d n [] ≡ []
unfolding head_records read_string
head_records-nil zero d = refl
head_records-nil (suc n) d = head_records-nil n d

head_records-in :
    (n k d : ℕ) (s : Bytes) → length s ≤ k → head_records d n s ≡ concat (take n (records_in k d s))
unfolding concat records_in
head_records-in zero k d s h = unfold head_records in refl
head_records-in (suc n) zero d [] h = head_records-nil (suc n) d
head_records-in (suc n) (suc k) d [] h = head_records-nil (suc n) d
head_records-in (suc n) zero d (c ∷ s) h = absurd (omega arith)
head_records-in (suc n) (suc k) d (c ∷ s) h =
    head_records_step
    ∙ ap (λ r. (read_string d (c ∷ s)).0 ++ r)
        (head_records-in n k d (read_string d (c ∷ s)).1 (omega (arith, read_string-shorter d c s)))
  where
    head_records_step :
        head_records d (suc n) (c ∷ s)
        ≡ (read_string d (c ∷ s)).0 ++ head_records d n (read_string d (c ∷ s)).1
    head_records_step = unfold head_records in refl

-- The ring after some records were put into it.
pushes : ℕ → List Bytes → List Bytes → List Bytes
pushes n ring [] = ring
pushes n ring (r ∷ records) = pushes n (push n ring r) records

tail_loop-in :
    (k n d : ℕ) (ring : List Bytes) (s : Bytes)
    → tail_loop k n d ring s ≡ pushes n ring (records_in k d s)
unfolding tail_loop pushes records_in
tail_loop-in zero n d ring [] = refl
tail_loop-in (suc k) n d ring [] = refl
tail_loop-in zero n d ring (c ∷ s) = refl
tail_loop-in (suc k) n d ring (c ∷ s) =
    tail_loop-in k n d (push n ring (read_string d (c ∷ s)).0) (read_string d (c ∷ s)).1

abbrev last_of : ℕ → List Bytes → List Bytes
last_of n xs = drop (length xs - n) xs

push_room :
    (n : ℕ) (ring : List Bytes) (r : Bytes) → length ring < n → push n ring r ≡ ring ++ r ∷ []
unfolding push
push_room n ring r h = ground arith

push_full :
    (n : ℕ) (x : Bytes) (ring : List Bytes) (r : Bytes)
    → n ≤ length (x ∷ ring)
    → push n (x ∷ ring) r ≡ ring ++ r ∷ []
unfolding push
push_full n x ring r h = ground arith

drop_zero : (xs : List Bytes) (i : ℕ) → i ≡ 0 → drop i xs ≡ xs
drop_zero xs i e = rw e refl

last_of-cons :
    (n : ℕ) (x : Bytes) (xs : List Bytes) → n ≤ length xs → last_of n (x ∷ xs) ≡ last_of n xs
last_of-cons n x xs h =
    ap (λ i. drop i (x ∷ xs)) (let e : length (x ∷ xs) - n ≡ suc (length xs - n) = omega arith in e)

-- The ring keeps the last records.
pushes-last_of :
    (n : ℕ) (ring records : List Bytes)
    → length ring ≤ suc n
    → pushes (suc n) ring records ≡ last_of (suc n) (ring ++ records)
unfolding pushes
pushes-last_of n ring [] h = sym (
    drop_zero (ring ++ []) (length (ring ++ []) - suc n) (omega (arith, length-append ring []))
    ∙ append-nil ring)
pushes-last_of n [] (r ∷ records) h =
    ap (λ g. pushes (suc n) g records) (push_room (suc n) [] r (omega arith))
    ∙ pushes-last_of n (r ∷ []) records (omega arith)
pushes-last_of n (x ∷ ring) (r ∷ records) h = elim (Bool-cases (ltb (length (x ∷ ring)) (suc n))) [
  | inl room ↦
      ap (λ g. pushes (suc n) g records)
        (push_room (suc n) (x ∷ ring) r (ltb→lt (length (x ∷ ring)) (suc n) room))
      ∙ pushes-last_of n (x ∷ ring ++ r ∷ []) records (
          omega (arith, length-append (x ∷ ring) (r ∷ []), ltb→lt (length (x ∷ ring)) (suc n) room))
      ∙ ap (last_of (suc n)) (append_assoc (x ∷ ring) (r ∷ []) records)
  | inr full ↦
      let enough : suc n ≤ length (x ∷ ring) = ground arith in
      ap (λ g. pushes (suc n) g records) (push_full (suc n) x ring r enough)
      ∙ pushes-last_of n (ring ++ r ∷ []) records (omega (arith, length-append ring (r ∷ [])))
      ∙ ap (last_of (suc n)) (append_assoc ring (r ∷ []) records)
      ∙ sym (
          last_of-cons (suc n) x (ring ++ r ∷ records)
            (omega (arith, length-append ring (r ∷ records))))
]

-- tail of `n + 1` records, if there is memory for so many, writes the last `n + 1` records of the
-- input, or all where it has fewer; if not, it panics, whatever the input is.
pub tail_records-last :
    (capacity d n : ℕ) (s : Bytes)
    → ((suc n ≤ capacity)
        × (tail_records capacity d (suc n) s
            ≡ some (concat (drop (length (all_records d s) - suc n) (all_records d s)))))
      ⊎ ((capacity < suc n) × (tail_records capacity d (suc n) s ≡ none))
unfolding tail_records all_records
tail_records-last capacity d n s = elim (Bool-cases (ltb capacity (suc n))) [
  | inl large ↦ inr (ground arith, rw large refl)
  | inr small ↦ inl (
    ground arith,
    rw small (
        ap (λ r. some (concat r))
          (tail_loop-in (length s) (suc n) d [] s
            ∙ pushes-last_of n [] (records_in (length s) d s) (omega arith))),
  )
]

tail_records-fit :
    (capacity d n : ℕ) (s : Bytes)
    → suc n ≤ capacity
    → tail_records capacity d (suc n) s
      ≡ some (concat (drop (length (all_records d s) - suc n) (all_records d s)))
tail_records-fit capacity d n s h = elim (tail_records-last capacity d n s) [
  | inl fit ↦ fit.1
  | inr large ↦ absurd (omega (arith, large.0))
]

concat-append : (xs ys : List Bytes) → concat (xs ++ ys) ≡ concat xs ++ concat ys
unfolding concat
concat-append [] ys = refl
concat-append (x ∷ xs) ys =
    ap (λ r. x ++ r) (concat-append xs ys) ∙ sym (append_assoc x (concat xs) (concat ys))

-- The first `n` records by head and the last `m + 1` by tail, for which there is memory, are together
-- an input of `n + m + 1` records.
pub head_records-tail_records :
    (capacity d n m : ℕ) (s : Bytes)
    → suc m ≤ capacity
    → length (all_records d s) ≡ n + suc m
    → map (λ t. head_records d n s ++ t) (tail_records capacity d (suc m) s) ≡ some s
head_records-tail_records capacity d n m s fit e =
    ap (map (λ t. head_records d n s ++ t)) (tail_records-fit capacity d m s fit)
    ∙ ap some (
        ap (λ i. head_records d n s ++ concat (drop i (all_records d s)))
          (let i : length (all_records d s) - suc m ≡ n = omega arith in i)
        ∙ ap (λ h. h ++ concat (drop n (all_records d s))) first
        ∙ sym (concat-append (take n (all_records d s)) (drop n (all_records d s)))
        ∙ ap concat (take-append-drop n (all_records d s))
        ∙ whole)
  where
    first : head_records d n s ≡ concat (take n (all_records d s))
    first = unfold all_records in head_records-in n (length s) d s (omega arith)

    whole : concat (all_records d s) ≡ s
    whole = unfold all_records in concat-records_in (length s) d s (omega arith)

-- The first `n` bytes by head and the last `m` by tail are together an input of `n + m` bytes.
pub head_bytes-tail_bytes :
    (n m : ℕ) (s : Bytes) → length s ≡ n + m → head_bytes n s ++ tail_bytes m s ≡ s
head_bytes-tail_bytes n m s e =
    ap (λ t. head_bytes n s ++ t) rest ∙ unfold head_bytes in take-append-drop n s
  where
    rest : tail_bytes m s ≡ drop n s
    rest = let i : length s - m ≡ n = omega arith in unfold tail_bytes in ground (arith, i)
