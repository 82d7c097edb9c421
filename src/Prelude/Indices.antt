-- ===== src/Prelude/Indices.antt =====
-- Lists cut at an index.
use Prim.Native.Nat.{ℕ, zero, suc, ◌+◌, ◌-◌, ◌≤◌, ◌<◌}
use mathlib.Core.Path.{◌≡◌, refl, sym, ap, subst, ◌∙◌}
use mathlib.Core.List.{List, [], ◌∷◌, ◌++◌}
use mathlib.Core.Option.{some}
use native.Mathlib.Omega.{arith}
use mimixbox.Prelude.Lists.{length, get_elem?, get_or, take, drop, take-append-drop, All}

-- `xs[start:stop]`.
abbrev pub slice {ℓ} : {A : Type ℓ} → ℕ → ℕ → List A → List A
slice start stop xs = take (stop - start) (drop start xs)

module _ {ℓ} {A : Type ℓ} where
  pub get_elem?-drop :
      (i : ℕ) (a : List A) (x : A) (rest : List A) → drop i a ≡ x ∷ rest → get_elem? a i ≡ some x
  get_elem?-drop zero (y ∷ a) x rest h = cc
  get_elem?-drop (suc i) (y ∷ a) x rest h = get_elem?-drop i a x rest h
  get_elem?-drop zero [] x rest h = cc
  get_elem?-drop (suc i) [] x rest h = cc

  pub drop-next :
      (i : ℕ) (a : List A) (x : A) (rest : List A) → drop i a ≡ x ∷ rest → drop (suc i) a ≡ rest
  drop-next zero (y ∷ a) x rest h = cc
  drop-next (suc i) (y ∷ a) x rest h = drop-next i a x rest h
  drop-next zero [] x rest h = cc
  drop-next (suc i) [] x rest h = cc

  -- Where nothing is left, the index is the length, if it is not past it.
  pub length-drop_nil : (i : ℕ) (a : List A) → drop i a ≡ [] → i ≤ length a → i ≡ length a
  length-drop_nil zero [] h k = refl
  length-drop_nil zero (x ∷ a) h k = cc
  length-drop_nil (suc i) [] h k = absurd (omega arith)
  length-drop_nil (suc i) (x ∷ a) h k = ap suc (length-drop_nil i a h (omega arith))

  pub length-drop_cons :
      (i : ℕ) (a : List A) (x : A) (rest : List A) → drop i a ≡ x ∷ rest → suc i ≤ length a
  length-drop_cons zero [] x rest h = cc
  length-drop_cons zero (y ∷ a) x rest h = omega arith
  length-drop_cons (suc i) [] x rest h = cc
  length-drop_cons (suc i) (y ∷ a) x rest h = omega (arith, length-drop_cons i a x rest h)

  pub get_elem?-bound : (n : ℕ) (xs : List A) (x : A) → get_elem? xs n ≡ some x → n < length xs
  get_elem?-bound n [] x h = cc
  get_elem?-bound zero (y ∷ xs) x h = omega arith
  get_elem?-bound (suc n) (y ∷ xs) x h = omega (arith, get_elem?-bound n xs x h)

  pub drop-get_elem? :
      (n : ℕ) (xs : List A) (x : A) → get_elem? xs n ≡ some x → drop n xs ≡ x ∷ drop (suc n) xs
  drop-get_elem? n [] x h = cc
  drop-get_elem? zero (y ∷ xs) x h = cc
  drop-get_elem? (suc n) (y ∷ xs) x h = drop-get_elem? n xs x h

  pub drop_all : (n : ℕ) (xs : List A) → length xs ≤ n → drop n xs ≡ []
  drop_all zero [] h = refl
  drop_all zero (x ∷ xs) h = absurd (omega arith)
  drop_all (suc n) [] h = refl
  drop_all (suc n) (x ∷ xs) h = drop_all n xs (omega arith)

  pub get_elem?-some : (n : ℕ) (xs : List A) → n < length xs → (x : A) × (get_elem? xs n ≡ some x)
  get_elem?-some n [] h = absurd (omega arith)
  get_elem?-some zero (x ∷ xs) h = (x, refl)
  get_elem?-some (suc n) (x ∷ xs) h = get_elem?-some n xs (omega arith)

  pub get_elem?-get_or :
      (n : ℕ) (xs : List A) (x d : A) → get_elem? xs n ≡ some x → get_or xs n d ≡ x
  get_elem?-get_or n [] x d h = cc
  get_elem?-get_or zero (y ∷ xs) x d h = cc
  get_elem?-get_or (suc n) (y ∷ xs) x d h = get_elem?-get_or n xs x d h

  -- `s` is `k + n` and `k + m`, which do not compute.
  pub get_elem?-drop_add :
      (n k s : ℕ) (xs : List A) → k + n ≡ s → get_elem? (drop k xs) n ≡ get_elem? xs s
  get_elem?-drop_add n zero s xs h = let e : n ≡ s = omega arith in rw e refl
  get_elem?-drop_add n (suc k) zero xs h = absurd (omega arith)
  get_elem?-drop_add n (suc k) (suc s) [] h = refl
  get_elem?-drop_add n (suc k) (suc s) (x ∷ xs) h = get_elem?-drop_add n k s xs (omega arith)

  pub drop-drop : (m k s : ℕ) (xs : List A) → k + m ≡ s → drop m (drop k xs) ≡ drop s xs
  drop-drop m zero s xs h = let e : m ≡ s = omega arith in rw e refl
  drop-drop m (suc k) zero xs h = absurd (omega arith)
  drop-drop zero (suc k) (suc s) [] h = refl
  drop-drop (suc m) (suc k) (suc s) [] h = refl
  drop-drop m (suc k) (suc s) (x ∷ xs) h = drop-drop m k s xs (omega arith)

  pub drop-slice : (m n : ℕ) (xs : List A) → m ≤ n → drop m xs ≡ slice m n xs ++ drop n xs
  drop-slice m n xs h =
      sym (take-append-drop (n - m) (drop m xs))
      ∙ ap (λ r. take (n - m) (drop m xs) ++ r) (drop-drop (n - m) m n xs (omega arith))

  -- One more element at the end of a prefix.
  pub take_next :
      (n : ℕ) (xs : List A) (x : A)
      → get_elem? xs n ≡ some x
      → take (suc n) xs ≡ take n xs ++ x ∷ []
  take_next n [] x h = cc
  take_next zero (y ∷ xs) x h = cc
  take_next (suc n) (y ∷ xs) x h = ap (λ r. y ∷ r) (take_next n xs x h)

  pub take-length : (n : ℕ) (xs : List A) → length xs ≤ n → take n xs ≡ xs
  take-length zero [] h = refl
  take-length (suc n) [] h = refl
  take-length zero (x ∷ xs) h = absurd (omega arith)
  take-length (suc n) (x ∷ xs) h = ap (λ r. x ∷ r) (take-length n xs (omega arith))

  -- The elements of a slice are those of the list.
  pub All-slice {κ} :
      (P : A → Type κ) (m n : ℕ) (xs : List A)
      → ((k : ℕ) (x : A) → m ≤ k → k < n → get_elem? xs k ≡ some x → P x)
      → All P (slice m n xs)
  All-slice P m n xs h = all_taken (n - m) (drop m xs) λ k x b g.
      h (m + k) x (omega arith) (omega arith) (sym (get_elem?-drop_add k m (m + k) xs refl) ∙ g)
    where
      all_taken :
          (c : ℕ) (ys : List A)
          → ((k : ℕ) (x : A) → k < c → get_elem? ys k ≡ some x → P x)
          → All P (take c ys)
      all_taken zero ys k = tt
      all_taken (suc c) [] k = tt
      all_taken (suc c) (y ∷ ys) k =
          (k 0 y (omega arith) refl, all_taken c ys λ i x b g. k (suc i) x (omega arith) g)

  pub slice_next :
      (m n : ℕ) (xs : List A) (x : A)
      → m < n
      → get_elem? xs m ≡ some x
      → slice m n xs ≡ x ∷ slice (suc m) n xs
  slice_next m n xs x h g =
      subst (λ c. take c (drop m xs) ≡ x ∷ slice (suc m) n xs) {x = suc (n - suc m)} (omega arith)
        (taken m xs g)
    where
      taken :
          (k : ℕ) (ys : List A)
          → get_elem? ys k ≡ some x
          → take (suc (n - suc m)) (drop k ys) ≡ x ∷ take (n - suc m) (drop (suc k) ys)
      taken k [] g = cc
      taken zero (y ∷ ys) g = cc
      taken (suc k) (y ∷ ys) g = taken k ys g

  pub slice_nil : (m : ℕ) (xs : List A) → slice m m xs ≡ []
  slice_nil m xs = let e : m - m ≡ 0 = omega arith in rw e refl
