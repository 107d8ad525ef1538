-- ===== src/Base/Lists.antt =====
-- Lists measured and indexed by native numbers: slices, fixed arrays, and writes into them.
use Prim.Native.Nat.{ℕ, zero, suc, ◌+◌, ◌-◌, ◌≤◌, min}
use mathlib.Core.Path.{◌≡◌, refl, sym, ap, ◌∙◌}
use mathlib.Core.List.{List, [], ◌∷◌, ◌++◌}
use native.Mathlib.Omega.{arith}

module _ {ℓ} {A : Type ℓ} where
  abbrev pub length : List A → ℕ
  length [] = 0
  length (x ∷ xs) = suc (length xs)

  abbrev pub take : ℕ → List A → List A
  take zero xs = []
  take (suc n) [] = []
  take (suc n) (x ∷ xs) = x ∷ take n xs

  abbrev pub drop : ℕ → List A → List A
  drop zero xs = xs
  drop (suc n) [] = []
  drop (suc n) (x ∷ xs) = drop n xs

  abbrev pub replicate : ℕ → A → List A
  replicate zero a = []
  replicate (suc n) a = a ∷ replicate n a

  -- A write out of bounds changes nothing.
  abbrev pub set : List A → ℕ → A → List A
  set [] i v = []
  set (x ∷ xs) zero v = v ∷ xs
  set (x ∷ xs) (suc i) v = x ∷ set xs i v

  -- Go's `copy(dst, src)`: as many elements as the shorter of the two holds.
  abbrev pub copy : List A → List A → List A
  copy [] src = []
  copy (d ∷ dst) [] = d ∷ dst
  copy (d ∷ dst) (s ∷ src) = s ∷ copy dst src

  -- Go's `copy(dst[i:], src)`.
  abbrev pub copy_at : List A → ℕ → List A → List A
  copy_at dst zero src = copy dst src
  copy_at [] (suc i) src = []
  copy_at (d ∷ dst) (suc i) src = d ∷ copy_at dst i src

  abbrev pub All {κ} : (A → Type κ) → List A → Type κ
  All P [] = Unit {κ}
  All P (x ∷ xs) = P x × All P xs

abbrev pub concat {ℓ} : {A : Type ℓ} → List (List A) → List A
concat [] = []
concat (x ∷ xs) = x ++ concat xs

module _ {ℓ} {A : Type ℓ} where
  pub length-append : (xs ys : List A) → length (xs ++ ys) ≡ length xs + length ys
  length-append [] ys = omega arith
  length-append (x ∷ xs) ys = omega (arith, length-append xs ys)

  pub take-append-drop : (n : ℕ) (xs : List A) → take n xs ++ drop n xs ≡ xs
  take-append-drop zero xs = refl
  take-append-drop (suc n) [] = refl
  take-append-drop (suc n) (x ∷ xs) = ap (λ t. x ∷ t) (take-append-drop n xs)

  pub length-take : (n : ℕ) (xs : List A) → length (take n xs) ≡ min n (length xs)
  length-take zero xs = omega arith
  length-take (suc n) [] = omega arith
  length-take (suc n) (x ∷ xs) = omega (arith, length-take n xs)

  pub length-drop : (n : ℕ) (xs : List A) → length (drop n xs) ≡ length xs - n
  length-drop zero xs = omega arith
  length-drop (suc n) [] = omega arith
  length-drop (suc n) (x ∷ xs) = omega (arith, length-drop n xs)

  pub length-replicate : (n : ℕ) (a : A) → length (replicate n a) ≡ n
  length-replicate zero a = refl
  length-replicate (suc n) a = ap suc (length-replicate n a)

  pub length-set : (xs : List A) (i : ℕ) (v : A) → length (set xs i v) ≡ length xs
  length-set [] i v = refl
  length-set (x ∷ xs) zero v = refl
  length-set (x ∷ xs) (suc i) v = ap suc (length-set xs i v)

  pub length-copy : (dst src : List A) → length (copy dst src) ≡ length dst
  length-copy [] src = refl
  length-copy (d ∷ dst) [] = refl
  length-copy (d ∷ dst) (s ∷ src) = ap suc (length-copy dst src)

  pub length-copy_at :
      (dst : List A) (i : ℕ) (src : List A) → length (copy_at dst i src) ≡ length dst
  length-copy_at dst zero src = length-copy dst src
  length-copy_at [] (suc i) src = refl
  length-copy_at (d ∷ dst) (suc i) src = ap suc (length-copy_at dst i src)

  -- A split of a list at the length of its front.
  pub take-append : (xs ys : List A) (n : ℕ) → n ≡ length xs → take n (xs ++ ys) ≡ xs
  take-append [] ys zero h = refl
  take-append [] ys (suc n) h = absurd (omega arith)
  take-append (x ∷ xs) ys zero h = absurd (omega arith)
  take-append (x ∷ xs) ys (suc n) h = ap (λ t. x ∷ t) (take-append xs ys n (omega arith))

  pub drop-append : (xs ys : List A) (n : ℕ) → n ≡ length xs → drop n (xs ++ ys) ≡ ys
  drop-append [] ys zero h = refl
  drop-append [] ys (suc n) h = absurd (omega arith)
  drop-append (x ∷ xs) ys zero h = absurd (omega arith)
  drop-append (x ∷ xs) ys (suc n) h = drop-append xs ys n (omega arith)

  pub take_all : (n : ℕ) (xs : List A) → length xs ≤ n → take n xs ≡ xs
  take_all zero [] h = refl
  take_all zero (x ∷ xs) h = absurd (omega arith)
  take_all (suc n) [] h = refl
  take_all (suc n) (x ∷ xs) h = ap (λ t. x ∷ t) (take_all n xs (omega arith))

  pub drop_all : (n : ℕ) (xs : List A) → length xs ≤ n → drop n xs ≡ []
  drop_all zero [] h = refl
  drop_all zero (x ∷ xs) h = absurd (omega arith)
  drop_all (suc n) [] h = refl
  drop_all (suc n) (x ∷ xs) h = drop_all n xs (omega arith)

  -- A copy over a front of the same length replaces it and keeps the rest.
  pub copy-append :
      (front rest src : List A) → length front ≡ length src → copy (front ++ rest) src ≡ src ++ rest
  copy-append [] [] [] h = refl
  copy-append [] (r ∷ rest) [] h = refl
  copy-append [] rest (s ∷ src) h = absurd (omega arith)
  copy-append (x ∷ front) rest [] h = absurd (omega arith)
  copy-append (x ∷ front) rest (s ∷ src) h =
      ap (λ t. s ∷ t) (copy-append front rest src (omega arith))

  pub copy_at-append :
      (front rest src : List A) (i : ℕ)
      → i ≡ length front
      → copy_at (front ++ rest) i src ≡ front ++ copy rest src
  copy_at-append [] rest src zero h = refl
  copy_at-append [] rest src (suc i) h = absurd (omega arith)
  copy_at-append (x ∷ front) rest src zero h = absurd (omega arith)
  copy_at-append (x ∷ front) rest src (suc i) h =
      ap (λ t. x ∷ t) (copy_at-append front rest src i (omega arith))

  pub set-append :
      (front rest : List A) (x v : A) (i : ℕ)
      → i ≡ length front
      → set (front ++ (x ∷ rest)) i v ≡ front ++ (v ∷ rest)
  set-append [] rest x v zero h = refl
  set-append [] rest x v (suc i) h = absurd (omega arith)
  set-append (y ∷ front) rest x v zero h = absurd (omega arith)
  set-append (y ∷ front) rest x v (suc i) h =
      ap (λ t. y ∷ t) (set-append front rest x v i (omega arith))

  pub replicate-add : (m n : ℕ) (a : A) → replicate (m + n) a ≡ replicate m a ++ replicate n a
  replicate-add zero n a = ap (λ (k : ℕ). replicate k a) (omega arith)
  replicate-add (suc m) n a =
      let e : suc m + n ≡ suc (m + n) = omega arith in
      ap (λ (k : ℕ). replicate k a) e ∙ ap (λ t. a ∷ t) (replicate-add m n a)

  -- Equal concatenations with fronts of one length have equal parts.
  pub append_split :
      (xs ys xs' ys' : List A)
      → xs ++ ys ≡ xs' ++ ys'
      → length xs ≡ length xs'
      → (xs ≡ xs') × (ys ≡ ys')
  append_split xs ys xs' ys' e h = (
    sym (take-append xs ys (length xs) refl)
        ∙ ap (take (length xs)) e
        ∙ take-append xs' ys' (length xs) h,
    sym (drop-append xs ys (length xs) refl)
        ∙ ap (drop (length xs)) e
        ∙ drop-append xs' ys' (length xs) h,
  )

  pub All-append {κ} : (P : A → Type κ) (xs ys : List A) → All P xs → All P ys → All P (xs ++ ys)
  All-append P [] ys hx hy = hy
  All-append P (x ∷ xs) ys (h, hx) hy = (h, All-append P xs ys hx hy)

  pub All-split {κ} : (P : A → Type κ) (xs ys : List A) → All P (xs ++ ys) → All P xs × All P ys
  All-split P [] ys h = (tt, h)
  All-split P (x ∷ xs) ys (h, hs) = let (hx, hy) = All-split P xs ys hs in ((h, hx), hy)

  pub copy_le :
      (dst src : List A) → length src ≤ length dst → copy dst src ≡ src ++ drop (length src) dst
  copy_le [] [] h = refl
  copy_le [] (s ∷ src) h = absurd (omega arith)
  copy_le (d ∷ dst) [] h = refl
  copy_le (d ∷ dst) (s ∷ src) h = ap (λ t. s ∷ t) (copy_le dst src (omega arith))
