-- ===== src/Tests/Json.antt =====
-- A reversible encoding of the messages, which stands in for JSON on both sides.
use go_zkvm.Base.{ℕ, zero, suc, ◌≡◌, refl, Bool, true, false}
use go_zkvm.Base.{List, [], ◌∷◌, length, ◌⊎◌, inl, inr}
use Prim.Native.Nat.{Ordering, compare as compare_ℕ}
use Prim.Native.Char.{Char, char, code, nul, IsLt, IsScalar}
use Prim.Native.String.{String, [] as no_text, ◌∷◌ as char_then}
use text.Mathlib.TextEquality.{Char-path}

-- Whether three comparisons say that a number is a character's.
abbrev Both : Ordering → Ordering → Type 0
Both Ordering.lt o = IsLt o
Both Ordering.eq o = ⊥
Both Ordering.gt o = ⊥

abbrev Scalar : Ordering → Ordering → Ordering → Type 0
Scalar Ordering.lt o p = Unit {0}
Scalar Ordering.eq o p = Both o p
Scalar Ordering.gt o p = Both o p

IsLt-dec : (o : Ordering) → IsLt o ⊎ (IsLt o → ⊥)
IsLt-dec Ordering.lt = inl tt
IsLt-dec Ordering.eq = inr (λ p. p)
IsLt-dec Ordering.gt = inr (λ p. p)

Both-dec : (o p : Ordering) → Both o p ⊎ (Both o p → ⊥)
Both-dec Ordering.lt p = IsLt-dec p
Both-dec Ordering.eq p = inr (λ q. q)
Both-dec Ordering.gt p = inr (λ q. q)

Scalar-dec : (o p q : Ordering) → Scalar o p q ⊎ (Scalar o p q → ⊥)
Scalar-dec Ordering.lt p q = inl tt
Scalar-dec Ordering.eq p q = Both-dec p q
Scalar-dec Ordering.gt p q = Both-dec p q

IsScalar-dec : (n : ℕ) → IsScalar n ⊎ (IsScalar n → ⊥)
IsScalar-dec n = Scalar-dec (compare_ℕ n 55296) (compare_ℕ 57343 n) (compare_ℕ n 1114112)

char_if : (n : ℕ) → IsScalar n ⊎ (IsScalar n → ⊥) → Char
char_if n (inl p) = char n p
char_if n (inr p) = nul

to_char : ℕ → Char
to_char n = char_if n (IsScalar-dec n)

char_if-code : (c : Char) (d : IsScalar (code c) ⊎ (IsScalar (code c) → ⊥)) → char_if (code c) d ≡ c
unfolding char_if
char_if-code (char n p) (inl q) = Char-path (char n q) (char n p) refl
char_if-code (char n p) (inr q) = absurd (q p)

to_char-code : (c : Char) → to_char (code c) ≡ c
unfolding to_char
to_char-code c = char_if-code c (IsScalar-dec (code c))

-- Each part is written in front of the rest.
unfoldable pub size : String → ℕ
size no_text = 0
size (char_then c t) = suc (size t)

unfoldable pub put_chars : String → List ℕ → List ℕ
put_chars no_text rest = rest
put_chars (char_then c t) rest = code c ∷ put_chars t rest

unfoldable pub put_text : String → List ℕ → List ℕ
put_text t rest = size t ∷ put_chars t rest

get_chars : ℕ → List ℕ → String × List ℕ
get_chars zero bytes = (no_text, bytes)
get_chars (suc n) [] = (no_text, [])
get_chars (suc n) (b ∷ bytes) = let (t, rest) = get_chars n bytes in (char_then (to_char b) t, rest)

pub get_text : List ℕ → String × List ℕ
get_text [] = (no_text, [])
get_text (n ∷ bytes) = get_chars n bytes

get_chars-put_chars :
    (t : String) (rest : List ℕ) → get_chars (size t) (put_chars t rest) ≡ (t, rest)
unfolding get_chars put_chars size
get_chars-put_chars no_text rest = refl
get_chars-put_chars (char_then c t) rest = rw (get_chars-put_chars t rest, to_char-code c) refl

pub get_text-put_text : (t : String) (rest : List ℕ) → get_text (put_text t rest) ≡ (t, rest)
unfolding get_text put_text
get_text-put_text t rest = get_chars-put_chars t rest

unfoldable pub put_all : List String → List ℕ → List ℕ
put_all [] rest = rest
put_all (t ∷ ts) rest = put_text t (put_all ts rest)

get_all : ℕ → List ℕ → List String × List ℕ
get_all zero bytes = ([], bytes)
get_all (suc n) bytes =
    let (t, after) = get_text bytes in let (ts, rest) = get_all n after in (t ∷ ts, rest)

unfoldable pub put_texts : List String → List ℕ → List ℕ
put_texts ts rest = length ts ∷ put_all ts rest

pub get_texts : List ℕ → List String × List ℕ
get_texts [] = ([], [])
get_texts (n ∷ bytes) = get_all n bytes

get_all-put_all :
    (ts : List String) (rest : List ℕ) → get_all (length ts) (put_all ts rest) ≡ (ts, rest)
unfolding get_all put_all
get_all-put_all [] rest = refl
get_all-put_all (t ∷ ts) rest =
    rw (get_text-put_text t (put_all ts rest), get_all-put_all ts rest) refl

pub get_texts-put_texts :
    (ts : List String) (rest : List ℕ) → get_texts (put_texts ts rest) ≡ (ts, rest)
unfolding get_texts put_texts
get_texts-put_texts ts rest = get_all-put_all ts rest

-- Numbers and tests.
abbrev pub get_number : List ℕ → ℕ × List ℕ
get_number [] = (0, [])
get_number (n ∷ bytes) = (n, bytes)

abbrev pub put_bool : Bool → List ℕ → List ℕ
put_bool true rest = 1 ∷ rest
put_bool false rest = 0 ∷ rest

abbrev pub get_bool : List ℕ → Bool × List ℕ
get_bool [] = (false, [])
get_bool (zero ∷ bytes) = (false, bytes)
get_bool (suc n ∷ bytes) = (true, bytes)

pub get_bool-put_bool : (b : Bool) (rest : List ℕ) → get_bool (put_bool b rest) ≡ (b, rest)
get_bool-put_bool true rest = refl
get_bool-put_bool false rest = refl
