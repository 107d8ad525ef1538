-- ===== src/Tests/Coding.antt =====
-- A text for a list of numbers, which stands in for base64: for each number that many digits, and a comma.
use go_zkvm.Base.{ℕ, zero, suc, ◌+◌, ◌≡◌, refl, ap, ◌∙◌, arith, ◌==◌, Option, some, if◌then◌else◌}
use go_zkvm.Base.{List, [], ◌∷◌}
use Prim.Native.Char.{code}
use Prim.Native.String.{String, [] as no_text, ◌∷◌ as char_then}

unary : ℕ → String → String
unary zero t = char_then "," t
unary (suc n) t = char_then "1" (unary n t)

unfoldable pub to_text : List ℕ → String
unfolding unary
to_text [] = no_text
to_text (n ∷ ns) = unary n (to_text ns)

-- The digits that have been read so far come first.
unfoldable pub read_text : ℕ → String → List ℕ
read_text n no_text = []
read_text n (char_then c t) =
    let closed = read_text 0 t in
    let longer = read_text (suc n) t in if code c == b',' then n ∷ closed else longer

unfoldable pub of_text : String → Option (List ℕ)
of_text t = some (read_text 0 t)

read_text-unary : (m n : ℕ) (t : String) → read_text m (unary n t) ≡ (m + n) ∷ read_text 0 t
unfolding read_text unary
read_text-unary m zero t = ap (λ k. k ∷ read_text 0 t) (omega arith)
read_text-unary m (suc n) t =
    read_text-unary (suc m) n t ∙ ap (λ k. k ∷ read_text 0 t) (omega arith)

pub read_text-to_text : (ns : List ℕ) → read_text 0 (to_text ns) ≡ ns
unfolding read_text to_text
read_text-to_text [] = refl
read_text-to_text (n ∷ ns) =
    let same : 0 + n ≡ n = omega arith in
    read_text-unary 0 n (to_text ns)
    ∙ ap (λ k. k ∷ read_text 0 (to_text ns)) same
    ∙ ap (λ t. n ∷ t) (read_text-to_text ns)

pub of_text-to_text : (ns : List ℕ) → of_text (to_text ns) ≡ some ns
unfolding of_text
of_text-to_text ns = ap some (read_text-to_text ns)
