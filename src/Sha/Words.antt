-- ===== src/Sha/Words.antt =====
-- zkvm/sha256_proper.go: words to bytes and back, and the AppendUint32 loops.
pub mod RoundTrip
use go_zkvm.Base.{ℕ, zero, suc, ◌+◌, ◌*◌, ◌/◌, ◌^◌, ◌<◌, ◌≡◌, refl, sym, ap, ◌∙◌, arith}
use go_zkvm.Base.{List, [], ◌∷◌, ◌++◌, append_assoc, append-nil, length, length-append, All}
use go_zkvm.Base.{take, drop, take-append, drop-append, replicate, copy, copy_at, copy_at-append}
use go_zkvm.Base.{copy-append}
use go_zkvm.Base.Bytes.{
  le_bytes, le_number, length-le_bytes, le_number-le_bytes, le_bytes-le_number,
}

-- The little-endian bytes of a sequence of words.
abbrev pub words_bytes : List ℕ → List ℕ
words_bytes [] = []
words_bytes (w ∷ ws) = le_bytes 4 w ++ words_bytes ws

-- `for _, word := range words { b = binary.LittleEndian.AppendUint32(b, word) }`
pub append_words : List ℕ → List ℕ → List ℕ
append_words bytes [] = bytes
append_words bytes (w ∷ ws) = append_words (bytes ++ le_bytes 4 w) ws

-- The same loop under one over the digests.
pub append_digests : List ℕ → List (List ℕ) → List ℕ
append_digests bytes [] = bytes
append_digests bytes (d ∷ ds) = append_digests (append_words bytes d) ds

-- `for i, word := range words { binary.LittleEndian.PutUint32(digest[i*4:], word) }`
put_words : List ℕ → ℕ → List ℕ → List ℕ
put_words digest i [] = digest
put_words digest i (w ∷ ws) = put_words (copy_at digest (i * 4) (le_bytes 4 w)) (i + 1) ws

pub digest_words_to_bytes : List ℕ → List ℕ
unfolding put_words
digest_words_to_bytes words = put_words (replicate 32 0) 0 words

-- `words[i] = binary.LittleEndian.Uint32(digest[i*4:])` for the `n` rounds that are left.
get_words : List ℕ → ℕ → ℕ → List ℕ
get_words digest i zero = []
get_words digest i (suc n) = le_number (take 4 (drop (i * 4) digest)) ∷ get_words digest (i + 1) n

pub digest_bytes_to_words : List ℕ → List ℕ
unfolding get_words
digest_bytes_to_words digest = get_words digest 0 8

pub length-words_bytes : (ws : List ℕ) → length (words_bytes ws) ≡ 4 * length ws
length-words_bytes [] = omega arith
length-words_bytes (w ∷ ws) = omega (arith, length-words_bytes ws)

pub append_words_lem : (bytes ws : List ℕ) → append_words bytes ws ≡ bytes ++ words_bytes ws
unfolding append_words
append_words_lem bytes [] = sym (append-nil bytes)
append_words_lem bytes (w ∷ ws) =
    append_words_lem (bytes ++ le_bytes 4 w) ws ∙ append_assoc bytes (le_bytes 4 w) (words_bytes ws)

abbrev pub digests_bytes : List (List ℕ) → List ℕ
digests_bytes [] = []
digests_bytes (d ∷ ds) = words_bytes d ++ digests_bytes ds

pub append_digests_lem :
    (bytes : List ℕ) (ds : List (List ℕ)) → append_digests bytes ds ≡ bytes ++ digests_bytes ds
unfolding append_digests
append_digests_lem bytes [] = sym (append-nil bytes)
append_digests_lem bytes (d ∷ ds) =
    append_digests_lem (append_words bytes d) ds
    ∙ ap (λ t. t ++ digests_bytes ds) (append_words_lem bytes d)
    ∙ append_assoc bytes (words_bytes d) (digests_bytes ds)

put_words_lem :
    (front rest words : List ℕ) (i : ℕ)
    → length front ≡ i * 4
    → length rest ≡ 4 * length words
    → put_words (front ++ rest) i words ≡ front ++ words_bytes words
unfolding put_words
put_words_lem front [] [] i hf hr = refl
put_words_lem front (r ∷ rest) [] i hf hr = absurd (omega arith)
put_words_lem front (a ∷ b ∷ c ∷ d ∷ rest) (w ∷ ws) i hf hr =
    ap (λ t. put_words t (i + 1) ws)
      (copy_at-append front (a ∷ b ∷ c ∷ d ∷ rest) (le_bytes 4 w) (i * 4) (omega arith)
        ∙ ap (λ t. front ++ t) (copy-append (a ∷ b ∷ c ∷ d ∷ []) rest (le_bytes 4 w) (omega arith))
        ∙ sym (append_assoc front (le_bytes 4 w) rest))
    ∙ put_words_lem (front ++ le_bytes 4 w) rest ws (i + 1)
        (omega (arith, length-append front (le_bytes 4 w))) (omega arith)
    ∙ append_assoc front (le_bytes 4 w) (words_bytes ws)
put_words_lem front [] (w ∷ ws) i hf hr = absurd (omega arith)
put_words_lem front (a ∷ []) (w ∷ ws) i hf hr = absurd (omega arith)
put_words_lem front (a ∷ b ∷ []) (w ∷ ws) i hf hr = absurd (omega arith)
put_words_lem front (a ∷ b ∷ c ∷ []) (w ∷ ws) i hf hr = absurd (omega arith)

-- A digest of eight words is laid out in little-endian order, word by word.
pub digest_words_to_bytes_lem :
    (words : List ℕ) → length words ≡ 8 → digest_words_to_bytes words ≡ words_bytes words
unfolding digest_words_to_bytes
digest_words_to_bytes_lem words h =
    put_words_lem [] (replicate 32 0) words 0 (omega arith) (omega arith)

get_words_lem :
    (front words : List ℕ) (i n : ℕ)
    → length front ≡ i * 4
    → length words ≡ n
    → All (λ w. w < 2 ^ 32) words
    → get_words (front ++ words_bytes words) i n ≡ words
unfolding get_words
get_words_lem front [] i zero hf hn hw = refl
get_words_lem front [] i (suc n) hf hn hw = absurd (omega arith)
get_words_lem front (w ∷ ws) i zero hf hn hw = absurd (omega arith)
get_words_lem front (w ∷ ws) i (suc n) hf hn (hw, hws) =
    ap (λ t. le_number (take 4 t) ∷ get_words (front ++ words_bytes (w ∷ ws)) (i + 1) n)
      (drop-append front (words_bytes (w ∷ ws)) (i * 4) (omega arith))
    ∙ ap (λ (t : ℕ). t ∷ get_words (front ++ words_bytes (w ∷ ws)) (i + 1) n)
        (le_number-le_bytes 4 w (omega arith))
    ∙ ap (λ t. w ∷ get_words t (i + 1) n) (sym (append_assoc front (le_bytes 4 w) (words_bytes ws)))
    ∙ ap (λ t. w ∷ t)
        (get_words_lem (front ++ le_bytes 4 w) ws (i + 1) n
          (omega (arith, length-append front (le_bytes 4 w))) (omega arith) hws)

pub digest_bytes_to_words-words_bytes :
    (words : List ℕ)
    → length words ≡ 8
    → All (λ w. w < 2 ^ 32) words
    → digest_bytes_to_words (words_bytes words) ≡ words
unfolding digest_bytes_to_words
digest_bytes_to_words-words_bytes words h hw = get_words_lem [] words 0 8 (omega arith) h hw
