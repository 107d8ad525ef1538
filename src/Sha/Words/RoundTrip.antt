-- ===== src/Sha/Words/RoundTrip.antt =====
-- zkvm/sha256_proper.go: `digestWordsToBytes` and `digestBytesToWords` undo one another.
use go_zkvm.Base.{ℕ, zero, suc, ◌+◌, ◌*◌, ◌^◌, ◌<◌, ◌≡◌, refl, sym, ap, ◌∙◌, arith}
use go_zkvm.Base.{List, [], ◌∷◌, ◌++◌, append_assoc, length, length-append, All, take, drop}
use go_zkvm.Base.{drop-append}
use go_zkvm.Base.Bytes.{le_bytes, le_number, le_bytes-le_number}
use go_zkvm.Sha.Accelerator.{IsDigest}
use go_zkvm.Sha.Words.{words_bytes, get_words, digest_bytes_to_words, digest_words_to_bytes}
use go_zkvm.Sha.Words.{digest_words_to_bytes_lem, digest_bytes_to_words-words_bytes}

abbrev pub IsByte : ℕ → Type 0
IsByte b = b < 256

-- Reading the words of an encoded digest of eight 32-bit words gives the digest back.
pub digest_bytes_to_words-digest_words_to_bytes :
    (words : List ℕ) → IsDigest words → digest_bytes_to_words (digest_words_to_bytes words) ≡ words
digest_bytes_to_words-digest_words_to_bytes words (h, hw) =
    ap digest_bytes_to_words (digest_words_to_bytes_lem words h)
    ∙ digest_bytes_to_words-words_bytes words h hw

word_bytes :
    (a b c d : ℕ)
    → All IsByte (a ∷ b ∷ c ∷ d ∷ [])
    → le_bytes 4 (le_number (a ∷ b ∷ c ∷ d ∷ [])) ≡ a ∷ b ∷ c ∷ d ∷ []
word_bytes a b c d h = le_bytes-le_number (a ∷ b ∷ c ∷ d ∷ []) h

words_bytes-get_words :
    (front bytes : List ℕ) (i n : ℕ)
    → length front ≡ i * 4
    → length bytes ≡ 4 * n
    → All IsByte bytes
    → (words_bytes (get_words (front ++ bytes) i n) ≡ bytes)
      × (length (get_words (front ++ bytes) i n) ≡ n)
unfolding get_words
words_bytes-get_words front [] i zero hf hn h = (refl, refl)
words_bytes-get_words front (a ∷ bytes) i zero hf hn h = absurd (omega arith)
words_bytes-get_words front (a ∷ b ∷ c ∷ d ∷ bytes) i (suc n) hf hn (ha, (hb, (hc, (hd, h)))) =
    let word : List ℕ = a ∷ b ∷ c ∷ d ∷ [] in
    let (same, size) =
      words_bytes-get_words (front ++ word) bytes (i + 1) n
        (omega (arith, length-append front word)) (omega arith) h in
    let regroup : (front ++ word) ++ bytes ≡ front ++ (a ∷ b ∷ c ∷ d ∷ bytes) =
      append_assoc front word bytes in
    let tail_bytes : words_bytes (get_words (front ++ (a ∷ b ∷ c ∷ d ∷ bytes)) (i + 1) n) ≡ bytes =
      ap (λ t. words_bytes (get_words t (i + 1) n)) (sym regroup) ∙ same in
    (
      ap
            (λ t.
              le_bytes 4 (le_number (take 4 t))
              ++ words_bytes (get_words (front ++ (a ∷ b ∷ c ∷ d ∷ bytes)) (i + 1) n))
            (drop-append front (a ∷ b ∷ c ∷ d ∷ bytes) (i * 4) (omega arith))
          ∙ ap (λ t. t ++ words_bytes (get_words (front ++ (a ∷ b ∷ c ∷ d ∷ bytes)) (i + 1) n))
              (word_bytes a b c d (ha, (hb, (hc, (hd, tt)))))
          ∙ ap (λ t. word ++ t) tail_bytes,
      ap suc (ap (λ t. length (get_words t (i + 1) n)) (sym regroup) ∙ size),
    )
words_bytes-get_words front [] i (suc n) hf hn h = absurd (omega arith)
words_bytes-get_words front (a ∷ []) i (suc n) hf hn h = absurd (omega arith)
words_bytes-get_words front (a ∷ b ∷ []) i (suc n) hf hn h = absurd (omega arith)
words_bytes-get_words front (a ∷ b ∷ c ∷ []) i (suc n) hf hn h = absurd (omega arith)

-- Encoding the words that were read from 32 bytes gives the bytes back.
pub digest_words_to_bytes-digest_bytes_to_words :
    (bytes : List ℕ)
    → length bytes ≡ 32
    → All IsByte bytes
    → digest_words_to_bytes (digest_bytes_to_words bytes) ≡ bytes
unfolding digest_bytes_to_words
digest_words_to_bytes-digest_bytes_to_words bytes h hb =
    let (same, size) = words_bytes-get_words [] bytes 0 8 (omega arith) h hb in
    digest_words_to_bytes_lem (get_words bytes 0 8) size ∙ same

length-get_words : (bytes : List ℕ) (i n : ℕ) → length (get_words bytes i n) ≡ n
unfolding get_words
length-get_words bytes i zero = refl
length-get_words bytes i (suc n) = ap suc (length-get_words bytes (i + 1) n)

drop-All : (n : ℕ) (bytes : List ℕ) → All IsByte bytes → All IsByte (drop n bytes)
drop-All zero bytes h = h
drop-All (suc n) [] h = tt
drop-All (suc n) (b ∷ bytes) (hb, h) = drop-All n bytes h

word-lt : (bytes : List ℕ) → All IsByte bytes → le_number (take 4 bytes) < 2 ^ 32
word-lt [] h = omega arith
word-lt (a ∷ []) h = omega arith
word-lt (a ∷ b ∷ []) h = omega arith
word-lt (a ∷ b ∷ c ∷ []) h = omega arith
word-lt (a ∷ b ∷ c ∷ d ∷ bytes) (ha, (hb, (hc, (hd, h)))) = omega arith

get_words-All :
    (bytes : List ℕ) (i n : ℕ) → All IsByte bytes → All (λ w. w < 2 ^ 32) (get_words bytes i n)
unfolding get_words
get_words-All bytes i zero h = tt
get_words-All bytes i (suc n) h =
    (word-lt (drop (i * 4) bytes) (drop-All (i * 4) bytes h), get_words-All bytes (i + 1) n h)

-- The words read from bytes are eight 32-bit words.
pub digest_bytes_to_words-IsDigest :
    (bytes : List ℕ) → All IsByte bytes → IsDigest (digest_bytes_to_words bytes)
unfolding digest_bytes_to_words
digest_bytes_to_words-IsDigest bytes h = (length-get_words bytes 0 8, get_words-All bytes 0 8 h)
