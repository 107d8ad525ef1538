-- ===== src/Sha/Tagged/Preimage.antt =====
-- What a tagged struct hashes: the layout is unambiguous, and the digest is total on short inputs.
use go_zkvm.Base.{ℕ, ◌+◌, ◌*◌, ◌%◌, ◌^◌, ◌<◌, ◌≡◌, refl, sym, ap, ◌∙◌, arith, String}
use go_zkvm.Base.{List, [], ◌∷◌, ◌++◌, append_assoc, length, length-append, append_split, All, some}
use go_zkvm.Base.Bytes.{ascii, le_bytes, le_number, le_number-le_bytes}
use go_zkvm.Sha.Accelerator.{Accelerator, IsLawful, IsDigest}
use go_zkvm.Sha.Words.{words_bytes, digests_bytes, append_words_lem, append_digests_lem}
use go_zkvm.Sha.Words.{length-words_bytes}
use go_zkvm.Sha.Hash.{sha256_init_state}
use go_zkvm.Sha.Hash.OneShot.{fips_hash, sha_buffer-fips, fips_hash-IsDigest, init_state-IsDigest}
use go_zkvm.Sha.Tagged.{tagged_bytes, tagged_list_cons, tagged_struct, tagged_struct_with_data}

abbrev pub IsWord : ℕ → Type 0
IsWord w = w < 2 ^ 32

-- The layout as one concatenation.
abbrev pub tagged_layout : List ℕ → List (List ℕ) → List ℕ → List ℕ
tagged_layout tag_digest digests scalars =
    (words_bytes tag_digest ++ (digests_bytes digests ++ words_bytes scalars))
    ++ le_bytes 2 (length digests % 2 ^ 16)

pub tagged_bytes_lem :
    (tag_digest : List ℕ) (digests : List (List ℕ)) (scalars : List ℕ)
    → tagged_bytes tag_digest digests scalars ≡ tagged_layout tag_digest digests scalars
unfolding tagged_bytes
tagged_bytes_lem t ds ss =
    ap (λ l. l ++ le_bytes 2 (length ds % 2 ^ 16))
      (append_words_lem _ ss
        ∙ ap (λ l. l ++ words_bytes ss) (append_digests_lem _ ds)
        ∙ ap (λ l. (l ++ digests_bytes ds) ++ words_bytes ss) (append_words_lem [] t)
        ∙ append_assoc (words_bytes t) (digests_bytes ds) (words_bytes ss))

length-digests_bytes :
    (ds : List (List ℕ)) → All IsDigest ds → length (digests_bytes ds) ≡ 32 * length ds
length-digests_bytes [] h = omega arith
length-digests_bytes (d ∷ ds) ((hd, _), h) = omega (
  arith,
  length-append (words_bytes d) (digests_bytes ds),
  length-words_bytes d,
  length-digests_bytes ds h,
)

word_inj : (v w : ℕ) → IsWord v → IsWord w → le_bytes 4 v ≡ le_bytes 4 w → v ≡ w
word_inj v w hv hw e =
    sym (le_number-le_bytes 4 v (omega arith))
    ∙ ap le_number e
    ∙ le_number-le_bytes 4 w (omega arith)

pub words_bytes_inj :
    (vs ws : List ℕ)
    → length vs ≡ length ws
    → All IsWord vs
    → All IsWord ws
    → words_bytes vs ≡ words_bytes ws
    → vs ≡ ws
words_bytes_inj [] [] h hv hw e = refl
words_bytes_inj [] (w ∷ ws) h hv hw e = absurd (omega arith)
words_bytes_inj (v ∷ vs) [] h hv hw e = absurd (omega arith)
words_bytes_inj (v ∷ vs) (w ∷ ws) h (hv, hvs) (hw, hws) e =
    let (first, rest) =
      append_split (le_bytes 4 v) (words_bytes vs) (le_bytes 4 w) (words_bytes ws) e refl in
    cc (word_inj v w hv hw first, words_bytes_inj vs ws (omega arith) hvs hws rest)

digests_bytes_inj :
    (ds es : List (List ℕ)) (ss ts : List ℕ)
    → length ds ≡ length es
    → All IsDigest ds
    → All IsDigest es
    → digests_bytes ds ++ words_bytes ss ≡ digests_bytes es ++ words_bytes ts
    → (ds ≡ es) × (words_bytes ss ≡ words_bytes ts)
digests_bytes_inj [] [] ss ts h hd he e = (refl, e)
digests_bytes_inj [] (x ∷ es) ss ts h hd he e = absurd (omega arith)
digests_bytes_inj (d ∷ ds) [] ss ts h hd he e = absurd (omega arith)
digests_bytes_inj (d ∷ ds) (x ∷ es) ss ts h ((nd, hd), hds) ((nx, hx), hes) e =
    let (first, rest) =
      append_split (words_bytes d) (digests_bytes ds ++ words_bytes ss) (words_bytes x)
        (digests_bytes es ++ words_bytes ts)
        (sym (append_assoc (words_bytes d) (digests_bytes ds) (words_bytes ss))
          ∙ e
          ∙ append_assoc (words_bytes x) (digests_bytes es) (words_bytes ts))
        (omega (arith, length-words_bytes d, length-words_bytes x)) in
    let (same, scalars) = digests_bytes_inj ds es ss ts (omega arith) hds hes rest in
    (cc (words_bytes_inj d x (nd ∙ sym nx) hd hx first, same), scalars)

-- Two tagged structs that hash the same bytes have the same tag digest, the same digests and the same
-- data words, provided that all are 32-bit words, digests have eight words, and neither has 2^16
-- digests or more.
pub tagged_bytes_inj :
    (t u : List ℕ) (ds es : List (List ℕ)) (ss ts : List ℕ)
    → IsDigest t
    → IsDigest u
    → All IsDigest ds
    → All IsDigest es
    → All IsWord ss
    → All IsWord ts
    → length ds < 2 ^ 16
    → length es < 2 ^ 16
    → tagged_bytes t ds ss ≡ tagged_bytes u es ts
    → (t ≡ u) × (ds ≡ es) × (ss ≡ ts)
tagged_bytes_inj t u ds es ss ts (nt, ht) (nu, hu) hds hes hss hts cd ce e = (
  words_bytes_inj t u (nt ∙ sym nu) ht hu front.0,
  middle.0,
  words_bytes_inj ss ts sizes hss hts middle.1,
)
  where
    body : List ℕ → List (List ℕ) → List ℕ → List ℕ
    body = λ a b c. words_bytes a ++ (digests_bytes b ++ words_bytes c)

    layouts : tagged_layout t ds ss ≡ tagged_layout u es ts
    layouts = sym (tagged_bytes_lem t ds ss) ∙ e ∙ tagged_bytes_lem u es ts

    count_ds : List ℕ
    count_ds = le_bytes 2 (length ds % 2 ^ 16)

    total : length (body t ds ss) ≡ length (body u es ts)
    total = omega (
      arith,
      ap length layouts,
      length-append (body t ds ss) (le_bytes 2 (length ds % 2 ^ 16)),
      length-append (body u es ts) (le_bytes 2 (length es % 2 ^ 16)),
    )

    split : (body t ds ss ≡ body u es ts) × (count_ds ≡ le_bytes 2 (length es % 2 ^ 16))
    split = append_split (body t ds ss) count_ds (body u es ts) _ layouts total

    counts : length ds ≡ length es
    counts = omega (
      arith,
      le_number-le_bytes 2 (length ds % 2 ^ 16) (omega arith),
      le_number-le_bytes 2 (length es % 2 ^ 16) (omega arith),
      ap le_number split.1,
    )

    front :
        (words_bytes t ≡ words_bytes u)
        × (digests_bytes ds ++ words_bytes ss ≡ digests_bytes es ++ words_bytes ts)
    front =
        append_split (words_bytes t) _ (words_bytes u) _ split.0
          (omega (arith, length-words_bytes t, length-words_bytes u))

    middle : (ds ≡ es) × (words_bytes ss ≡ words_bytes ts)
    middle = digests_bytes_inj ds es ss ts counts hds hes front.1

    sizes : length ss ≡ length ts
    sizes = omega (arith, length-words_bytes ss, length-words_bytes ts, ap length middle.1)

-- The digest of a tagged struct: the standard hash of the standard hash of the tag, the digests, the
-- words and the count.
abbrev pub tagged_digest : Accelerator → String → List (List ℕ) → List ℕ → List ℕ
tagged_digest acc tag digests scalars =
    fips_hash acc sha256_init_state
      (tagged_layout (fips_hash acc sha256_init_state (ascii tag)) digests scalars)

-- `taggedStructWithData` returns, without a panic, the digest of the risc0 convention
-- SHA256(SHA256(tag) || digests || words || count), for a tag of less than 2^29 bytes and digests and
-- words of less than 2^29 - 34 bytes together.
pub tagged_struct_with_data-eq :
    (acc : Accelerator) (tag : String) (digests : List (List ℕ)) (scalars : List ℕ)
    → IsLawful acc
    → All IsDigest digests
    → length (ascii tag) < 2 ^ 29
    → 32 * length digests + 4 * length scalars + 34 < 2 ^ 29
    → tagged_struct_with_data acc tag digests scalars ≡ some (tagged_digest acc tag digests scalars)
unfolding tagged_struct_with_data
tagged_struct_with_data-eq acc tag ds ss law hds ht hs =
    rw (sha_buffer-fips acc sha256_init_state (ascii tag) ht) (
      rw (tagged_bytes_lem tag_digest ds ss)
        (sha_buffer-fips acc sha256_init_state (tagged_layout tag_digest ds ss) short))
  where
    tag_digest : List ℕ
    tag_digest = fips_hash acc sha256_init_state (ascii tag)

    eight : length tag_digest ≡ 8
    eight = (fips_hash-IsDigest acc sha256_init_state (ascii tag) law init_state-IsDigest).0

    short : length (tagged_layout tag_digest ds ss) < 2 ^ 29
    short = omega (
      arith,
      eight,
      length-append (words_bytes tag_digest ++ (digests_bytes ds ++ words_bytes ss))
          (le_bytes 2 (length ds % 2 ^ 16)),
      length-append (words_bytes tag_digest) (digests_bytes ds ++ words_bytes ss),
      length-append (digests_bytes ds) (words_bytes ss),
      length-words_bytes tag_digest,
      length-words_bytes ss,
      length-digests_bytes ds hds,
    )

-- A tagged digest is eight 32-bit words.
pub tagged_digest-IsDigest :
    (acc : Accelerator) (tag : String) (digests : List (List ℕ)) (scalars : List ℕ)
    → IsLawful acc
    → IsDigest (tagged_digest acc tag digests scalars)
tagged_digest-IsDigest acc tag ds ss law =
    fips_hash-IsDigest acc sha256_init_state
      (tagged_layout (fips_hash acc sha256_init_state (ascii tag)) ds ss) law init_state-IsDigest

-- The same for `taggedStruct`.
pub tagged_struct-eq :
    (acc : Accelerator) (tag : String) (digests : List (List ℕ))
    → IsLawful acc
    → All IsDigest digests
    → length (ascii tag) < 2 ^ 29
    → 32 * length digests + 34 < 2 ^ 29
    → tagged_struct acc tag digests ≡ some (tagged_digest acc tag digests [])
unfolding tagged_struct
tagged_struct-eq acc tag ds law hds ht hs =
    tagged_struct_with_data-eq acc tag ds [] law hds ht (omega arith)

pub tagged_list_cons-eq :
    (acc : Accelerator) (tag : String) (head tail : List ℕ)
    → IsLawful acc
    → IsDigest head
    → IsDigest tail
    → length (ascii tag) < 2 ^ 29
    → tagged_list_cons acc tag head tail ≡ some (tagged_digest acc tag (head ∷ tail ∷ []) [])
unfolding tagged_list_cons
tagged_list_cons-eq acc tag head tail law hh ht short =
    tagged_struct-eq acc tag (head ∷ tail ∷ []) law (hh, (ht, tt)) short (omega arith)
