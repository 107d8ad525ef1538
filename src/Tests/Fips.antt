-- ===== src/Tests/Fips.antt =====
-- The compression function of FIPS 180-4, and the hash of "abc" with it.
use Prim.Native.Nat.{bit_xor}
use go_zkvm.Base.{
  ℕ, zero, suc, ◌+◌, ◌-◌, ◌*◌, ◌/◌, ◌%◌, ◌^◌, bit_and, ◌≡◌, List, [], ◌∷◌, ◌++◌, take, drop,
}
use go_zkvm.Base.{arith, some}
use go_zkvm.Sha.Accelerator.{Accelerator}
use go_zkvm.Sha.Hash.{sha256_init_state, sha_buffer}
use go_zkvm.Sha.Hash.OneShot.{sha_buffer-fips}

abbrev round_constants : List ℕ
round_constants =
    0x428a2f98 ∷ 0x71374491 ∷ 0xb5c0fbcf ∷ 0xe9b5dba5 ∷ 0x3956c25b ∷ 0x59f111f1 ∷ 0x923f82a4
    ∷ 0xab1c5ed5 ∷ 0xd807aa98 ∷ 0x12835b01 ∷ 0x243185be ∷ 0x550c7dc3 ∷ 0x72be5d74 ∷ 0x80deb1fe
    ∷ 0x9bdc06a7 ∷ 0xc19bf174 ∷ 0xe49b69c1 ∷ 0xefbe4786 ∷ 0x0fc19dc6 ∷ 0x240ca1cc ∷ 0x2de92c6f
    ∷ 0x4a7484aa ∷ 0x5cb0a9dc ∷ 0x76f988da ∷ 0x983e5152 ∷ 0xa831c66d ∷ 0xb00327c8 ∷ 0xbf597fc7
    ∷ 0xc6e00bf3 ∷ 0xd5a79147 ∷ 0x06ca6351 ∷ 0x14292967 ∷ 0x27b70a85 ∷ 0x2e1b2138 ∷ 0x4d2c6dfc
    ∷ 0x53380d13 ∷ 0x650a7354 ∷ 0x766a0abb ∷ 0x81c2c92e ∷ 0x92722c85 ∷ 0xa2bfe8a1 ∷ 0xa81a664b
    ∷ 0xc24b8b70 ∷ 0xc76c51a3 ∷ 0xd192e819 ∷ 0xd6990624 ∷ 0xf40e3585 ∷ 0x106aa070 ∷ 0x19a4c116
    ∷ 0x1e376c08 ∷ 0x2748774c ∷ 0x34b0bcb5 ∷ 0x391c0cb3 ∷ 0x4ed8aa4a ∷ 0x5b9cca4f ∷ 0x682e6ff3
    ∷ 0x748f82ee ∷ 0x78a5636f ∷ 0x84c87814 ∷ 0x8cc70208 ∷ 0x90befffa ∷ 0xa4506ceb ∷ 0xbef9a3f7
    ∷ 0xc67178f2 ∷ []

rotate : ℕ → ℕ → ℕ
rotate n x = x / 2 ^ n + x % 2 ^ n * 2 ^ (32 - n)

xor3 : ℕ → ℕ → ℕ → ℕ
xor3 x y z = bit_xor (bit_xor x y) z

-- A word with its bytes in the other order.
swap : ℕ → ℕ
swap w = w % 256 * 2 ^ 24 + w / 256 % 256 * 2 ^ 16 + w / 2 ^ 16 % 256 * 2 ^ 8 + w / 2 ^ 24 % 256

swap_all : List ℕ → List ℕ
unfolding swap
swap_all [] = []
swap_all (w ∷ ws) = swap w ∷ swap_all ws

block_words : List ℕ → List ℕ
block_words (a ∷ b ∷ c ∷ d ∷ rest) = (a * 2 ^ 24 + b * 2 ^ 16 + c * 2 ^ 8 + d) ∷ block_words rest
block_words bytes = []

-- The window of the message schedule, one word further.
schedule : List ℕ → List ℕ
unfolding rotate xor3
schedule
      (w0 ∷ w1 ∷ w2 ∷ w3 ∷ w4 ∷ w5 ∷ w6 ∷ w7 ∷ w8 ∷ w9 ∷ w10 ∷ w11 ∷ w12 ∷ w13 ∷ w14 ∷ w15 ∷ []) =
    let s0 = xor3 (rotate 7 w1) (rotate 18 w1) (w1 / 2 ^ 3) in
    let s1 = xor3 (rotate 17 w14) (rotate 19 w14) (w14 / 2 ^ 10) in
    w1
    ∷ w2
    ∷ w3
    ∷ w4
    ∷ w5
    ∷ w6
    ∷ w7
    ∷ w8
    ∷ w9
    ∷ w10
    ∷ w11
    ∷ w12
    ∷ w13
    ∷ w14
    ∷ w15
    ∷ (s1 + w9 + s0 + w0) % 2 ^ 32
    ∷ []
schedule ws = []

round : ℕ → List ℕ → List ℕ → List ℕ
unfolding rotate xor3
round k (w ∷ ws) (a ∷ b ∷ c ∷ d ∷ e ∷ f ∷ g ∷ h ∷ []) =
    let choice = bit_xor (bit_and e f) (bit_and (2 ^ 32 - 1 - e) g) in
    let majority = xor3 (bit_and a b) (bit_and a c) (bit_and b c) in
    let t1 = h + xor3 (rotate 6 e) (rotate 11 e) (rotate 25 e) + choice + k + w in
    let t2 = xor3 (rotate 2 a) (rotate 13 a) (rotate 22 a) + majority in
    (t1 + t2) % 2 ^ 32 ∷ a ∷ b ∷ c ∷ (d + t1) % 2 ^ 32 ∷ e ∷ f ∷ g ∷ []
round k ws state = []

rounds : List ℕ → List ℕ → List ℕ → List ℕ
unfolding round schedule
rounds [] ws state = state
rounds (k ∷ ks) ws state = rounds ks (schedule ws) (round k ws state)

add_all : List ℕ → List ℕ → List ℕ
add_all (x ∷ xs) (y ∷ ys) = (x + y) % 2 ^ 32 ∷ add_all xs ys
add_all xs ys = []

unfoldable pub fips_compress : List ℕ → List ℕ → List ℕ → List ℕ
unfolding swap_all block_words rounds add_all
fips_compress state front back =
    let start = swap_all state in
    swap_all (add_all start (rounds round_constants (block_words (front ++ back)) start))

abbrev fips_buffer : List ℕ → List ℕ → ℕ → List ℕ
fips_buffer state bytes zero = state
fips_buffer state bytes (suc n) =
    fips_buffer (fips_compress state (take 32 bytes) (take 32 (drop 32 bytes))) (drop 64 bytes) n

abbrev pub fips : Accelerator
fips = record { compress = fips_compress; buffer = fips_buffer }

-- The message "abc" of the examples of FIPS 180-4. The words have their bytes in memory order.
abc_words :
    sha_buffer fips sha256_init_state (0x61 ∷ 0x62 ∷ 0x63 ∷ [])
    ≡ some (
        3205920954 ∷ 3939434895 ∷ 3728752961 ∷ 589475421 ∷ 2741044144 ∷ 2625247126 ∷ 1644105908
        ∷ 2903834866 ∷ [])
unfolding fips_compress swap_all block_words rounds add_all round schedule rotate xor3 swap
abc_words = sha_buffer-fips fips sha256_init_state (0x61 ∷ 0x62 ∷ 0x63 ∷ []) (omega arith)
