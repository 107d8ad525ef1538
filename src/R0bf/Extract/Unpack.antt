-- ===== src/R0bf/Extract/Unpack.antt =====
-- What the unpacker finds in a container, and what it can say of any file.
use go_zkvm.Base.{ℕ, ◌+◌, ◌-◌, ◌≤◌, ◌≡◌, refl, sym, ap, ◌∙◌, arith, not}
use go_zkvm.Base.{List, [], ◌++◌, append_assoc, length, length-append, take, drop, some}
use go_zkvm.Base.{
  length-take, length-drop, take-append-drop, drop-drop, take-append_le, drop-append_le,
}
use mathlib.Core.Path.{ap₂}
use go_zkvm.Base.Bytes.{ascii, le_number}
use go_zkvm.R0bf.Files.{Bytes, returned, slice, slice_from, same_bytes, slice_at, slice_from_at}
use go_zkvm.R0bf.Files.{lift, exit_if}
use go_zkvm.R0bf.Files.{
  then_run-eq-returned, returned_inj, lift-eq-returned, slice-eq-some, slice_from-eq-some,
}
use go_zkvm.R0bf.Extract.{unpack}

-- A well-formed container, whatever its version, its header and the capacity behind it, is taken apart
-- into the user ELF, as long as its length field says, and the kernel ELF, which is all the rest.
pub unpack-eq :
    {Fs : Type 0} (fs : Fs) (s : Bytes) (version header_len fields user_len rest : List ℕ)
    → s.elems ≡ ascii "R0BF" ++ (version ++ (header_len ++ (fields ++ (user_len ++ rest))))
    → length version ≡ 4
    → length header_len ≡ 4
    → le_number header_len ≡ length fields
    → length user_len ≡ 4
    → le_number user_len ≤ length rest
    → unpack s fs ≡ returned (take (le_number user_len) rest, drop (le_number user_len) rest) fs
unfolding unpack
unpack-eq fs s version header_len fields user_len rest e hv hh hf hu fits = rw (
  slice_at s [] magic _ 0 4 e refl (omega arith),
  slice_at s magic version _ 4 8 e (omega arith) (omega arith),
  slice_at s front2 header_len _ 8 12 e2 (omega (arith, size2)) (omega arith),
  slice_at s front4 user_len rest (12 + le_number header_len) (12 + le_number header_len + 4) e4
      (omega (arith, size4)) (omega arith),
  slice_at s front5 user kernel (12 + le_number header_len + 4) (12 + le_number header_len + 4 + n)
      e5 (omega (arith, size5)) (omega (arith, user_size)),
  slice_from_at s (front5 ++ user) kernel (12 + le_number header_len + 4 + n)
      (e5 ∙ sym (append_assoc front5 user kernel))
      (omega (arith, size5, user_size, length-append front5 user)),
)
  where
    n : ℕ
    n = le_number user_len

    magic : List ℕ
    magic = ascii "R0BF"

    user : List ℕ
    user = take n rest

    kernel : List ℕ
    kernel = drop n rest

    front2 : List ℕ
    front2 = magic ++ version

    front3 : List ℕ
    front3 = front2 ++ header_len

    front4 : List ℕ
    front4 = front3 ++ fields

    front5 : List ℕ
    front5 = front4 ++ user_len

    e2 : s.elems ≡ front2 ++ (header_len ++ (fields ++ (user_len ++ rest)))
    e2 = e ∙ sym (append_assoc magic version _)

    e4 : s.elems ≡ front4 ++ (user_len ++ rest)
    e4 = e2 ∙ sym (append_assoc front2 header_len _) ∙ sym (append_assoc front3 fields _)

    e5 : s.elems ≡ front5 ++ (user ++ kernel)
    e5 =
        e4
        ∙ sym (append_assoc front4 user_len rest)
        ∙ ap (λ t. front5 ++ t) (sym (take-append-drop n rest))

    user_size : length user ≡ n
    user_size = omega (arith, length-take n rest)

    size2 : length front2 ≡ 8
    size2 = omega (arith, length-append magic version)

    size4 : length front4 ≡ 12 + length fields
    size4 = omega (arith, length-append front2 header_len, length-append front3 fields, size2)

    size5 : length front5 ≡ 16 + length fields
    size5 = omega (arith, length-append front4 user_len, size4)

-- Two slices that meet, and reach the end, are the end of the file.
slices_meet :
    (s : Bytes) (at n : ℕ) (user kernel : List ℕ)
    → slice s at (at + n) ≡ some user
    → slice_from s (at + n) ≡ some kernel
    → (s.elems ≡ take at s.elems ++ (user ++ kernel)) × (at ≤ length s.elems)
slices_meet s at n user kernel eu ek = (
  sym (take-append-drop at s.elems)
      ∙ ap (λ t. take at s.elems ++ t)
          (sym (take-append-drop n (drop at s.elems))
            ∙ ap (λ t. t ++ drop n (drop at s.elems)) (sym user_inside)
            ∙ ap (λ t. user ++ t)
                (drop-drop n at (at + n) s.elems refl ∙ sym (slice_from-eq-some s (at + n) ek).0)),
  omega (arith, inside),
)
  where
    inside : at + n ≤ length s.elems
    inside = (slice_from-eq-some s (at + n) ek).1

    user_inside : user ≡ take n (drop at s.elems)
    user_inside =
        (slice-eq-some s at (at + n) eu).0
        ∙ ap (λ (k : ℕ). take k (drop at (s.elems ++ s.spare))) {x = at + n - at} {y = n}
            (omega arith)
        ∙ ap (take n) (drop-append_le at s.elems s.spare (omega (arith, inside)))
        ∙ take-append_le n (drop at s.elems) s.spare (omega (arith, inside, length-drop at s.elems))

-- Whatever the file and its capacity: when the unpacker returns, the file is some 16 bytes or more,
-- then the user ELF, then the kernel ELF, and nothing else. So it takes no byte from behind the file,
-- and returns for no file shorter than 16 bytes.
pub unpack_sound :
    {Fs : Type 0} (fs end : Fs) (s : Bytes) (user kernel : List ℕ)
    → unpack s fs ≡ returned (user, kernel) end
    → (front : List ℕ) × (s.elems ≡ front ++ (user ++ kernel)) × (16 ≤ length front)
unfolding unpack
unpack_sound fs end s user kernel h =
    let (magic, f1, e1, h1) = then_run-eq-returned (lift (slice s 0 4) fs) _ h in
    let (_, f2, e2, h2) =
      then_run-eq-returned (exit_if (not (same_bytes magic (ascii "R0BF"))) f1) _ h1 in
    let (version, f3, e3, h3) = then_run-eq-returned (lift (slice s 4 8) f2) _ h2 in
    let (header_bytes, f4, e4, h4) = then_run-eq-returned (lift (slice s 8 12) f3) _ h3 in
    let at : ℕ = 12 + le_number header_bytes in
    let (len_bytes, f5, e5, h5) = then_run-eq-returned (lift (slice s at (at + 4)) f4) _ h4 in
    let n : ℕ = le_number len_bytes in
    let (user', f6, e6, h6) = then_run-eq-returned (lift (slice s (at + 4) (at + 4 + n)) f5) _ h5 in
    let (kernel', f7, e7, h7) = then_run-eq-returned (lift (slice_from s (at + 4 + n)) f6) _ h6 in
    let (split, room) =
      slices_meet s (at + 4) n user' kernel'
        (lift-eq-returned (slice s (at + 4) (at + 4 + n)) f5 e6).0
        (lift-eq-returned (slice_from s (at + 4 + n)) f6 e7).0 in
    let same : ◌≡◌ {A = List ℕ × List ℕ} (user', kernel') (user, kernel) = returned_inj h7 in
    (
      take (at + 4) s.elems,
      split
          ∙ ap₂ (λ a b. take (at + 4) s.elems ++ (a ++ b)) (ap (λ p. p.0) same)
              (ap (λ p. p.1) same),
      omega (arith, room, length-take (at + 4) s.elems),
    )
