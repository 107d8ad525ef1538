-- ===== src/Host/Files/Runs.antt =====
-- Runs of the wrappers.
use go_zkvm.Base.{ℕ, ◌≡◌, refl, ◌∙◌, String, List, [], ◌⊎◌}
use go_zkvm.Host.Loader.{Linker, Loader}
use go_zkvm.Host.Loader.Runs.{IsFresh}
use go_zkvm.Host.Messages.{receipt_kind_composite, receipt_kind_succinct}
use go_zkvm.Host.Failure.{Failure}
use go_zkvm.Host.Options.{RunOption, settings}
use go_zkvm.Host.Ffi.{Foreign, Decoded, decoded, undecodable, Answer, Run, returned, failure, M}
use go_zkvm.Host.Client.{Environment, Client, created, new_client, new_client-created}
use go_zkvm.Host.Calls.{Codec, image_id_request, execute_request, prove_request}
use go_zkvm.Host.Files.{with_client, compute_image_id_file}
use go_zkvm.Host.Files.{execute_file, prove_file}
use go_zkvm.Host.Library.{Service, IsCodec, IsLibrary, IsReady, Fits}
use go_zkvm.Host.Library.Exchange.{answer_of}
use go_zkvm.Host.Library.Operations.{execute-answer_of, prove-answer_of, compute_image_id-answer_of}
use go_zkvm.Host.Library.Ready.{IsLinker, IsComplete, load_ffi_library-IsReady}

-- A guest file that cannot be read ends each wrapper before the library is touched.
pub with_client_unreadable :
    {L : Linker} (F : Foreign L) (C : Codec) (E : Environment) (disk : String → Decoded (List ℕ))
    (path why : String) (stdin : List ℕ) (opts : List (RunOption F.Logger)) (s : Loader L)
    → disk path ≡ undecodable why
    → (compute_image_id_file F C E disk path s ≡ returned (failure (Failure.read_file why)) s)
      × (execute_file F C E disk path stdin opts s ≡ returned (failure (Failure.read_file why)) s)
      × (prove_file F C E disk path stdin opts s ≡ returned (failure (Failure.read_file why)) s)
unfolding compute_image_id_file execute_file prove_file
with_client_unreadable F C E disk path why stdin opts s e = (rw e refl, rw e refl, rw e refl)

module _ {L : Linker} {F : Foreign L} {C : Codec} {S : Service} (lib : IsLibrary L F C S)
    (codec : IsCodec C) (linker : IsLinker L lib.name_of) (E : Environment)
    (disk : String → Decoded (List ℕ)) where
  -- The first client of a process finds every symbol in place.
  pub new_client-IsReady :
      (s s' : Loader L) (c : Client)
      → IsFresh s
      → IsComplete L c.library_path
      → new_client E [] s ≡ (created c, s')
      → IsReady lib.name_of s'
  new_client-IsReady s s' c fresh complete h =
      load_ffi_library-IsReady linker s s' c.library_path complete fresh
        (new_client-created E [] s s' c h).1

  with_client_lem :
      {A : Type 0} (path : String) (guest : List ℕ) (call : Client → List ℕ → M (Loader L) A)
      (s s' : Loader L) (c : Client)
      → disk path ≡ decoded guest
      → new_client E [] s ≡ (created c, s')
      → with_client F C E disk path call s ≡ call c guest s'
  unfolding with_client
  with_client_lem path guest call s s' c ed en = rw (ed, en) refl

  -- A run's result, in the process as it is behind `New` but for the system, with the same buffers held.
  abbrev pub Gives : {A : Type 0} → Run (Loader L) A → Answer A → Loader L → Type 0
  Gives run r s' =
      (after : L.System) × (run ≡ returned r (record s' { system = after }))
      × (lib.buffers after ≡ lib.buffers s'.system)

  execute_file-answer_of :
      (path : String) (guest stdin : List ℕ) (opts : List (RunOption F.Logger)) (s s' : Loader L)
      (c : Client)
      → IsFresh s
      → IsComplete L c.library_path
      → disk path ≡ decoded guest
      → new_client E [] s ≡ (created c, s')
      → Fits F lib.name_of "go_zkvm_execute" C.marshal_execute
          (execute_request C (record { guest_binary = guest; stdin = stdin; assumptions = [] }))
      → Gives
          (execute_file F C E disk path stdin opts s)
          (answer_of C.format "execute" (λ r. r) (S.execute guest stdin []))
          s'
  unfolding execute_file
  execute_file-answer_of path guest stdin opts s s' c fresh complete ed en fits =
      let (after, ran, back) =
        execute-answer_of lib codec c
          (record { guest_binary = guest; stdin = stdin; assumptions = [] }) opts s'
          (new_client-IsReady s s' c fresh complete en) fits in
      (after, with_client_lem path guest _ s s' c ed en ∙ ran, back)

  prove_file-answer_of :
      (path : String) (guest stdin : List ℕ) (opts : List (RunOption F.Logger)) (s s' : Loader L)
      (c : Client)
      → IsFresh s
      → IsComplete L c.library_path
      → disk path ≡ decoded guest
      → new_client E [] s ≡ (created c, s')
      → ((settings opts).receipt_kind ≡ receipt_kind_composite)
        ⊎ ((settings opts).receipt_kind ≡ receipt_kind_succinct)
      → Fits F lib.name_of "go_zkvm_prove" C.marshal_prove (
          prove_request C
            (record { guest_binary = guest; stdin = stdin; assumptions = [] })
            (settings opts))
      → Gives
          (prove_file F C E disk path stdin opts s)
          (answer_of C.format "prove"
            (λ r. r)
            (S.prove guest stdin []
              (settings opts).receipt_self_verify
              (settings opts).receipt_kind))
          s'
  unfolding prove_file
  prove_file-answer_of path guest stdin opts s s' c fresh complete ed en kind fits =
      let (after, ran, back) =
        prove-answer_of lib codec c
          (record { guest_binary = guest; stdin = stdin; assumptions = [] }) opts s'
          (new_client-IsReady s s' c fresh complete en) kind fits in
      (after, with_client_lem path guest _ s s' c ed en ∙ ran, back)

  compute_image_id_file-answer_of :
      (path : String) (guest : List ℕ) (s s' : Loader L) (c : Client)
      → IsFresh s
      → IsComplete L c.library_path
      → disk path ≡ decoded guest
      → new_client E [] s ≡ (created c, s')
      → Fits F lib.name_of "go_zkvm_compute_image_id" C.marshal_compute_image_id
          (image_id_request C guest)
      → Gives
          (compute_image_id_file F C E disk path s)
          (answer_of C.format "compute_image_id" (λ r. r) (S.compute_image_id guest))
          s'
  unfolding compute_image_id_file
  compute_image_id_file-answer_of path guest s s' c fresh complete ed en fits =
      let (after, ran, back) =
        compute_image_id-answer_of lib codec c guest s'
          (new_client-IsReady s s' c fresh complete en) fits in
      (after, with_client_lem path guest _ s s' c ed en ∙ ran, back)

  -- In a process that has loaded nothing, with a library that serves a prover and has all six functions
  -- under the client's path, a dynamic linker that does what it documents, JSON and base64 that do not
  -- fail, and a response below 2 GiB to each of the three requests: once the guest file is read and the
  -- client is made, each of the three wrappers returns what the prover returns on the bytes
  -- of the file, `ComputeImageIDFile` the image ID, `ExecuteFile` the run on the given input and no
  -- assumptions, and `ProveFile` the proof of that run with the self-check and the receipt kind of
  -- the options, for a kind that is composite or succinct. The buffers that are held are those
  -- behind `New`.
  pub files-answer_of :
      (path : String) (guest stdin : List ℕ) (opts : List (RunOption F.Logger)) (s s' : Loader L)
      (c : Client)
      → IsFresh s
      → IsComplete L c.library_path
      → disk path ≡ decoded guest
      → new_client E [] s ≡ (created c, s')
      → ((settings opts).receipt_kind ≡ receipt_kind_composite)
        ⊎ ((settings opts).receipt_kind ≡ receipt_kind_succinct)
      → Fits F lib.name_of "go_zkvm_compute_image_id" C.marshal_compute_image_id
          (image_id_request C guest)
      → Fits F lib.name_of "go_zkvm_execute" C.marshal_execute
          (execute_request C (record { guest_binary = guest; stdin = stdin; assumptions = [] }))
      → Fits F lib.name_of "go_zkvm_prove" C.marshal_prove (
          prove_request C
            (record { guest_binary = guest; stdin = stdin; assumptions = [] })
            (settings opts))
      → (Gives
          (compute_image_id_file F C E disk path s)
          (answer_of C.format "compute_image_id" (λ r. r) (S.compute_image_id guest))
          s')
        × (Gives
            (execute_file F C E disk path stdin opts s)
            (answer_of C.format "execute" (λ r. r) (S.execute guest stdin []))
            s')
        × (Gives
            (prove_file F C E disk path stdin opts s)
            (answer_of C.format "prove"
              (λ r. r)
              (S.prove guest stdin []
                (settings opts).receipt_self_verify
                (settings opts).receipt_kind))
            s')
  files-answer_of path guest stdin opts s s' c fresh complete ed en kind fits_image_id fits_execute
        fits_prove =
      (
        compute_image_id_file-answer_of path guest s s' c fresh complete ed en fits_image_id,
        execute_file-answer_of path guest stdin opts s s' c fresh complete ed en fits_execute,
        prove_file-answer_of path guest stdin opts s s' c fresh complete ed en kind fits_prove,
      )
