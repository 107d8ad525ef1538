-- ===== src/Lib.antt =====
-- go-zkvm: a Go toolchain for zero-knowledge guests on the risc0 machine.
--
-- A guest is a Go program compiled by TinyGo for riscv32. It calls the package zkvm, which reads the
-- private input, commits bytes to the public journal, asserts the claims of other guests, and halts.
-- On the way the package keeps a running SHA-256 of the journal and a digest of the asserted claims;
-- `Halt` hands the machine one digest of both. Two commands pack a guest and a kernel ELF into one
-- R0BF container and unpack it again.
--
-- The parts, and the files that model them:
--   Base          lists, options, Booleans, bits and bytes that the parts share
--   Sha           zkvm/sha256_proper.go, the stateless part: Sha/Padding is computePaddedLength, alignUp
--                 and the padded buffer of shaBuffer and FinalizeProperHasher; Sha/Words the conversions
--                 between words and bytes; Sha/Hash shaBuffer and SumSHA256; Sha/Tagged taggedStruct,
--                 taggedStructWithData and taggedListCons
--   Journal       zkvm/sha256_proper.go, the stateful part: the record Globals is the package variables
--                 properHasher, properHasherInitialized and assumptionsDigestWords, and
--                 init_proper_hasher, update_proper_hasher, finalize_proper_hasher and
--                 add_assumption_digest take it and return it; Journal/State says what it stands for
--   Guest         zkvm/zkvm.go (Guest/Api) and zkvm/verify.go (Guest/Compose) as computations that read
--                 and write the package variables and the machine, and that return, halt, panic, or are
--                 stopped by the host; Guest/Session is a whole run, any sequence of Read, ReadValue,
--                 Write, WriteStderr, Print, Debug, CycleCount, Commit, CommitValue and Verify, and then
--                 Halt. A guest that itself calls the exported InitProperHasher, UpdateProperHasher,
--                 FinalizeProperHasher or SumSHA256 is not such a run
--   R0bf          convert_to_r0bf.go (R0bf/Convert) and extract_r0bf.go (R0bf/Extract) as computations
--                 on a file system that return, exit with a status, or panic; R0bf/RoundTrip joins them
--   Examples      examples/simple/main.go, examples/multiply/main.go, examples/policy_check/main.go
--   Host          the package host. Host/Loader: go_zkvm_host_load and loadFFILibrary of host/ffi_cgo.go,
--                 on one record of the C statics and loadedPath; Host/Loader/Missing is about a library that
--                 lacks a symbol. Host/Client: New of host/types.go and the lookup of the path. Host/Messages,
--                 Host/Options, Host/Failure: the requests, results, run options and errors. Host/Ffi:
--                 callJSON, the C buffers and decodeFFIError. Host/Calls:
--                 ComputeImageID, Execute, Prove and Verify. Host/Files: Close, ReadGuestFile and the
--                 wrappers that take a file. Host/Stub: host/ffi_nocgo.go. Host/Library: what the Rust
--                 library promises, as an abstract prover on plain bytes, and the proofs that the Go side
--                 implements it. Host/Process: any sequence of New and of the operations in one process
--   Prover        the Rust crates behind the host package: Prover/Core is host-core/src/lib.rs (execute, prove
--                 and verify, here core_execute, core_prove and core_verify), Prover/Boundary and Prover/Crate
--                 are host-ffi/src/lib.rs (the exported functions, invoke, go_zkvm_free_buffer) as a library
--                 that the loader can load; Prover/Instance shows that it is what Host/Library asks for,
--                 Prover/Responses how long its responses are, and Prover/Together joins both sides
--   Tests         a toy machine, disk, linker and prover on which the model runs, and the compression
--                 function of FIPS 180-4
--
-- How they interact: Guest/Api calls Journal on every commit and on halt, Guest/Compose calls Sha for
-- the claim and Journal to record it, Journal calls Sha for the padding and the tagged digests, and the
-- examples are written in Guest/Api. Host stands apart: it runs on the proving machine. Host/Client
-- calls Host/Loader, Host/Calls builds a request, passes it through Host/Ffi to a pointer that the
-- loader resolved, and decodes the response, and Host/Files joins the client and the calls.
--
-- Parameters. Sha/Accelerator is the two SHA syscalls: a compression of a block into a state of eight
-- words, and the iteration of it over a buffer. Guest/Platform is the other syscalls, with the
-- behaviour that docs/ecall-reference.md, docs/journal-digest.md and docs/tutorial.md give them; a run
-- has a registry of receipts, and sys_verify_integrity stops it at once when there is none for the
-- claim. R0bf/Files is the file operations of the os package; its IsReliable is a disk on which no
-- operation fails, and on which two paths that are different texts are different files: links and other
-- spellings of a path are left out. Host/Loader takes the dynamic linker, and Host/Client the
-- environment variables and path functions. Host/Ffi takes the library behind its pointers, the memory
-- that it hands out and the logger (Foreign), Host/Calls JSON and base64 (Codec), and Host/Files the
-- reading of a file. Host/Library/Ready states what dlopen, dlsym and dlerror document (IsLinker) and
-- that a library has the six functions of the interface (IsComplete), and Host/Library what the Go side
-- relies on: JSON and base64 do not fail on its own messages (IsCodec; base64 is taken on any list of
-- numbers, where Go's is on bytes), and the library answers a request with status 0 and a response or
-- with another status and an error, in a buffer that it holds until it is freed (IsLibrary).
-- Prover/Core takes risc0_zkvm, borsh and hex (Zkvm), whose calls may fail or panic and are functions
-- of their input, and Prover/Boundary serde_json and base64 (Serde). Prover/Crate states that the JSON
-- and base64 of both sides agree on their messages (IsWire); Prover/Receipts that borsh and hex read
-- back what they wrote (IsFaithful).
--
-- Bounds. An int of the guest is 32 bits wide and kept as its bit pattern; a uint64 is taken modulo
-- 2^64. The padded buffer is viewed through an array of 2^30 bytes, so a longer one panics. The trailer
-- holds the low 32 bits of the bit count alone, so the padding is that of FIPS 180-4 below 2^29 bytes.
-- The loop of UpdateProperHasher over whole blocks runs on fuel: each round takes 64 bytes, so as many
-- rounds as there are bytes are enough. A slice of the guest carries the address of its first element,
-- since the hasher tests it for alignment. A value that CommitValue commits is sliced out of an array
-- of 2^30 bytes, so a larger one panics. On the host the length of a response goes through a C int: the
-- results on the answer to a request suppose that the library's response to that request is below 2^31
-- bytes (Fits in Host/Library, Below in Prover/Crate), and Host/Ffi models what happens past that;
-- IsLibrary itself has no bound. The status of a call is the bit pattern of an int32. The two R0BF
-- commands are taken on a 64-bit machine: an int holds every uint32, and the sums of two lengths.
--
-- Not modelled. The scratch block shaBlockAligned is written in full before each use, so the block is
-- passed on directly. The progress lines of the commands, the text of their errors, and the C
-- prototypes carry no logic. The JSON field tags stand behind the parameter Codec. A step of
-- Host/Process is one whole call: the load holds loadMu, and the operations share no Go state, so what
-- two calls at once do inside the Rust library is not covered. Nor are the Rust command go-guest-host
-- and the build scripts. A panic outside catch_unwind, as in the serializer of an error, would abort
-- the process and is left out.
pub mod Base
pub mod Sha
pub mod Journal
pub mod Guest
pub mod R0bf
pub mod Examples
pub mod Host
pub mod Prover
mod Tests
