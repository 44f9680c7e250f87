-- ===== src/Lib.antt =====
-- A model of the packages of gomatrixcrypto that reconcile two servers' sets of Matrix events and that
-- commit to events and to room state, and of those that mint and verify server keys.
--
-- The parts and how they interact. A peer keeps a resident kernel (reconcile/resident.go): the level-0
-- accumulator of its events (reconcile/algebraic.go) and 32 strata of small sketches. To compare with a
-- remote digest, the client (reconcile/client.go) estimates the difference from the strata
-- (reconcile/triage.go) and asks for sketches of buckets of the space of short identifiers. The peer
-- validates the requests; the client decodes the difference of the sketches (reconcile/pinsketch.go over
-- the field of reconcile/gf64.go), and grows or splits the buckets that failed. The trees of package
-- merkle commit to the fields of an event (merkle/merkle.go, merkle/proof.go) and to the causal past of
-- one (merkle/causal.go, merkle/causal_proof.go); a redaction splits an event's content in two
-- (merkle/redaction.go). Package lthash (lthash/lthash.go) commits to the state of a room. What is hashed
-- or signed is Canonical JSON (matrixjson/canonical.go). A server's key (serverkey/serverkey.go) is named
-- after the hash of an object that holds a proof of work (cuckoo/cuckoo.go) in a graph of its own seed, and
-- signs the object that lists it (fndsa512/fndsa512.go); its private part is wrapped under a passphrase
-- (serverkey/privatekey.go).
--
-- The files, with the code that each is about:
--   Base: what Go and the standard library give: results with an error, slices, integers, exclusive or,
--     little- and big-endian words, slices.Sort and sort.Strings.
--   Reconcile/Field: MulBitwise, Mul.
--   Reconcile/Element: ElementHash, FromDigest32, MatrixEventDigest32 and FromMatrixEventID.
--   Reconcile/Accumulator: RoomAccumulator and its methods, VerifyResidual, VerifyGlobalResidual;
--     Etag: ETag.
--   Reconcile/Sketch: SyndromeSketch, its methods and its wire form.
--   Reconcile/PinSketch: the polynomials; Locator: reconstructSyndromes and berlekampMassey; Quadratic:
--     solveQuadraticForm; Factor: findRootsWithBudget and decodePinSketch.
--   Reconcile/Decode: DecodeElements and decodeAndVerifySketch.
--   Reconcile/Resident: ResidentKernel, Insert, Remove.
--   Reconcile/Triage: ValidateBucketRequests, EstimateDelta, DecodeBucketSketches.
--   Reconcile/Client: ReconciliationClient, SelectAction, BuildSketch; Transition: TransitionBucketBatch.
--   Merkle/Tree: merkleRoot, merkleRootAndPath, VerifyLeafPath, EventRoot, ContentHash.
--   Merkle/Causal: CausalSet with its proofs and their verifiers.
--   Merkle/Fields: Field, Header, Root, HeaderRoot, ComponentHash, LeafPath, FieldLeafHash, EventID.
--   Merkle/Redaction: RedactionRule, redactContent, SplitRedactionContent, deepEqual.
--   MatrixJson: Canonical; Object: maps with text keys.
--   Cuckoo: Config, siphash24, EdgeForNonce, Verify; Cycle: verifyCycle.
--   Fndsa512: Sign, Verify and their forms for digests. KeyId: SHA256, ShortID.
--   ServerKey/Profile: RegisterProfile and the registry. ServerKey/Numbers: uint64FromAny and its callers.
--   ServerKey/Object: the objects that are hashed and signed, KeyID, validateProof, SignFNDSA.
--   ServerKey/Verify: VerifyMintedFNDSAServerKey, VerifyFNDSASelfSignature.
--   ServerKey/PrivateKey: EncryptPrivateKey, DecryptPrivateKey, ReencryptPrivateKey.
--   LtHash: Hash, Insert, Remove, Replace, FromEntries, Bytes, Checksum.
--   Tests: runs at concrete inputs.
-- Below a component, the modules Laws, Bounds, Budget, Division, Sound, Requests, Batch, Estimate,
-- Select, Inside, Failed, Refine, Power, Path, Binding, Bits, Agree, Descent, Proofs, Order, Partner, Walk,
-- Verify of Cuckoo, Minted, Invariant and RoundTrip hold what is shown of it.
--
-- How the code is read. A byte array, a string and a digest are lists of bytes; an unsigned integer of w
-- bits is a number below 2 ^ w with its wrap-around written out; an int that may be negative is an
-- integer. A method that changes its receiver returns the new receiver with its error. A Go map of keys
-- is a list of keys, in the map's iteration order. The functions of packages outside the repository are
-- parameters: SHA3-256, SHAKE256, BLAKE2b, SHA-256, base64, the FN-DSA scheme, Argon2id and the
-- AEAD. A value of type any is what a type switch or the encoder's reflection sees of it, and the registry of profiles is a
-- state that each call takes. Randomness is the bytes that are read from the source.
--
-- Bounds and fuel. A loop that halves, divides or splits runs on fuel: power_loop, root_loop and path_loop
-- on the number of leaves, since each round doubles or each slice is shorter; mod_loop, div_loop and
-- gcd_loop on the lengths of polynomials, which shrink in each round; bucket_loop on the six rounds that
-- its guard allows; roots_loop on one more than the work left, since a round that pushes two factors spends work.
-- gcd_loop and roots_loop keep running out of fuel apart from their failures, and are shown not to. The
-- trie's recursion is on the height 256 - depth.
--
-- The walk over a cycle runs on fuel for each endpoint, since it leaves each edge at most once, and a
-- number of 64 bits has at most 20 digits.
--
-- Not modelled: the prover of cuckoo (cuckoo/cuckoo_prover.go) and the binding of a miner
-- (cuckoo/meanminer), left for later; GenerateKey, which
-- passes a call of the signature library on; the commands (cmd, tools), which are input and output around
-- the packages.
pub mod Base
pub mod Reconcile
pub mod Merkle
pub mod LtHash
pub mod MatrixJson
pub mod Cuckoo
pub mod Fndsa512
pub mod KeyId
pub mod ServerKey
pub mod Tests
