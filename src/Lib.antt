-- ===== src/Lib.antt =====
-- Verification library of engine-web-adapter.
--
-- The adapter feeds multitrack audio (stems) to a browser audio engine: it downloads stems, checks
-- them against their declared identity, stores them, and serves fixed windows of canonical PCM.
--
-- Parts, and the files that model them:
--   Errors         src/errors.ts: the closed error codes with their phases, the error object, and the
--                  result type that stands for a thrown error
--   Json           the JavaScript values that validators receive: what isRecord, Array.isArray,
--                  Object.keys and Number.isSafeInteger see of them
--   Identity       src/stems/identity.ts: identity syntax and canonical PCM sizes
--   CanonicalJson  src/stems/canonical-json.ts: the sorted-key encoding
--   SparseFormat   src/stems/sparse-format.ts: the manifest of a sparse stem and validateManifest;
--                  the two loops of validateManifest are validate_intervals and validate_chunks of
--                  SparseFormat/Loops, and SparseFormat/Validate composes them;
--                  SparseFormat/Package has the header and the package, SparseFormat/Binding
--                  assertSparseStemSessionBinding
--   SparsePcm      src/stems/sparse-pcm.ts: the index of packed intervals and readSparsePcmWindow
--                  SparsePcm/Admit has validateSparsePcmIndex, SparsePcm/Derive deriveSparsePcmIndex
--   SparseResponse src/stems/sparse-response.ts: the cursor over one response; SparseResponse/Stream has
--                  the stream of bytes that it implements, SparseResponse/Borrow the scratch borrow
--   Store          src/stems/store.ts: VerifiedStemStore; Store has its index, checks and demotions,
--                  Store/Ingest the ingest and the reclamation, Store/Session sessions and leases
--   Admission      src/stems/flac-admission.ts: BoundedStemAdmission, the FIFO that decodes and
--                  verifications share; Admission/Steps has the orders of its method calls
--   AdmissionWidth src/stems/flac-admission.ts: flacAdmissionWidth and flacPipelineWidths
--   FlacMetadata   src/stems/native-flac-metadata.ts: NativeFlacMetadataScanner
--   FlacStreamInfo src/stems/native-flac-metadata.ts: parseNativeFlacStreamInfo
--   FlacInput      src/stems/flac-input-slot.ts: the slot shared by producer and consumer; `read` is one
--                  round of the consumer's loop
--   Sha256         src/stems/sha256.ts: IncrementalSha256; Sha256/Hasher has the class, Sha256/Padding the
--                  digest of a whole message
--   Pump           src/stems/pump.ts: CanonicalPcmPump over a verified lease; Pump has the methods on one
--                  source, Pump/Drive those on all, Pump/Orders the orders in which they run
--   MemoryStorage  src/stems/storage.ts: MemoryStemStorageBackend; a map is an association list
--   OutputCredits  src/stems/flac-output-credits.ts: FlacOutputCredits; OutputCredits/Sound has the orders
--                  of its calls by one worker
--   DecoderSource  src/stems/decoder-byte-source.ts: DecoderSource/Finite and Prepare have the methods of
--                  makeFiniteDecoderByteSource, DecoderSource/Ranged those of makeDecoderByteSource
--   Prelude        Boolean tests on numbers, lists and byte arrays over the native numbers
--
-- A throw is `err` of a Failure, a return is `ok`. A Uint8Array is a list of numbers; subarray clamps
-- and set_at writes inside the array. Numbers are safe integers: what is not one is a value of its
-- own (other_number), and the source's Number.isSafeInteger tests are kept. The comparison of texts
-- is the one of JavaScript strings on code units.
--
-- Loops are structural, or run on fuel: the binary search of firstIntersecting is given one more step
-- than the index has intervals, which its theorem shows to be enough; the loop of `update` over blocks
-- is given one more step than the input has bytes, and each takes at least 64.
--
-- The WebAssembly compression is a function argument, assumed to compute what compressJs does. The ring
-- that the pump writes is a package outside the repository, a record of operations about which nothing
-- is assumed; what the pump passes to `commit` is kept in a log. The bytes of a read are those of the
-- canonical PCM where their count is right, as the verified store promises, and a read may fail or
-- never settle. A sample is its numerator over 2^15 or 2^23. A pass that waits for reads is two steps,
-- and other steps come in between. The constructor's bounds on bytes and its sparse assets are left out.
--
-- A section of the store under one lock runs to its end before another starts, and a session ensures
-- one stem at a time; an abort while a lock is waited for, which leaves the disk as it is, is left
-- out. Each call of the store's backend is given the failure that it meets, if any; a
-- failed write of the index leaves the old one. The BLAKE3 of a content is a function argument, about
-- which nothing is assumed.
--
-- The promises of the admission are numbered tickets, and what the code resolves or rejects is a list
-- of settled tickets. An abort signal is a function from tickets to Bool, read where the code reads
-- signal.aborted.
--
-- The JSON parser with its UTF-8 decoder is an argument, about which nothing is assumed.
--
-- The replies of readBytes are a list, one for each call, so the loops that read are recursion on it; a
-- list that has run out is a read that fails. The loop over metadata blocks has 128 steps of fuel, the
-- limit of blocks. The reads of the sparse response run on fuel too, the number of bytes that are asked
-- for. The delivery of ranges is a function of the number of the call.
--
-- A call on shared memory runs to its end before another starts, so the model has no abort in the
-- middle of a read of the input slot.
--
-- Not modelled: browser calls (streams, workers, the file system, the audio graph) and the messages
-- between workers, the decoder package, BLAKE3 and the generated WebAssembly, the rebuild of a damaged
-- index and the recovery of the store at its opening, and the delivery, resolver and session layers,
-- which compose these parts with the browser.
pub mod Prelude
pub mod Errors
pub mod Json
pub mod Identity
pub mod CanonicalJson
pub mod SparsePcm
pub mod SparseFormat
pub mod Admission
pub mod AdmissionWidth
pub mod DecoderSource
pub mod FlacInput
pub mod FlacMetadata
pub mod FlacStreamInfo
pub mod MemoryStorage
pub mod OutputCredits
pub mod Pump
pub mod Sha256
pub mod SparseResponse
pub mod Store
