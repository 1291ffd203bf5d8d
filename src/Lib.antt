-- ===== src/Lib.antt =====
-- Verification of the prio crate: secure aggregation of measurements by two or more
-- servers with Verifiable Distributed Aggregation Functions (VDAFs).
--
-- The program. A client shards a measurement into input shares. The aggregators prepare the
-- shares together, in rounds: each has a prepare state, sends a prepare share, and the
-- shares of a round are combined to a prepare message that gives the next state or, in the
-- end, an output share. The output shares are summed to aggregate shares, and the collector
-- unshards these. `src/codec.rs` is the TLS-style serialization that everything sent goes
-- through, `src/vdaf.rs` has the traits of a VDAF, `src/vdaf/dummy.rs` a VDAF for tests,
-- `src/topology/ping_pong.rs` runs the preparation between a leader and a helper, and
-- `src/bt.rs` is the binary prefix tree of Mastic's and Poplar1's caches. The field
-- arithmetic of `src/fp64.rs` and `src/fp.rs` is under all the VDAFs that prove validity.
-- `src/idpf.rs` shares a function that has a value at the prefixes of one input and is zero
-- elsewhere: the core of Poplar1. `src/vidpf.rs` does so with a proof that the two servers
-- compare: the core of Mastic.
--
-- The files, with what they model:
--   Prelude            lists over native numbers, Boolean tests, and `Result`, the outcome of
--                      fallible code: `ok`, `err`, `panic` (an overflow check, an
--                      `unwrap` or a slice access that fails) and `stuck` (out of fuel)
--   Codec/Cursor       `CodecError`, `io::Cursor<&[u8]>` and usize arithmetic
--   Codec/Traits       the traits Encode, Decode, ParameterizedEncode, ParameterizedDecode as
--                      records, with their provided methods
--   Codec/Ints         the implementations for (), u8, u16, U24, u32 and u64
--   Codec/Items        encode_u8_items .. encode_u32_items and decode_u8_items ..
--                      decode_u32_items, with decode_items
--   BinaryTree         `Node`, `BinaryTree`, insert, get, get_node
--   BinaryTree/Wire    their encoding and decoding
--   Vdaf               `VdafError`, `PrepareTransition` and the trait Aggregator as a record
--   Vdaf/Dummy         the dummy VDAF
--   Topology/PingPong  leader_initialized, helper_initialized, leader_continued,
--                      helper_continued, evaluate, and the codec of PingPongMessage
--   Field/Congruence   congruence modulo p
--   Field/Montgomery   what it means that a field element stands for an integer
--   Field/Words        the operations of u64 and u128 that the field arithmetic uses
--   Field/Fp64         `FieldParameters64` and FP64: add, sub, mul, pow, inv, neg,
--                      montgomery, residue, modp
--   Field/Fp128        the same for `FieldParameters`, FP32 and FP128 over u128, with the
--                      multiplication over four limbs, and log2
--   Field/Element      the traits of a field element as a record, Field64, Field128, bit
--                      vectors and merge_vector of `src/field.rs`
--   Field/Roots        FftFriendlyFieldElement for the three fields that make_field! makes
--   Polynomial         poly_eval of `src/polynomial.rs`
--   Idpf/Errors        `IdpfError`
--   Idpf/Seeds         the operations on seeds, from xor_seeds to conditional_swap_seed
--   Idpf/Value         the trait IdpfValue as a record, and the group it asks for
--   Idpf/Value/Field   the elements of a field as values of an IDPF, with the group laws of
--                      Field64 and Field128
--   Idpf/Level         extend, convert, generate_correction_word and eval_next
--   Idpf/Cache         IdpfCache, NoCache, HashMapCache and RingBufferCache
--   Idpf/Tree          gen, gen_with_random, eval, eval_from_node and merge
--   Vidpf              the types of `src/vidpf.rs`, xor_proof and conditional_xor_proof
--   Vidpf/Server       gen, gen_with_keys, eval, eval_next, prg, convert, node_proof and
--                      node_proof_adjustment
--   Idpf/Wire          the encoding of a public share, and of a seed of `src/vdaf/xof.rs`
--   Idpf/BitVec        the bit vectors that are loaded, packed into bytes and unpacked
--   Poplar1/AggregationParam  `Poplar1AggregationParam` of `src/vdaf/poplar1.rs`; Wire below it is
--                      its encoding
--   Poplar1/PairValue  `Poplar1IdpfValue`
--   Vidpf/Weight       `VidpfWeight` with its encoding
-- The modules below a file of this list hold its proofs, and the Examples modules runs on
-- concrete inputs, with a stream and a group made for them in Idpf/Toy.
--
-- How code corresponds to definitions. A function of the source has the definition of its
-- name; a method of the trait Encode or Decode is named after its type (u24_encode,
-- message_decode). A `&mut Vec<u8>` that is appended to is a list passed on, a
-- `&mut Cursor` the slice with its position. A method that changes `self` returns the new
-- value beside its result, also with an error. The reference `Ref` of the tree's loops is
-- the subtree it points to, which the caller puts back. A bit path is a list of Booleans,
-- and a bit is true for the right child.
--
-- Bounds. Bytes are numbers below 256, a usize has 64 bits, and a slice has at most
-- isize::MAX bytes; sums and differences of a usize that leave it are a panic, or wrap where
-- the source says so. Fuel: decode_items runs for one round more than the announced length,
-- enough since an item takes a byte; the tree's decoder for one round more than the bytes
-- that remain, since each round reads a marker; the tree's encoder for one more than the
-- nodes and empty slots. Each decoder is proved never to end as `stuck`, and the tree's encoder
-- not to if each value of the tree is written.
--
-- The chunks of a path that a node proof absorbs are cut with the number of bits as fuel, enough
-- since a chunk takes a bit; it is proved that they are all of the path. Likewise the bytes and
-- the words of a bit vector are packed with the number of bits as fuel, and proved to hold all of
-- them.
--
-- The field arithmetic is that of a modulus below 2 ^ 64, or at most 2 ^ 128 - 2 ^ 64; its words
-- wrap where the source's do, and sums and products of limbs fit a u128.
--
-- Not under `src`, hence parameters: the crate byteorder, which reads integers, is an instance
-- argument with the documented meaning of its big-endian reads; the bit vectors of the crate
-- bitvec are lists; the selection of the crate subtle is an argument; a VDAF that the topology
-- runs is a record of its operations. The extendable output functions of `src/vdaf/xof.rs`, over
-- AES and TurboSHAKE, are records too, and proofs assume only that they give as many bytes as
-- asked for. The randomness of getrandom is an argument. The values of an IDPF are any type with
-- the operations of the trait, and what the proofs ask of them is the Abelian group of its
-- comment, on the values in range.
--
-- Not modelled: the values inside I/O errors and messages meant for people, trait bounds and
-- associated constants that no operation reads, memory layout and allocation, constant time, the
-- byte encodings of field elements, the comparisons in constant time, and the layers above (the
-- other operations on polynomials, pseudorandom generators, FLPs, Prio2, Prio3, the rest of
-- Poplar1, Mastic, and the noise of `src/dp`).
pub mod Prelude
pub mod Codec
pub mod BinaryTree
pub mod Field
pub mod Polynomial
pub mod Vdaf
pub mod Topology
pub mod Idpf
pub mod Poplar1
pub mod Vidpf
