-- ===== src/Anchoring/Tests.antt =====
-- A tree of three leaves under a hash of a small range, a chain of two events and a small document.
use vekro_backend.Base.{
  ℕ, zero, suc, ◌+◌, ◌*◌, ◌%◌, ◌^◌, ◌≤◌, ◌<◌, ◌≡◌, ◌≢◌, ◌⊎◌, refl, ap, arith, true, some, List, [],
  ◌∷◌, none, Text, length, negsuc, codes,
}
use vekro_backend.Anchoring.Merkle.{
  Keccak, ProofStep, left, split_point, merkle_root, proof_of, verify_inclusion, node_hash,
}
use vekro_backend.Anchoring.Merkle.Splits.{split_largest}
use vekro_backend.Anchoring.Merkle.Proofs.{AreHashes, proof_accepted}
use vekro_backend.Anchoring.Merkle.Binding.{proof_binds}
use vekro_backend.Anchoring.Collision.{Collision}
use vekro_backend.Anchoring.Chain.{Utf8, ChainedEvent, no_heads, latest_leaf, leaf_of}
use vekro_backend.Anchoring.Chain.Linked.{
  ChainOp, recorded, committed, rolled_back, AreLinked, perform_chains, recorder-AreLinked,
}
use vekro_backend.Anchoring.Chain.Binding.{chain_of, contents, chain_binds}
use vekro_backend.Anchoring.Canonical.{
  utf16, Json, null, integer, string, array, object, no_items, item, no_fields, field, ordered,
  canonical_json,
}
use vekro_backend.Anchoring.Canonical.Reader.{read_json}
use vekro_backend.Anchoring.Canonical.Order.{swapped, canonical_json-Shuffled}
use vekro_backend.Anchoring.Canonical.RoundTrip.{canonical_json-read, canonical_json_injective}

-- 32 bytes of which the first is given.
abbrev padded : ℕ → Text
padded b =
    b ∷ 0 ∷ 0 ∷ 0 ∷ 0 ∷ 0 ∷ 0 ∷ 0 ∷ 0 ∷ 0 ∷ 0 ∷ 0 ∷ 0 ∷ 0 ∷ 0 ∷ 0 ∷ 0 ∷ 0 ∷ 0 ∷ 0 ∷ 0 ∷ 0 ∷ 0 ∷ 0
    ∷ 0 ∷ 0 ∷ 0 ∷ 0 ∷ 0 ∷ 0 ∷ 0 ∷ 0 ∷ []

abbrev mixed : Text → ℕ
mixed [] = 7
mixed (b ∷ bytes) = (b + 31 * mixed bytes) % 251

abbrev test_keccak : Keccak
test_keccak = record { digest = λ input. padded (mixed input); digest_size = λ input. refl }

abbrev three_leaves : List Text
three_leaves = padded 11 ∷ padded 22 ∷ padded 33 ∷ []

three-AreHashes : AreHashes three_leaves
three-AreHashes zero h = refl
three-AreHashes (suc zero) h = refl
three-AreHashes (suc (suc zero)) h = refl
three-AreHashes (suc (suc (suc i))) h = absurd (omega arith)

split_largest_example :
    ((k : ℕ) × (split_point 5 ≡ 2 ^ k))
    × (0 < split_point 5)
    × (split_point 5 < 5)
    × (5 ≤ 2 * split_point 5)
split_largest_example = split_largest 5 (omega arith)

proof_accepted_example :
    (proof : List ProofStep) × (proof_of test_keccak three_leaves 1 ≡ some proof)
    × (verify_inclusion test_keccak (padded 22) proof (merkle_root test_keccak three_leaves) 1 3
        ≡ true)
proof_accepted_example = proof_accepted test_keccak three_leaves 1 three-AreHashes (omega arith)

abbrev last_proof : List ProofStep
last_proof = record { sibling = node_hash test_keccak (padded 11) (padded 22); side = left } ∷ []

proof_binds_example : (2 < 3) × ((padded 33 ≡ padded 33) ⊎ Collision test_keccak)
unfolding verify_inclusion merkle_root node_hash
proof_binds_example =
    proof_binds test_keccak three_leaves 2 (padded 33) last_proof three-AreHashes refl

-- Each code point as one byte, as UTF-8 has it on ASCII text.
abbrev test_utf8 : Utf8
test_utf8 = record { bytes = λ s. s; bytes_injective = λ s t same. same }

-- Two events of a transaction around a global one, a lost one and a refused one.
abbrev test_ops : List ChainOp
test_ops =
    recorded (some 5) (codes "{}") (padded 1)
    ∷ recorded none (codes "[]") (padded 2)
    ∷ committed
    ∷ recorded (some 5) (codes "lost") (padded 3)
    ∷ rolled_back
    ∷ recorded (some 5) (codes "refused") (codes "short")
    ∷ recorded (some 5) (codes "null") (padded 4)
    ∷ committed
    ∷ []

abbrev test_log : List ChainedEvent
test_log =
    (perform_chains test_keccak test_utf8 test_ops
      (record { committed = []; work = []; heads = no_heads })).committed

three_recorded : length (chain_of (some 5) test_log) ≡ 2
unfolding chain_of latest_leaf leaf_of perform_chains
three_recorded = refl

test_log-AreLinked : AreLinked test_keccak test_utf8 test_log
test_log-AreLinked = recorder-AreLinked test_keccak test_utf8 test_ops [] tt

recorder-AreLinked_example : AreLinked test_keccak test_utf8 test_log
recorder-AreLinked_example = recorder-AreLinked test_keccak test_utf8 test_ops [] tt

-- A log with the same events of the transaction, and none beside them.
abbrev other_ops : List ChainOp
other_ops =
    recorded (some 5) (codes "{}") (padded 1)
    ∷ recorded (some 5) (codes "null") (padded 4)
    ∷ committed
    ∷ []

abbrev other_log : List ChainedEvent
other_log =
    (perform_chains test_keccak test_utf8 other_ops
      (record { committed = []; work = []; heads = no_heads })).committed

other_log-AreLinked : AreLinked test_keccak test_utf8 other_log
other_log-AreLinked = recorder-AreLinked test_keccak test_utf8 other_ops [] tt

shorter_log : length other_log < length test_log
unfolding leaf_of perform_chains
shorter_log = omega arith

chain_binds_example :
    (contents (chain_of (some 5) test_log) ≡ contents (chain_of (some 5) other_log))
    ⊎ Collision test_keccak
unfolding chain_of latest_leaf leaf_of perform_chains
chain_binds_example =
    chain_binds test_keccak test_utf8 (some 5) test_log other_log test_log-AreLinked
      other_log-AreLinked refl refl

abbrev test_document : Json
test_document = object (
    field (codes "b") (array (item (integer (negsuc 11)) (item null no_items)))
      (field (codes "a") (string (codes "x\"y")) no_fields))

abbrev test_text : Text
test_text = codes "{\"a\":\"x\\\"y\",\"b\":[-12,null]}"

test_text_is : canonical_json test_document ≡ some test_text
unfolding canonical_json
test_text_is = refl

reads_escapes :
    read_json (codes "\"\\u4201\\uD83d\\ude00\\/\"") ≡ some (string (0x4201 ∷ 0x1f600 ∷ b'/' ∷ []))
unfolding read_json
reads_escapes = refl

refuses_escape : read_json (codes "\"\\q\"") ≡ none
unfolding read_json
refuses_escape = refl

refuses_half_pair : read_json (codes "\"\\ud83dx\"") ≡ none
unfolding read_json
refuses_half_pair = refl

refuses_raw_control : read_json (b'"' ∷ 1 ∷ b'"' ∷ []) ≡ none
unfolding read_json
refuses_raw_control = refl

refuses_leading_zero : read_json (codes "01") ≡ none
unfolding read_json
refuses_leading_zero = refl

canonical_json-read_example : read_json test_text ≡ some (ordered test_document)
canonical_json-read_example = canonical_json-read test_document test_text test_text_is

abbrev other_document : Json
other_document = object (
    field (codes "a") (string (codes "x\"y"))
      (field (codes "b") (array (item (integer (negsuc 11)) (item null no_items))) no_fields))

other_text_is : canonical_json other_document ≡ some test_text
unfolding canonical_json
other_text_is = refl

canonical_json_injective_example : ordered test_document ≡ ordered other_document
canonical_json_injective_example =
    canonical_json_injective test_document other_document test_text test_text_is other_text_is

abbrev numbers : Json
numbers = array (item (integer (negsuc 11)) (item null no_items))

abbrev words : Json
words = string (codes "x\"y")

b_is_not_a : utf16 (codes "b") ≢ utf16 (codes "a")
unfolding utf16
b_is_not_a same = let mixed_same : 64 ≡ 63 = ap mixed same in absurd (omega (arith, mixed_same))

canonical_json-Shuffled_example : canonical_json test_document ≡ canonical_json other_document
canonical_json-Shuffled_example =
    canonical_json-Shuffled (field (codes "b") numbers (field (codes "a") words no_fields))
      (field (codes "a") words (field (codes "b") numbers no_fields))
      (swapped (codes "b") (codes "a") numbers words no_fields b_is_not_a)
