-- ===== src/Rollup/TransitionProof/Decoding.antt =====
-- The binary form read back, and what any accepted bytes hold.
use quids_evm_cpp.Base.{
  ℕ, ◌+◌, ◌%◌, ◌^◌, ◌<◌, ◌≡◌, refl, sym, ap, ◌∙◌, false, some, [], ◌++◌, Bytes, u64_mod, ltb,
  length, take, drop, length-append, take-append_length, drop_front, take_front, drop-add, arith,
}
use mathlib.Core.List.{append_assoc, append-nil}
use quids_evm_cpp.Base.Encoding.{le_bytes, le_value, length-le_bytes, le_value-le_bytes}
use quids_evm_cpp.Rollup.TransitionProof.{
  ProofData, add_vector, serialize, read_vector, deserialize,
}

-- A vector's size and its bytes.
abbrev pub field : Bytes → Bytes
field vec = le_bytes 4 (length vec) ++ vec

length-field : (vec : Bytes) → length (field vec) ≡ 4 + length vec
length-field vec =
    omega (arith, length-append (le_bytes 4 (length vec)) vec, length-le_bytes 4 (length vec))

-- A vector that fits is read back from where it was written, and the reader stands behind it.
read_vector-field :
    (bytes front vec rest : Bytes) (pos : ℕ)
    → bytes ≡ front ++ (field vec ++ rest)
    → length front ≡ pos
    → length bytes < u64_mod
    → length vec < 2 ^ 32
    → read_vector bytes pos ≡ (some vec, pos + 4 + length vec)
unfolding read_vector
read_vector-field bytes front vec rest pos split at_pos fits small =
    let sizes : length bytes ≡ pos + (4 + length vec + length rest) = omega (
      arith,
      ap length split,
      length-append front (field vec ++ rest),
      length-append (field vec) rest,
      length-field vec,
    ) in
    let at_field : drop pos bytes ≡ field vec ++ rest =
      ap (drop pos) split ∙ drop_front pos front (field vec ++ rest) at_pos in
    let behind : drop 4 (field vec ++ rest) ≡ vec ++ rest =
      ap (drop 4) (append_assoc (le_bytes 4 (length vec)) vec rest)
      ∙ drop_front 4 (le_bytes 4 (length vec)) (vec ++ rest) (length-le_bytes 4 (length vec)) in
    let at_vec : drop (pos + 4) bytes ≡ vec ++ rest =
      drop-add pos 4 bytes ∙ (ap (drop 4) at_field ∙ behind) in
    let size : le_value (take 4 (drop pos bytes)) ≡ length vec =
      ap (λ b. le_value (take 4 b)) (at_field ∙ append_assoc (le_bytes 4 (length vec)) vec rest)
      ∙ (ap le_value
            (take_front 4 (le_bytes 4 (length vec)) (vec ++ rest) (length-le_bytes 4 (length vec)))
          ∙ le_value-le_bytes 4 (length vec) small) in
    let start : (pos + 4) % u64_mod ≡ pos + 4 = omega (arith, sizes) in
    let end : (pos + 4 + length vec) % u64_mod ≡ pos + 4 + length vec = omega (arith, sizes) in
    let room : ltb (length bytes) (pos + 4) ≡ false = ground (arith, sizes) in
    let holds : ltb (length bytes) (pos + 4 + length vec) ≡ false = ground (arith, sizes) in
    let read : take (length vec) (drop (pos + 4) bytes) ≡ vec =
      ap (take (length vec)) at_vec ∙ take-append_length vec rest in
    rw (size, start, room, end, holds, read) refl

module _ (p : ProofData) where
  -- The roots have the length of their type.
  abbrev pub HasRoots : Type 0
  HasRoots =
      (length p.pre_state_root ≡ 32)
      × (length p.post_state_root ≡ 32)
      × (length p.transactions_root ≡ 32)

  -- The sizes of the vectors are uint32_t.
  abbrev pub HasSizes : Type 0
  HasSizes = (length p.zk_proof < 2 ^ 32) × (length p.quantum_signature < 2 ^ 32)

  abbrev pub roots : Bytes
  roots = p.pre_state_root ++ (p.post_state_root ++ p.transactions_root)

  -- The roots, one by one, in front of anything.
  abbrev laid : Bytes → Bytes
  laid rest = p.pre_state_root ++ (p.post_state_root ++ (p.transactions_root ++ rest))

  pub roots-laid : (rest : Bytes) → roots ++ rest ≡ laid rest
  roots-laid rest =
      append_assoc p.pre_state_root (p.post_state_root ++ p.transactions_root) rest
      ∙ ap (λ b. p.pre_state_root ++ b) (append_assoc p.post_state_root p.transactions_root rest)

  pub serialize-laid :
      HasSizes → serialize p ≡ roots ++ (field p.zk_proof ++ field p.quantum_signature)
  unfolding serialize add_vector
  serialize-laid (zs, qs) =
      let z : length p.zk_proof % 2 ^ 32 ≡ length p.zk_proof = omega (arith, zs) in
      let q : length p.quantum_signature % 2 ^ 32 ≡ length p.quantum_signature =
        omega (arith, qs) in
      rw (z, q) (append_assoc roots (field p.zk_proof) (field p.quantum_signature))

  length-roots : HasRoots → length roots ≡ 96
  length-roots (a, b, c) = omega (
    arith,
    a,
    b,
    c,
    length-append p.pre_state_root (p.post_state_root ++ p.transactions_root),
    length-append p.post_state_root p.transactions_root,
  )

  -- The three reads of the roots.
  read_roots :
      HasRoots
      → (rest : Bytes)
      → (take 32 (laid rest) ≡ p.pre_state_root)
        × (take 32 (drop 32 (laid rest)) ≡ p.post_state_root)
        × (take 32 (drop 64 (laid rest)) ≡ p.transactions_root)
  read_roots (a, b, c) rest =
      let second : drop 32 (laid rest) ≡ p.post_state_root ++ (p.transactions_root ++ rest) =
        drop_front 32 p.pre_state_root (p.post_state_root ++ (p.transactions_root ++ rest)) a in
      let third : drop 64 (laid rest) ≡ p.transactions_root ++ rest =
        drop-add 32 32 (laid rest)
        ∙ (ap (drop 32) second ∙ drop_front 32 p.post_state_root (p.transactions_root ++ rest) b) in
      (
        take_front 32 p.pre_state_root (p.post_state_root ++ (p.transactions_root ++ rest)) a,
        ap (take 32) second ∙ take_front 32 p.post_state_root (p.transactions_root ++ rest) b,
        ap (take 32) third ∙ take_front 32 p.transactions_root rest c,
      )

  length-serialize :
      HasRoots
      → HasSizes
      → length (serialize p) ≡ 104 + length p.zk_proof + length p.quantum_signature
  length-serialize hr hs = omega (
    arith,
    length-roots hr,
    ap length (serialize-laid hs),
    length-append roots (field p.zk_proof ++ field p.quantum_signature),
    length-append (field p.zk_proof) (field p.quantum_signature),
    length-field p.zk_proof,
    length-field p.quantum_signature,
  )

  module _ (hr : HasRoots) (hs : HasSizes) where
    first_read : read_vector (serialize p) 96 ≡ (some p.zk_proof, 100 + length p.zk_proof)
    first_read =
        read_vector-field (serialize p) roots p.zk_proof (field p.quantum_signature) 96
          (serialize-laid hs) (length-roots hr) (omega (arith, length-serialize hr hs, hs.0, hs.1))
          hs.0

    second_read :
        read_vector (serialize p) (100 + length p.zk_proof)
        ≡ (some p.quantum_signature, 104 + length p.zk_proof + length p.quantum_signature)
    second_read =
        read_vector-field (serialize p) (roots ++ field p.zk_proof) p.quantum_signature []
          (100 + length p.zk_proof)
          (serialize-laid hs
            ∙ sym (
                ap (λ b. (roots ++ field p.zk_proof) ++ b) (append-nil (field p.quantum_signature))
                ∙ append_assoc roots (field p.zk_proof) (field p.quantum_signature)))
          (omega (
            arith,
            length-roots hr,
            length-append roots (field p.zk_proof),
            length-field p.zk_proof,
          ))
          (omega (arith, length-serialize hr hs, hs.0, hs.1)) hs.1
        ∙ ap (λ n. (some p.quantum_signature, n)) (omega arith)

    serialize-roots : serialize p ≡ laid (field p.zk_proof ++ field p.quantum_signature)
    serialize-roots = serialize-laid hs ∙ roots-laid (field p.zk_proof ++ field p.quantum_signature)

  -- A proof whose roots have 32 bytes each and whose vectors are shorter than 2 ^ 32 bytes is read
  -- back from its binary form.
  pub deserialize-serialize : HasRoots → HasSizes → deserialize (serialize p) ≡ some p
  unfolding deserialize
  deserialize-serialize hr hs =
      let long : ltb (length (serialize p)) 96 ≡ false = ground (arith, length-serialize hr hs) in
      let (a, b, c) = read_roots hr (field p.zk_proof ++ field p.quantum_signature) in
      let same = serialize-roots hr hs in
      rw
        (
          long,
          first_read hr hs,
          ap (λ r. read_vector (serialize p) r.1) (first_read hr hs) ∙ second_read hr hs,
          ap (take 32) same ∙ a,
          ap (λ d. take 32 (drop 32 d)) same ∙ b,
          ap (λ d. take 32 (drop 64 d)) same ∙ c,
        )
        refl
