-- ===== src/Rollup/TransitionProof/Inversion.antt =====
-- What the bytes hold that `deserialize` accepts.
use quids_evm_cpp.Base.{
  ℕ, ◌+◌, ◌^◌, ◌≤◌, ◌<◌, ◌≡◌, refl, sym, ap, subst, ◌∙◌, inl, inr, Option, Option-cases, none, some,
  ◌++◌, Bytes, AreBytes, u64_mod, ◌-◌, ltb, if◌then◌else◌, length, take, drop, drop-add,
  length-take, length-drop, take-append-drop, arith,
}
use mathlib.Core.List.{append_assoc}
use quids_evm_cpp.Base.Encoding.{
  le_bytes, le_value, le_bytes-le_value, le_value-lt, take-AreBytes, drop-AreBytes,
}
use quids_evm_cpp.Rollup.TransitionProof.{ProofData, serialize, read_vector, deserialize}
use quids_evm_cpp.Rollup.TransitionProof.Decoding.{
  field, roots, HasRoots, HasSizes, serialize-laid, roots-laid,
}

-- The size that stands at a position with four bytes or more behind it.
size_at : Bytes → ℕ → ℕ
size_at bytes pos = le_value (take 4 (drop pos bytes))

module _ (bytes : Bytes) (pos : ℕ) (hb : AreBytes bytes) (room : pos + 4 ≤ length bytes) where
  length-size : length (take 4 (drop pos bytes)) ≡ 4
  length-size = omega (arith, length-take 4 (drop pos bytes), length-drop pos bytes, room)

  size_bytes : AreBytes (take 4 (drop pos bytes))
  size_bytes = take-AreBytes 4 (drop pos bytes) (drop-AreBytes pos bytes hb)

  size_at-lt : size_at bytes pos < 2 ^ 32
  unfolding size_at
  size_at-lt =
      subst (λ n. size_at bytes pos < 256 ^ n) length-size
        (le_value-lt (take 4 (drop pos bytes)) size_bytes)

  -- The four bytes are those of the size.
  le_bytes-size_at : le_bytes 4 (size_at bytes pos) ≡ take 4 (drop pos bytes)
  unfolding size_at
  le_bytes-size_at =
      subst (λ n. le_bytes n (size_at bytes pos) ≡ take 4 (drop pos bytes)) length-size
        (le_bytes-le_value (take 4 (drop pos bytes)) size_bytes)

module _ (bytes vec : Bytes) (pos end : ℕ) where
  read_room : pos < u64_mod - 4 → read_vector bytes pos ≡ (some vec, end) → pos + 4 ≤ length bytes
  unfolding read_vector
  read_room hp h = ground (arith, hp, h)

  read_parts :
      pos < u64_mod - 4 - 2 ^ 32
      → size_at bytes pos < 2 ^ 32
      → read_vector bytes pos ≡ (some vec, end)
      → (pos + 4 + size_at bytes pos ≤ length bytes)
        × (vec ≡ take (size_at bytes pos) (drop (pos + 4) bytes))
        × (end ≡ pos + 4 + size_at bytes pos)
  unfolding read_vector size_at
  read_parts hp hs h = ground (arith, hp, hs, h)

-- Where a vector is read, its field stands there, and what is behind it follows.
field_of_read :
    (bytes vec : Bytes) (pos end : ℕ)
    → AreBytes bytes
    → length bytes < u64_mod - 2 ^ 33
    → pos ≤ length bytes
    → read_vector bytes pos ≡ (some vec, end)
    → (drop pos bytes ≡ field vec ++ drop end bytes) × (length vec < 2 ^ 32) × (end ≤ length bytes)
field_of_read bytes vec pos end hb fits inside h =
    let room = read_room bytes vec pos end (omega (arith, fits, inside)) h in
    let small = size_at-lt bytes pos hb room in
    let (holds, is_vec, is_end) =
      read_parts bytes vec pos end (omega (arith, fits, inside)) small h in
    let measured : length vec ≡ size_at bytes pos = omega (
      arith,
      ap length is_vec,
      length-take (size_at bytes pos) (drop (pos + 4) bytes),
      length-drop (pos + 4) bytes,
      holds,
    ) in
    let four : take 4 (drop pos bytes) ≡ le_bytes 4 (length vec) =
      sym (ap (le_bytes 4) measured ∙ le_bytes-size_at bytes pos hb room) in
    let rest : drop (pos + 4) bytes ≡ vec ++ drop end bytes =
      sym (take-append-drop (size_at bytes pos) (drop (pos + 4) bytes))
      ∙ (ap (λ v. v ++ drop (size_at bytes pos) (drop (pos + 4) bytes)) (sym is_vec)
          ∙ ap (λ d. vec ++ d)
              (sym (drop-add (pos + 4) (size_at bytes pos) bytes)
                ∙ ap (λ n. drop n bytes) (sym is_end))) in
    (
      sym (take-append-drop 4 (drop pos bytes))
          ∙ (ap (λ v. v ++ drop 4 (drop pos bytes)) four
              ∙ (ap (λ d. le_bytes 4 (length vec) ++ d) (sym (drop-add pos 4 bytes) ∙ rest)
                  ∙ sym (append_assoc (le_bytes 4 (length vec)) vec (drop end bytes)))),
      omega (arith, measured, small),
      omega (arith, is_end, holds),
    )

guarded :
    {A : Type 0} (n : ℕ) (q p : A)
    → (if ltb n 96 then none else some q) ≡ some p
    → (96 ≤ n) × (q ≡ p)
guarded n q p h = ground (arith, h)

module _ (bytes : Bytes) (p : ProofData) where
  -- Where the reads of the two vectors end.
  abbrev zk_end : ℕ
  zk_end = (read_vector bytes 96).1

  abbrev signature_end : ℕ
  signature_end = (read_vector bytes zk_end).1

  -- The proof that is built from the bytes and two vectors.
  abbrev built : Bytes → Bytes → ProofData
  built zk signature = record {
    pre_state_root = take 32 bytes;
    post_state_root = take 32 (drop 32 bytes);
    transactions_root = take 32 (drop 64 bytes);
    zk_proof = zk;
    quantum_signature = signature;
  }

  deserialize_of_reads :
      (zk signature : Bytes)
      → (read_vector bytes 96).0 ≡ some zk
      → (read_vector bytes zk_end).0 ≡ some signature
      → deserialize bytes ≡ (if ltb (length bytes) 96 then none else some (built zk signature))
  unfolding deserialize
  deserialize_of_reads zk signature z q = rw (z, q) refl

  if_none : ◌≡◌ {A = Option ProofData} (if ltb (length bytes) 96 then none else none) none
  if_none = ground arith

  deserialize_of_first : (read_vector bytes 96).0 ≡ none → deserialize bytes ≡ none
  unfolding deserialize
  deserialize_of_first z = rw z if_none

  deserialize_of_second :
      (zk : Bytes)
      → (read_vector bytes 96).0 ≡ some zk
      → (read_vector bytes zk_end).0 ≡ none
      → deserialize bytes ≡ none
  unfolding deserialize
  deserialize_of_second zk z q = rw (z, q) if_none

  deserialize_parts :
      deserialize bytes ≡ some p
      → (96 ≤ length bytes)
        × ((read_vector bytes 96).0 ≡ some p.zk_proof)
        × ((read_vector bytes zk_end).0 ≡ some p.quantum_signature)
        × (built p.zk_proof p.quantum_signature ≡ p)
  deserialize_parts h = elim (Option-cases (read_vector bytes 96).0) [
    | inl none_read ↦ (let e : none ≡ some p = sym (deserialize_of_first none_read) ∙ h in cc)
    | inr (zk, zk_read) ↦ elim (Option-cases (read_vector bytes zk_end).0) [
      | inl none_read ↦
          (let e : none ≡ some p = sym (deserialize_of_second zk zk_read none_read) ∙ h in cc)
      | inr (signature, signature_read) ↦
          let (long, same) =
            guarded (length bytes) (built zk signature) p
              (sym (deserialize_of_reads zk signature zk_read signature_read) ∙ h) in
          (
            long,
            zk_read ∙ ap (λ q. some q.zk_proof) same,
            signature_read ∙ ap (λ q. some q.quantum_signature) same,
            ap (λ q. built q.zk_proof q.quantum_signature) (sym same) ∙ same,
          )
    ]
  ]

  built-HasRoots : 96 ≤ length bytes → (zk signature : Bytes) → HasRoots (built zk signature)
  built-HasRoots long zk signature = (
    omega (arith, long, length-take 32 bytes),
    omega (arith, long, length-take 32 (drop 32 bytes), length-drop 32 bytes),
    omega (arith, long, length-take 32 (drop 64 bytes), length-drop 64 bytes),
  )

  -- The three roots are the first 96 bytes.
  roots_front : (zk signature : Bytes) → bytes ≡ roots (built zk signature) ++ drop 96 bytes
  roots_front zk signature = sym (
      roots-laid (built zk signature) (drop 96 bytes)
      ∙ (ap (λ r. take 32 bytes ++ (take 32 (drop 32 bytes) ++ (take 32 (drop 64 bytes) ++ r)))
            (drop-add 64 32 bytes)
          ∙ (ap (λ r. take 32 bytes ++ (take 32 (drop 32 bytes) ++ r))
                (take-append-drop 32 (drop 64 bytes) ∙ drop-add 32 32 bytes)
              ∙ (ap (λ r. take 32 bytes ++ r) (take-append-drop 32 (drop 32 bytes))
                  ∙ take-append-drop 32 bytes))))

  -- Bytes that are accepted, fewer than 2 ^ 64 - 2 ^ 33 of them, begin with the binary form of the
  -- proof they are read as, so the reads stay within them: the roots have 32 bytes each and the
  -- vectors fewer than 2 ^ 32.
  pub deserialize-inverts :
      AreBytes bytes
      → length bytes < u64_mod - 2 ^ 33
      → deserialize bytes ≡ some p
      → HasRoots p × HasSizes p × ((rest : Bytes) × (bytes ≡ serialize p ++ rest))
  deserialize-inverts hb fits h =
      let (long, zk_read, signature_read, same) = deserialize_parts h in
      let (zk_field, zs, zk_inside) =
        field_of_read bytes p.zk_proof 96 zk_end hb fits long (ap (λ z. (z, zk_end)) zk_read) in
      let (signature_field, qs, end_inside) =
        field_of_read bytes p.quantum_signature zk_end signature_end hb fits zk_inside
          (ap (λ z. (z, signature_end)) signature_read) in
      let behind : drop 96 bytes
          ≡ (field p.zk_proof ++ field p.quantum_signature) ++ drop signature_end bytes =
        zk_field
        ∙ (ap (λ r. field p.zk_proof ++ r) signature_field
            ∙ sym (
                append_assoc (field p.zk_proof) (field p.quantum_signature)
                  (drop signature_end bytes))) in
      (
        subst HasRoots same (built-HasRoots long p.zk_proof p.quantum_signature),
        (zs, qs),
        (
          drop signature_end bytes,
          roots_front p.zk_proof p.quantum_signature
              ∙ (ap (λ q. roots q ++ drop 96 bytes) same
                  ∙ (ap (λ r. roots p ++ r) behind
                      ∙ (sym (
                            append_assoc (roots p) (field p.zk_proof ++ field p.quantum_signature)
                              (drop signature_end bytes))
                          ∙ ap (λ r. r ++ drop signature_end bytes)
                              (sym (serialize-laid p (zs, qs)))))),
        ),
      )
