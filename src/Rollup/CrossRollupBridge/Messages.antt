-- ===== src/Rollup/CrossRollupBridge/Messages.antt =====
-- Which incoming messages are verified.
use quids_evm_cpp.Base.{
  ℕ, ◌^◌, ◌<◌, ◌≡◌, ◌≢◌, ◌↔◌, ◌⊎◌, inl, inr, refl, sym, ap, ◌∙◌, true, ◌||◌, Bool-cases, List, [],
  ◌∷◌, ◌++◌, Bytes, list_eq, nat_eq, list_beq, list_beq_iff, take, drop, take_front, drop_front,
  arith,
}
use quids_evm_cpp.Base.Encoding.{le_bytes, le_value, length-le_bytes, le_value-le_bytes}
use quids_evm_cpp.Rollup.CrossRollupBridge.{
  CrossRollupMessage, hashed_bytes, found, compute_message_hash, send_message,
  verify_incoming_message, send_all,
}

-- One of the messages has the property.
abbrev pub Any : (CrossRollupMessage → Type 0) → List CrossRollupMessage → Type 0
Any P [] = ⊥
Any P (m ∷ messages) = P m ⊎ Any P messages

-- Two messages in all but their proofs
abbrev pub AreAlike : CrossRollupMessage → CrossRollupMessage → Type 0
AreAlike a b =
    (a.source_chain_id ≡ b.source_chain_id)
    × (a.destination_chain_id ≡ b.destination_chain_id)
    × (a.payload ≡ b.payload)

abbrev pub HasIds : CrossRollupMessage → Type 0
HasIds m = (m.source_chain_id < 2 ^ 32) × (m.destination_chain_id < 2 ^ 32)

abbrev pub AllHaveIds : List CrossRollupMessage → Type 0
AllHaveIds [] = Unit
AllHaveIds (a ∷ messages) = HasIds a × AllHaveIds messages

-- Equal bytes in front, of one length, and equal bytes behind
split_front :
    (n x y : ℕ) (a b : Bytes)
    → x < 256 ^ n
    → y < 256 ^ n
    → le_bytes n x ++ a ≡ le_bytes n y ++ b
    → (x ≡ y) × (a ≡ b)
split_front n x y a b hx hy h = (
  sym (le_value-le_bytes n x hx)
      ∙ (ap le_value (
            sym (take_front n (le_bytes n x) a (length-le_bytes n x))
            ∙ (ap (take n) h ∙ take_front n (le_bytes n y) b (length-le_bytes n y)))
          ∙ le_value-le_bytes n y hy),
  sym (drop_front n (le_bytes n x) a (length-le_bytes n x))
      ∙ (ap (drop n) h ∙ drop_front n (le_bytes n y) b (length-le_bytes n y)),
)

-- The bytes that are hashed tell the ids and the payload.
hashed_bytes-alike :
    (a b : CrossRollupMessage)
    → HasIds a
    → HasIds b
    → hashed_bytes a ≡ hashed_bytes b
    → AreAlike a b
unfolding hashed_bytes
hashed_bytes-alike a b ha hb h =
    let (source, rest) =
      split_front 4 a.source_chain_id b.source_chain_id
        (le_bytes 4 a.destination_chain_id ++ a.payload)
        (le_bytes 4 b.destination_chain_id ++ b.payload) (omega (arith, ha.0)) (omega (arith, hb.0))
        h in
    let (destination, payload) =
      split_front 4 a.destination_chain_id b.destination_chain_id a.payload b.payload
        (omega (arith, ha.1)) (omega (arith, hb.1)) rest in
    (source, destination, payload)

module _ (sha256 : Bytes → Bytes) (m : CrossRollupMessage) where
  -- A message with the hash of `m`
  abbrev pub HasHash : CrossRollupMessage → Type 0
  HasHash a = compute_message_hash sha256 a ≡ compute_message_hash sha256 m

  found-append :
      (hash : Bytes) (hashes more : List Bytes)
      → found hash (hashes ++ more) ≡ (found hash hashes || found hash more)
  found-append hash [] more = refl
  found-append hash (h ∷ hashes) more = ground (arith, found-append hash hashes more)

  verify-send_all :
      (messages : List CrossRollupMessage) (hashes : List Bytes)
      → (verify_incoming_message sha256 m (send_all sha256 messages hashes) ≡ true)
        ↔ ((verify_incoming_message sha256 m hashes ≡ true) ⊎ Any HasHash messages)
  unfolding verify_incoming_message send_all send_message
  verify-send_all [] hashes =
      (λ h. inl h, λ h. elim h [ inl v ↦ v | inr none_there ↦ absurd none_there ])
  verify-send_all (a ∷ messages) hashes =
      let hash : Bytes = compute_message_hash sha256 a in
      let later = verify-send_all messages (hashes ++ (hash ∷ [])) in
      let split = found-append (compute_message_hash sha256 m) hashes (hash ∷ []) in
      let same = list_beq_iff hash (compute_message_hash sha256 m) in
      (
        λ h. elim (later.0 h) [
          | inl earlier ↦ elim (Bool-cases (found (compute_message_hash sha256 m) hashes)) [
            | inl before ↦ inl before
            | inr not_before ↦ inr (inl (same.0 (ground (arith, earlier, split, not_before))))
          ]
          | inr more ↦ inr (inr more)
        ],
        λ h. later.1 (elim h [
          | inl before ↦ inl (ground (arith, split, before))
          | inr more ↦ elim more [
            | inl this ↦ inl (ground (arith, split, same.1 this))
            | inr others ↦ inr others
          ]
        ]),
      )

  -- Two different texts with one hash
  abbrev pub Collides : CrossRollupMessage → Type 0
  Collides a =
      (hashed_bytes a ≢ hashed_bytes m) × (sha256 (hashed_bytes a) ≡ sha256 (hashed_bytes m))

  told_apart :
      (a : CrossRollupMessage) → HasIds a → HasIds m → HasHash a → AreAlike a m ⊎ Collides a
  unfolding compute_message_hash
  told_apart a ha hm h = elim (Bool-cases (list_beq (hashed_bytes a) (hashed_bytes m))) [
    | inl same ↦
        inl (hashed_bytes-alike a m ha hm ((list_beq_iff (hashed_bytes a) (hashed_bytes m)).0 same))
    | inr other ↦ inr (
      λ e. absurd (ground (arith, other, (list_beq_iff (hashed_bytes a) (hashed_bytes m)).1 e)),
      h,
    )
  ]

  some_told_apart :
      (messages : List CrossRollupMessage)
      → HasIds m
      → AllHaveIds messages
      → Any HasHash messages
      → Any (λ a. AreAlike a m ⊎ Collides a) messages
  some_told_apart [] hm hs h = absurd h
  some_told_apart (a ∷ messages) hm (ha, hs) h = elim h [
    | inl this ↦ inl (told_apart a ha hm this)
    | inr more ↦ inr (some_told_apart messages hm hs more)
  ]

  -- After some messages are sent from a new bridge, an incoming message, its ids and theirs being
  -- uint32_t, is verified only if one that was sent has the same ids and payload, or if its text
  -- and that of one that was sent are a collision of the hash.
  pub verified_was_sent :
      (messages : List CrossRollupMessage)
      → HasIds m
      → AllHaveIds messages
      → verify_incoming_message sha256 m (send_all sha256 messages []) ≡ true
      → Any (λ a. AreAlike a m ⊎ Collides a) messages
  unfolding verify_incoming_message
  verified_was_sent messages hm hs h = elim ((verify-send_all messages []).0 h) [
    | inl before ↦ absurd cc
    | inr sent ↦ some_told_apart messages hm hs sent
  ]

same_hash :
    (sha256 : Bytes → Bytes) (m : CrossRollupMessage) (messages : List CrossRollupMessage)
    → Any (λ a. AreAlike a m) messages
    → Any (HasHash sha256 m) messages
unfolding compute_message_hash hashed_bytes
same_hash sha256 m [] h = absurd h
same_hash sha256 m (a ∷ messages) h = elim h [
  | inl (source, destination, payload) ↦ inl (rw (source, destination, payload) refl)
  | inr more ↦ inr (same_hash sha256 m messages more)
]

-- A message is verified, however often it comes and with any validity proof, once a message with
-- its ids and its payload was sent.
pub sent_is_verified :
    (sha256 : Bytes → Bytes) (m : CrossRollupMessage) (messages : List CrossRollupMessage)
    → Any (λ a. AreAlike a m) messages
    → verify_incoming_message sha256 m (send_all sha256 messages []) ≡ true
sent_is_verified sha256 m messages h =
    (verify-send_all sha256 m messages []).1 (inr (same_hash sha256 m messages h))
