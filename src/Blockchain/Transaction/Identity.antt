-- ===== src/Blockchain/Transaction/Identity.antt =====
-- What a transaction's hash and its comparisons see of it.
use mathlib.Core.List.{append_assoc}
use quids_evm_cpp.Base.{◌≡◌, ◌↔◌, ◌++◌, true, arith, Bytes, list_beq_iff, nat_eq, refl}
use quids_evm_cpp.Blockchain.Transaction.{Transaction, compute_hash, same}

-- The hash does not see where the sender ends and the recipient begins, nor any field but the
-- amount and the nonce besides: two transactions that agree in those and whose addresses have the
-- same concatenation have one hash, for every hash function.
pub compute_hash_ambiguous :
    (blake3 : Bytes → Bytes) (a b : Transaction)
    → a.from ++ a.to ≡ b.from ++ b.to
    → a.value ≡ b.value
    → a.nonce ≡ b.nonce
    → compute_hash blake3 a ≡ compute_hash blake3 b
unfolding compute_hash
compute_hash_ambiguous blake3 a b e v n = rw (← append_assoc, e, v, n, append_assoc) refl

-- operator== holds of two transactions exactly if they agree in sender, recipient, amount, nonce,
-- gas limit, gas price and signature. The data is not compared.
pub same_iff :
    (a b : Transaction)
    → (same a b ≡ true) ↔ (
        (a.from ≡ b.from)
        × (a.to ≡ b.to)
        × (a.value ≡ b.value)
        × (a.nonce ≡ b.nonce)
        × (a.gas_limit ≡ b.gas_limit)
        × (a.gas_price ≡ b.gas_price)
        × (a.signature ≡ b.signature))
unfolding same
same_iff a b = ground (
  arith,
  list_beq_iff a.from b.from,
  list_beq_iff a.to b.to,
  list_beq_iff a.signature b.signature,
)
