-- ===== src/Blockchain/Transaction/Costs.antt =====
-- What a transaction costs its sender.
use quids_evm_cpp.Base.{ℕ, ◌+◌, ◌*◌, ◌%◌, ◌≤◌, ◌<◌, ◌≡◌, ap, ◌∙◌, arith, u64_mod, length}
use quids_evm_cpp.Blockchain.Transaction.{Transaction, calculate_gas_cost, calculate_total_cost}

-- `MAX_GAS_LIMIT`
abbrev pub max_gas_limit : ℕ
max_gas_limit = 15000000

-- `MAX_DATA_SIZE`
abbrev pub max_data_size : ℕ
max_data_size = 128 * 1024

gas_cost_lem :
    (tx : Transaction)
    → tx.gas_limit ≤ max_gas_limit
    → length tx.payload ≤ max_data_size
    → calculate_gas_cost tx ≡ tx.gas_limit + 16 * length tx.payload
unfolding calculate_gas_cost
gas_cost_lem tx hg hd = omega arith

wrap_total : (g p v : ℕ) → g * p + v < u64_mod → ((g * p) % u64_mod + v) % u64_mod ≡ g * p + v
wrap_total g p v h = omega arith

total_cost_lem :
    (tx : Transaction) (gas : ℕ)
    → calculate_gas_cost tx ≡ gas
    → calculate_total_cost tx ≡ ((gas * tx.gas_price) % u64_mod + tx.value) % u64_mod
unfolding calculate_total_cost
total_cost_lem tx gas e = ap (λ g. ((g * tx.gas_price) % u64_mod + tx.value) % u64_mod) e

-- For a transaction within the limits on gas and data that its class declares, the costs are exact:
-- 16 gas a byte on top of the gas limit, which is at most 17,097,152, times the price, plus the
-- amount, as long as that sum is a uint64_t.
pub total_cost_exact :
    (tx : Transaction)
    → tx.gas_limit ≤ max_gas_limit
    → length tx.payload ≤ max_data_size
    → (tx.gas_limit + 16 * length tx.payload) * tx.gas_price + tx.value < u64_mod
    → (calculate_total_cost tx ≡ (tx.gas_limit + 16 * length tx.payload) * tx.gas_price + tx.value)
      × (calculate_gas_cost tx ≡ tx.gas_limit + 16 * length tx.payload)
      × (calculate_gas_cost tx ≤ 17097152)
total_cost_exact tx hg hd h = (
  total_cost_lem tx _ (gas_cost_lem tx hg hd) ∙ wrap_total _ tx.gas_price tx.value h,
  gas_cost_lem tx hg hd,
  omega (arith, gas_cost_lem tx hg hd),
)
