-- ===== src/Blockchain/AddressManager/Specification.antt =====
-- The specification of src/blockchain/AddressManager.cpp: three partial functions from addresses,
-- changed at one address by a call. It has its own entries and its own rules for them.
use quids_evm_cpp.Base.{
  ℕ, ◌+◌, ◌-◌, ◌%◌, ◌^◌, Bool, true, false, Option, none, some, List, [], ◌∷◌, Bytes, list_eq,
  nat_eq, list_beq, ltb, if◌then◌else◌,
}

pub data Call (State Proof : Type 0) : Type 0 where
  creates : Bytes → ℕ → Call State Proof
  creates_contract : Bytes → Bytes → ℕ → Call State Proof
  deletes : Bytes → Call State Proof
  transfers : Bytes → Bytes → ℕ → Call State Proof
  sets_balance : Bytes → ℕ → Call State Proof
  deploys_code : Bytes → Bytes → Call State Proof
  increments_nonce : Bytes → Call State Proof
  registers : Bytes → State → Call State Proof
  stores_proof : Bytes → Proof → Call State Proof

-- What the specification keeps of an account
pub record Entry : Type 0 where
  pub money : ℕ
  pub calls : ℕ
  pub program : Bytes

-- The specification's state
pub record Spec (State Proof : Type 0) : Type 0 where
  pub entry_of : Bytes → Option Entry
  pub state_of : Bytes → Option State
  pub proof_of : Bytes → Option Proof

-- A function changed at one address
abbrev pub put : {A : Type 0} → Bytes → Option A → (Bytes → Option A) → Bytes → Option A
put a value f b = if list_beq a b then value else f b

abbrev pub defined : {A : Type 0} → Option A → Bool
defined none = false
defined (some a) = true

module _ {State Proof : Type 0} where
  abbrev pub with_entry : Bytes → Option Entry → Spec State Proof → Spec State Proof
  with_entry a entry s = record s { entry_of = put a entry s.entry_of }

  abbrev pub created : Bytes → Entry → Spec State Proof → Bool × Spec State Proof
  created a entry s =
      if defined (s.entry_of a) then (false, s) else (true, with_entry a (some entry) s)

  abbrev pub changed_found :
      Bytes → (Entry → Entry) → Option Entry → Spec State Proof → Bool × Spec State Proof
  changed_found a change none s = (false, s)
  changed_found a change (some entry) s = (true, with_entry a (some (change entry)) s)

  abbrev pub changed : Bytes → (Entry → Entry) → Spec State Proof → Bool × Spec State Proof
  changed a change s = changed_found a change (s.entry_of a) s

  -- The payer pays first, and the payee gets the amount on top of what it then has.
  abbrev pub moved :
      Bytes → Bytes → ℕ → Option Entry → Bool → Spec State Proof → Bool × Spec State Proof
  moved from to n none found s = (false, s)
  moved from to n (some payer) false s = (false, s)
  moved from to n (some payer) true s =
      if ltb payer.money n
      then (false, s)
      else (changed to (λ e. record e { money = (e.money + n) % 2 ^ 64 })
          (with_entry from (some (record payer { money = payer.money - n })) s))

  -- What a call answers and does, said of the functions
  abbrev pub spec_step : Call State Proof → Spec State Proof → Bool × Spec State Proof
  spec_step (creates a n) s = created a (record { money = n; calls = 0; program = [] }) s
  spec_step (creates_contract a code n) s =
      created a (record { money = n; calls = 0; program = code }) s
  spec_step (deletes a) s = (defined (s.entry_of a), with_entry a none s)
  spec_step (transfers from to n) s = moved from to n (s.entry_of from) (defined (s.entry_of to)) s
  spec_step (sets_balance a n) s = changed a (λ e. record e { money = n }) s
  spec_step (deploys_code a code) s = changed a (λ e. record e { program = code }) s
  spec_step (increments_nonce a) s = changed a (λ e. record e { calls = (e.calls + 1) % 2 ^ 64 }) s
  spec_step (registers a state) s =
      if defined (s.entry_of a)
      then (true, record s { state_of = put a (some state) s.state_of })
      else (false, s)
  spec_step (stores_proof a proof) s =
      if defined (s.entry_of a)
      then (true, record s { proof_of = put a (some proof) s.proof_of })
      else (false, s)

  abbrev pub spec_run : List (Call State Proof) → Spec State Proof → List Bool × Spec State Proof
  spec_run [] s = ([], s)
  spec_run (c ∷ cs) s =
      let (answer, s') = spec_step c s in
      let (answers, s'') = spec_run cs s' in (answer ∷ answers, s'')
