-- ===== src/Rollup/StateManager/Table.antt =====
-- The members of StateManager that lock its mutex once, as calls on a function from addresses to
-- what an account holds.
use quids_evm_cpp.Base.{
  ℕ, Bool, true, false, Option, none, some, List, [], ◌∷◌, Bytes, Outcome, returned, list_eq,
  nat_eq, list_beq, if◌then◌else◌,
}
use quids_evm_cpp.Base.Dict.{find}
use quids_evm_cpp.Evm.Address.{Address}
use quids_evm_cpp.Rollup.StateManager.{State, unlocked, ◌>>=◌}
use quids_evm_cpp.Rollup.StateManager.Accounts.{Account, address_to_hex}
use quids_evm_cpp.Rollup.StateManager.Access.{
  commit_state, rollback_state, add_account, get_balance, get_nonce, get_storage, get_code,
  set_balance, set_nonce, set_storage, set_code,
}

pub data Call : Type 0 where
  adds : Bytes → Account → Call
  sets_balance sets_nonce : Bytes → ℕ → Call
  sets_storage : Address → Bytes → Bytes → Call
  sets_code : Address → Bytes → Call
  asks_balance asks_nonce : Bytes → Call
  asks_storage : Address → Bytes → Call
  asks_code : Address → Call
  commits rolls_back : Call

pub data Answer : Type 0 where
  done : Bool → Answer
  number : ℕ → Answer
  bytes : Bytes → Answer

-- What the specification keeps of an account
pub record Entry : Type 0 where
  pub money : ℕ
  pub calls : ℕ
  pub program : Bytes
  pub cells : Bytes → Option Bytes

abbrev pub Table : Type 0
Table = Bytes → Option Entry

-- A function changed at one place
abbrev pub put : {A : Type 0} → Bytes → A → (Bytes → A) → Bytes → A
put a value f b = if list_beq a b then value else f b

abbrev pub changed_found : Bytes → (Entry → Entry) → Option Entry → Table → Answer × Table
changed_found a change none t = (done false, t)
changed_found a change (some e) t = (done true, put a (some (change e)) t)

abbrev changed : Bytes → (Entry → Entry) → Table → Answer × Table
changed a change t = changed_found a change (t a) t

abbrev pub number_of : (Entry → ℕ) → Option Entry → Answer
number_of show none = number 0
number_of show (some e) = number (show e)

abbrev pub bytes_or_none : Option Bytes → Answer
bytes_or_none none = bytes []
bytes_or_none (some b) = bytes b

abbrev pub cell_of : Bytes → Option Entry → Answer
cell_of key none = bytes []
cell_of key (some e) = bytes_or_none (e.cells key)

abbrev pub program_of : Option Entry → Answer
program_of none = bytes []
program_of (some e) = bytes e.program

-- What the specification keeps of an account that is added
abbrev pub entry : Account → Entry
entry account = record {
  money = account.balance;
  calls = account.nonce;
  program = account.code;
  cells = λ key. find key account.storage;
}

-- What a call answers and does. A commit and a rollback leave every account.
abbrev pub spec_step : Call → Table → Answer × Table
spec_step (adds a account) t = (done true, put a (some (entry account)) t)
spec_step (sets_balance a n) t = changed a (λ e. record e { money = n }) t
spec_step (sets_nonce a n) t = changed a (λ e. record e { calls = n }) t
spec_step (sets_storage address key value) t =
    changed (address_to_hex address) (λ e. record e { cells = put key (some value) e.cells }) t
spec_step (sets_code address code) t =
    changed (address_to_hex address) (λ e. record e { program = code }) t
spec_step (asks_balance a) t = (number_of (λ e. e.money) (t a), t)
spec_step (asks_nonce a) t = (number_of (λ e. e.calls) (t a), t)
spec_step (asks_storage address key) t = (cell_of key (t (address_to_hex address)), t)
spec_step (asks_code address) t = (program_of (t (address_to_hex address)), t)
spec_step commits t = (done true, t)
spec_step rolls_back t = (done true, t)

abbrev pub spec_run : List Call → Table → List Answer × Table
spec_run [] t = ([], t)
spec_run (c ∷ cs) t =
    let (answer, t') = spec_step c t in
    let (answers, t'') = spec_run cs t' in (answer ∷ answers, t'')

-- An answer of the program beside the state, which a getter leaves
abbrev answered : {A : Type 0} → (A → Answer) → State → Outcome ⊥ A → Outcome ⊥ (Answer × State)
answered show s asked = do a ← asked; returned (show a, s)

abbrev told : Outcome ⊥ (Bool × State) → Outcome ⊥ (Answer × State)
told call = do (b, s) ← call; returned (done b, s)

-- The call by a thread that does not hold the mutex
abbrev pub step : (Bytes → Bytes) → Call → State → Outcome ⊥ (Answer × State)
step blake3 (adds a account) s = do s' ← add_account unlocked a account s; returned (done true, s')
step blake3 (sets_balance a n) s = told (set_balance unlocked a n s)
step blake3 (sets_nonce a n) s = told (set_nonce unlocked a n s)
step blake3 (sets_storage address key value) s = told (set_storage unlocked address key value s)
step blake3 (sets_code address code) s = told (set_code unlocked address code s)
step blake3 (asks_balance a) s = answered number s (get_balance unlocked a s)
step blake3 (asks_nonce a) s = answered number s (get_nonce unlocked a s)
step blake3 (asks_storage address key) s = answered bytes s (get_storage unlocked address key s)
step blake3 (asks_code address) s = answered bytes s (get_code unlocked address s)
step blake3 commits s = told (commit_state blake3 unlocked s)
step blake3 rolls_back s = told (rollback_state unlocked s)

unfoldable pub run : (Bytes → Bytes) → List Call → State → Outcome ⊥ (List Answer × State)
run blake3 [] s = returned ([], s)
run blake3 (c ∷ cs) s = do
  (answer, s') ← step blake3 c s
  (answers, s'') ← run blake3 cs s'
  returned (answer ∷ answers, s'')
