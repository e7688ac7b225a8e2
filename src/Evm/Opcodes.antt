-- ===== src/Evm/Opcodes.antt =====
-- src/evm/EVMExecutor.cpp: the opcodes, the gas costs, and the labels of the `switch` over them.
use quids_evm_cpp.Base.{
  ℕ, ◌+◌, ◌-◌, Bool, false, List, [], ◌∷◌, ◌&&◌, ◌||◌, leb, ◌==◌, if◌then◌else◌,
}

abbrev pub stop_op : ℕ
stop_op = 0x00

abbrev pub add_op : ℕ
add_op = 0x01

abbrev pub mul_op : ℕ
mul_op = 0x02

abbrev pub sub_op : ℕ
sub_op = 0x03

abbrev pub div_op : ℕ
div_op = 0x04

abbrev pub sdiv_op : ℕ
sdiv_op = 0x05

abbrev pub mod_op : ℕ
mod_op = 0x06

abbrev pub smod_op : ℕ
smod_op = 0x07

abbrev pub addmod_op : ℕ
addmod_op = 0x08

abbrev pub mulmod_op : ℕ
mulmod_op = 0x09

abbrev pub or_op : ℕ
or_op = 0x17

abbrev pub xor_op : ℕ
xor_op = 0x18

abbrev pub not_op : ℕ
not_op = 0x19

abbrev pub byte_op : ℕ
byte_op = 0x1a

abbrev pub sha3_op : ℕ
sha3_op = 0x20

abbrev pub address_op : ℕ
address_op = 0x30

abbrev pub balance_op : ℕ
balance_op = 0x31

abbrev pub origin_op : ℕ
origin_op = 0x32

abbrev pub caller_op : ℕ
caller_op = 0x33

abbrev pub callvalue_op : ℕ
callvalue_op = 0x34

abbrev pub calldataload_op : ℕ
calldataload_op = 0x35

abbrev pub calldatasize_op : ℕ
calldatasize_op = 0x36

abbrev pub codesize_op : ℕ
codesize_op = 0x38

abbrev pub gasprice_op : ℕ
gasprice_op = 0x3a

abbrev pub extcodesize_op : ℕ
extcodesize_op = 0x3b

abbrev pub extcodehash_op : ℕ
extcodehash_op = 0x3f

abbrev pub coinbase_op : ℕ
coinbase_op = 0x41

abbrev pub timestamp_op : ℕ
timestamp_op = 0x42

abbrev pub number_op : ℕ
number_op = 0x43

abbrev pub gaslimit_op : ℕ
gaslimit_op = 0x45

abbrev pub chainid_op : ℕ
chainid_op = 0x46

abbrev pub basefee_op : ℕ
basefee_op = 0x48

abbrev pub mload_op : ℕ
mload_op = 0x51

abbrev pub mstore_op : ℕ
mstore_op = 0x52

abbrev pub mstore8_op : ℕ
mstore8_op = 0x53

abbrev pub sload_op : ℕ
sload_op = 0x54

abbrev pub sstore_op : ℕ
sstore_op = 0x55

abbrev pub jump_op : ℕ
jump_op = 0x56

abbrev pub jumpi_op : ℕ
jumpi_op = 0x57

abbrev pub jumpdest_op : ℕ
jumpdest_op = 0x5b

abbrev pub push0_op : ℕ
push0_op = 0x5f

abbrev pub push1_op : ℕ
push1_op = 0x60

abbrev pub push32_op : ℕ
push32_op = 0x7f

abbrev pub create_op : ℕ
create_op = 0xf0

abbrev pub call_op : ℕ
call_op = 0xf1

abbrev pub callcode_op : ℕ
callcode_op = 0xf2

abbrev pub return_op : ℕ
return_op = 0xf3

abbrev pub revert_op : ℕ
revert_op = 0xfd

abbrev pub invalid_op : ℕ
invalid_op = 0xfe

abbrev pub selfdestruct_op : ℕ
selfdestruct_op = 0xff

abbrev pub base : ℕ
base = 2

abbrev pub verylow : ℕ
verylow = 3

abbrev pub low : ℕ
low = 5

abbrev pub mid : ℕ
mid = 8

abbrev pub high : ℕ
high = 10

abbrev pub sha3_gas : ℕ
sha3_gas = 30

abbrev pub create_gas : ℕ
create_gas = 32000

abbrev pub selfdestruct_gas : ℕ
selfdestruct_gas = 5000

abbrev pub warm_storage_read_cost : ℕ
warm_storage_read_cost = 100

abbrev pub sstore_set_gas : ℕ
sstore_set_gas = 20000

-- The branches of the `switch`. A `charge` takes gas and does nothing else: the source has a comment
-- in place of the operation.
pub data Branch : Type 0 where
  stop : Branch
  charge : ℕ → Branch
  sload : Branch
  sstore : Branch
  push_zero : Branch
  push : ℕ → Branch
  unknown : Branch

-- The opcode is one of a branch's `case` labels.
abbrev pub one_of : ℕ → List ℕ → Bool
one_of opcode [] = false
one_of opcode (label ∷ labels) = opcode == label || one_of opcode labels

abbrev verylow_labels : List ℕ
verylow_labels = add_op ∷ sub_op ∷ or_op ∷ xor_op ∷ not_op ∷ byte_op ∷ []

abbrev low_labels : List ℕ
low_labels = mul_op ∷ div_op ∷ sdiv_op ∷ mod_op ∷ smod_op ∷ []

abbrev mid_labels : List ℕ
mid_labels = addmod_op ∷ mulmod_op ∷ []

abbrev context_labels : List ℕ
context_labels =
    address_op ∷ origin_op ∷ caller_op ∷ callvalue_op ∷ calldatasize_op ∷ codesize_op ∷ gasprice_op
    ∷ coinbase_op ∷ timestamp_op ∷ number_op ∷ gaslimit_op ∷ chainid_op ∷ basefee_op ∷ []

abbrev external_labels : List ℕ
external_labels = balance_op ∷ extcodesize_op ∷ extcodehash_op ∷ []

abbrev memory_labels : List ℕ
memory_labels = calldataload_op ∷ mload_op ∷ mstore_op ∷ mstore8_op ∷ []

abbrev call_labels : List ℕ
call_labels = call_op ∷ callcode_op ∷ []

abbrev return_labels : List ℕ
return_labels = return_op ∷ revert_op ∷ []

-- The `switch`: which branch an opcode takes.
unfoldable pub branch_of : ℕ → Branch
branch_of opcode =
    if opcode == stop_op
    then stop
    else if one_of opcode verylow_labels
    then charge verylow
    else if one_of opcode low_labels
    then charge low
    else if one_of opcode mid_labels
    then charge mid
    else if opcode == sha3_op
    then charge sha3_gas
    else if one_of opcode context_labels
    then charge base
    else if one_of opcode external_labels
    then charge warm_storage_read_cost
    else if one_of opcode memory_labels
    then charge verylow
    else if opcode == sload_op
    then sload
    else if opcode == sstore_op
    then sstore
    else if opcode == jump_op
    then charge mid
    else if opcode == jumpi_op
    then charge high
    else if opcode == jumpdest_op
    then charge 1
    else if opcode == create_op
    then charge create_gas
    else if one_of opcode call_labels
    then charge warm_storage_read_cost
    else if one_of opcode return_labels
    then charge 0
    else if opcode == selfdestruct_op
    then charge selfdestruct_gas
    else if opcode == push0_op
    then push_zero
    else if leb push1_op opcode && leb opcode push32_op
    then push (opcode - push1_op + 1)
    else unknown
