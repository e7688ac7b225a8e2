-- ===== src/Evm/Storage.antt =====
-- src/evm/Storage.cpp: `storage_`, a std::map from an address to the map of its words. A map finds
-- its keys by their order (`Address.Order`).
pub mod Refinement
use quids_evm_cpp.Base.{ℕ, Bool, true, false, Option, none, some, List, [], ◌∷◌, Eq, length}
use quids_evm_cpp.Base.Dict.{Dict, find, insert, erase}
use quids_evm_cpp.Base.Dict
use quids_evm_cpp.Evm.Address.{Address}
use quids_evm_cpp.Evm.Address.Order.{address_eq}

abbrev pub Words : Type 0 → Type 0
Words Word = Dict Address (Dict Word Word)

module _ {Word : Type 0} ⦃e : Eq Word⦄ where
  -- The map that `storage_[address]` refers to: operator[] makes an empty one where there is none.
  abbrev pub entry : Address → Words Word → Dict Word Word
  entry address storage = elim (find address storage) [ none ↦ [] | some words ↦ words ]

  unfoldable pub store : Address → Word → Word → Words Word → Words Word
  store address key value storage =
      insert address (insert key value (entry address storage)) storage

  -- `default` is `uint256_t(0)`.
  unfoldable pub load : Word → Address → Word → Words Word → Word
  load default address key storage = elim (find address storage) [
    | none ↦ default
    | some words ↦ elim (find key words) [ none ↦ default | some value ↦ value ]
  ]

  -- `clear(address)`
  unfoldable pub clear_account : Address → Words Word → Words Word
  clear_account address storage = erase address storage

  unfoldable pub contains : Address → Word → Words Word → Bool
  contains address key storage = elim (find address storage) [
    | none ↦ false
    | some words ↦ Dict.contains key words
  ]

  unfoldable pub size : Address → Words Word → ℕ
  size address storage = elim (find address storage) [ none ↦ 0 | some words ↦ length words ]

  -- `clear()`
  abbrev pub clear : Words Word → Words Word
  clear storage = []
