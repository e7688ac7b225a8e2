-- ===== src/Rollup/EmergencyExit/Exits.antt =====
-- What the exit and the making of its proofs come to.
use quids_evm_cpp.Base.{list_eq, nat_eq}
