-- ===== src/Network.antt =====
-- src/network and include/network: the connections of a node to its peers.
pub mod P2pNode
