-- ===== src/Network/P2pNode/Peers.antt =====
-- The connection to one peer
use quids_evm_cpp.Base.{
  ℕ, ◌≤◌, ◌||◌, not, length, ◌≡◌, sym, ap, ◌∙◌, Bool-cases, inl, inr, true, false, none, [], ◌∷◌,
  Bytes, list_eq, nat_eq, arith,
}
use quids_evm_cpp.Base.Dict.{find, contains, insert, find-insert_self, erase-insert}
use quids_evm_cpp.Network.P2pNode.{
  Connection, Node, conn_config, peer_key, validate_peer, open_connection, connect_to_peer,
  disconnect_from_peer,
}

module _ {C W : Type 0} (peer : Connection C W) where
  -- An opening that succeeds stores the new connection under the peer's key and changes nothing else
  -- of the node.
  open_stores :
      (address : Bytes) (port : ℕ) (node node1 : Node C) (w w1 : W)
      → open_connection peer address port node w ≡ (true, node1, w1)
      → node1 ≡ record node {
        connections =
            insert
              (peer_key address port)
              (peer.create (conn_config node.config) w).0
              node.connections;
      }
  unfolding open_connection
  open_stores address port node node1 w w1 h =
      let connection = (peer.create (conn_config node.config) w).0 in
      let (started, w2) = peer.start connection (peer.create (conn_config node.config) w).1 in
      let answer : (open_connection peer address port node w).0 ≡ true = ap (λ r. r.0) h in
      let after : (open_connection peer address port node w).1 ≡ node1 = ap (λ r. r.1) h in
      let traversed = (peer.perform_nat_traversal address port connection w2).0 in
      elim (Bool-cases started) [
        | inr failed ↦
            (let bad : false ≡ true = rw (open_connection, failed) at answer in ground (arith, bad))
        | inl begun ↦ elim (Bool-cases traversed) [
          | inl through ↦ sym (rw (open_connection, begun, through) at after)
          | inr failed ↦
              (let bad : false ≡ true = rw (open_connection, begun, failed) at answer in
                ground (arith, bad))
        ]
      ]

  disconnect_opened :
      (address : Bytes) (port : ℕ) (c : C) (node : Node C) (w : W)
      → find (peer_key address port) node.connections ≡ none
      → (disconnect_from_peer peer address port
          (record node { connections = insert (peer_key address port) c node.connections })
          w).0
        ≡ node
  unfolding disconnect_from_peer
  disconnect_opened address port c node w h =
      let key = peer_key address port in
      rw (disconnect_from_peer, find-insert_self key c node.connections)
        (ap (λ m. record node { connections = m }) (erase-insert key c node.connections h))

  connected_opens :
      (address : Bytes) (port : ℕ) (node node1 : Node C) (w w1 : W)
      → connect_to_peer peer address port node w ≡ (true, node1, w1)
      → find (peer_key address port) node.connections ≡ none
      → open_connection peer address port node w ≡ (true, node1, w1)
  unfolding connect_to_peer
  connected_opens address port node node1 w w1 h absent =
      let answer : (connect_to_peer peer address port node w).0 ≡ true = ap (λ r. r.0) h in
      elim (Bool-cases (not node.running || not (validate_peer address port node))) [
        | inl refused ↦
            let bad : false ≡ true = rw (connect_to_peer, refused) at answer in ground (arith, bad)
        | inr allowed ↦ rw (connect_to_peer, contains, allowed, absent) at h
      ]

  -- If connect_to_peer answers true for a peer that is not in the map of connections, then
  -- disconnect_from_peer for that peer gives the node back as it was before, whatever the network
  -- did in between.
  pub disconnect-connect :
      (address : Bytes) (port : ℕ) (node node1 : Node C) (w w1 later : W)
      → connect_to_peer peer address port node w ≡ (true, node1, w1)
      → find (peer_key address port) node.connections ≡ none
      → (disconnect_from_peer peer address port node1 later).0 ≡ node
  disconnect-connect address port node node1 w w1 later h absent =
      let stored =
        open_stores address port node node1 w w1
          (connected_opens address port node node1 w w1 h absent) in
      ap (λ n. (disconnect_from_peer peer address port n later).0) stored
      ∙ disconnect_opened address port (peer.create (conn_config node.config) w).0 node later absent

  -- A node with as many connections as max_connections answers false also for a peer that is
  -- connected already.
  pub full_refuses :
      (address : Bytes) (port : ℕ) (node : Node C) (w : W)
      → node.config.max_connections ≤ length node.connections
      → connect_to_peer peer address port node w ≡ (false, node, w)
  unfolding connect_to_peer
  full_refuses [] port node w h = ground arith
  full_refuses (c ∷ address) port node w h = ground (arith, h)
