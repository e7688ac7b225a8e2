-- ===== src/Network/P2pNode/Connections.antt =====
-- How many connections a node holds
use quids_evm_cpp.Base.{ℕ, ◌+◌, ◌≤◌, ◌<◌, List, [], ◌∷◌, Bytes, list_eq, nat_eq, length, arith}
use quids_evm_cpp.Base.Dict.{Dict, insert, erase, length-insert}
use quids_evm_cpp.Network.P2pNode.{
  Connection, Node, conn_config, peer_key, get_connection_count, add_bootstrap_peer,
  open_connection, connect_to_peer, disconnect_from_peer, connect_all, discover_peers,
  accept_client, connected_only, cleanup_disconnected_peers,
}

-- A call of the node, or a client that its thread accepted
pub data Event : Type 0 where
  connect disconnect accept : Bytes → ℕ → Event
  add_bootstrap : Bytes → ℕ → Event
  discover cleanup : Event

length-erase : {C : Type 0} (k : Bytes) (m : Dict Bytes C) → length (erase k m) ≤ length m
length-erase k [] = omega arith
length-erase k ((j, w) ∷ m) = ground (arith, length-erase k m)

module _ {C W : Type 0} (peer : Connection C W) where
  unfoldable pub run : List Event → Node C → W → Node C × W
  unfolding connect_to_peer disconnect_from_peer accept_client discover_peers
      cleanup_disconnected_peers
  run [] node w = (node, w)
  run (connect address port ∷ events) node w =
      let (connected, node1, w1) = connect_to_peer peer address port node w in run events node1 w1
  run (disconnect address port ∷ events) node w =
      let (node1, w1) = disconnect_from_peer peer address port node w in run events node1 w1
  run (accept client_ip client_port ∷ events) node w =
      let (node1, w1) = accept_client peer client_ip client_port node w in run events node1 w1
  run (add_bootstrap address port ∷ events) node w =
      run events (add_bootstrap_peer address port node) w
  run (discover ∷ events) node w =
      let (node1, w1) = discover_peers peer node w in run events node1 w1
  run (cleanup ∷ events) node w = run events (cleanup_disconnected_peers peer node w) w

-- At most `bound` connections, and a limit that is not above it
abbrev pub IsWithin : {C : Type 0} → ℕ → Node C → Type 0
IsWithin bound node = (length node.connections ≤ bound) × (node.config.max_connections ≤ bound)

insert-le :
    {C : Type 0} (k : Bytes) (c : C) (m : Dict Bytes C) → length (insert k c m) ≤ length m + 1
insert-le k c m = ground (arith, length-insert k c m)

module _ {C W : Type 0} (peer : Connection C W) where
  open-IsWithin :
      (bound : ℕ) (address : Bytes) (port : ℕ) (node : Node C) (w : W)
      → IsWithin bound node
      → length node.connections < node.config.max_connections
      → IsWithin bound (open_connection peer address port node w).1
  unfolding open_connection
  open-IsWithin bound address port node w h less =
      let (connection, w1) = peer.create (conn_config node.config) w in
      ground (arith, h, less, insert-le (peer_key address port) connection node.connections)

  connect-IsWithin :
      (bound : ℕ) (address : Bytes) (port : ℕ) (node : Node C) (w : W)
      → IsWithin bound node
      → IsWithin bound (connect_to_peer peer address port node w).1
  unfolding connect_to_peer
  connect-IsWithin bound [] port node w h = ground (arith, h)
  connect-IsWithin bound (c ∷ address) port node w h =
      ground (arith, h, open-IsWithin bound (c ∷ address) port node w h)

  connect_all-IsWithin :
      (bound : ℕ) (peers : List (Bytes × ℕ)) (node : Node C) (w : W)
      → IsWithin bound node
      → IsWithin bound (connect_all peer peers node w).0
  unfolding connect_all
  connect_all-IsWithin bound [] node w h = h
  connect_all-IsWithin bound ((address, port) ∷ peers) node w h =
      let (connected, node1, w1) = connect_to_peer peer address port node w in
      connect_all-IsWithin bound peers node1 w1 (connect-IsWithin bound address port node w h)

  disconnect-IsWithin :
      (bound : ℕ) (address : Bytes) (port : ℕ) (node : Node C) (w : W)
      → IsWithin bound node
      → IsWithin bound (disconnect_from_peer peer address port node w).0
  unfolding disconnect_from_peer
  disconnect-IsWithin bound address port node w h =
      ground (arith, h, length-erase (peer_key address port) node.connections)

  accept-IsWithin :
      (bound : ℕ) (address : Bytes) (port : ℕ) (node : Node C) (w : W)
      → IsWithin bound node
      → IsWithin (bound + 1) (accept_client peer address port node w).0
  unfolding accept_client
  accept-IsWithin bound address port node w h =
      let (connection, w1) = peer.create (conn_config node.config) w in
      ground (arith, h, insert-le (peer_key address port) connection node.connections)

  connected_only-le : (m : Dict Bytes C) (w : W) → length (connected_only peer m w) ≤ length m
  unfolding connected_only
  connected_only-le [] w = omega arith
  connected_only-le ((k, c) ∷ m) w = ground (arith, connected_only-le m w)

-- The clients accepted
unfoldable pub accepted : List Event → ℕ
accepted [] = 0
accepted (accept client_ip client_port ∷ events) = accepted events + 1
accepted (connect address port ∷ events) = accepted events
accepted (disconnect address port ∷ events) = accepted events
accepted (add_bootstrap address port ∷ events) = accepted events
accepted (discover ∷ events) = accepted events
accepted (cleanup ∷ events) = accepted events

module _ {C W : Type 0} (peer : Connection C W) where
  run-IsWithin :
      (bound : ℕ) (events : List Event) (node : Node C) (w : W)
      → IsWithin bound node
      → IsWithin (bound + accepted events) (run peer events node w).0
  unfolding run accepted discover_peers cleanup_disconnected_peers
  run-IsWithin bound [] node w h = ground (arith, h)
  run-IsWithin bound (connect address port ∷ events) node w h =
      let (connected, node1, w1) = connect_to_peer peer address port node w in
      run-IsWithin bound events node1 w1 (connect-IsWithin peer bound address port node w h)
  run-IsWithin bound (disconnect address port ∷ events) node w h =
      let (node1, w1) = disconnect_from_peer peer address port node w in
      run-IsWithin bound events node1 w1 (disconnect-IsWithin peer bound address port node w h)
  run-IsWithin bound (accept client_ip client_port ∷ events) node w h =
      let (node1, w1) = accept_client peer client_ip client_port node w in
      let rest =
        run-IsWithin (bound + 1) events node1 w1
          (accept-IsWithin peer bound client_ip client_port node w h) in
      (omega (arith, rest.0), omega (arith, rest.1))
  run-IsWithin bound (add_bootstrap address port ∷ events) node w h =
      run-IsWithin bound events (add_bootstrap_peer address port node) w h
  run-IsWithin bound (discover ∷ events) node w h =
      let (node1, w1) = discover_peers peer node w in
      run-IsWithin bound events node1 w1
        (connect_all-IsWithin peer bound node.bootstrap_peers node w h)
  run-IsWithin bound (cleanup ∷ events) node w h =
      run-IsWithin bound events (cleanup_disconnected_peers peer node w) w
        (ground (arith, h, connected_only-le peer node.connections w))

  -- After any calls of connect_to_peer, disconnect_from_peer, discover_peers, add_bootstrap_peer and
  -- cleanup_disconnected_peers, one after another in any order, and clients that were accepted
  -- between them, a node that had at most max_connections connections has at most max_connections
  -- and the number of those clients.
  pub run-bounded :
      (events : List Event) (node : Node C) (w : W)
      → get_connection_count node ≤ node.config.max_connections
      → get_connection_count (run peer events node w).0
        ≤ node.config.max_connections + accepted events
  run-bounded events node w h =
      (run-IsWithin node.config.max_connections events node w (h, omega arith)).0
