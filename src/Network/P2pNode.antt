-- ===== src/Network/P2pNode.antt =====
-- src/network/P2PNode.cpp with include/network/P2PNode.hpp: the map of connections that a node keeps.
-- A P2PConnection, which is sockets and NAT traversal, is the interface `Connection` here, and what
-- its operations change is a state `W` outside the node. Each operation runs as a whole here, also
-- connect_to_peer and discover_peers, which lock the node's mutex several times.
pub mod Connections
pub mod Peers
mod Tests
use quids_evm_cpp.Base.{
  ℕ, ◌||◌, Bool, true, false, not, none, some, List, [], ◌∷◌, ◌++◌, Bytes, list_eq, nat_eq, ◌==◌,
  ltb, if◌then◌else◌, length,
}
use quids_evm_cpp.Base.Dict.{Dict, find, contains, insert, erase}
use quids_evm_cpp.Storage.Decimal.{to_string}

-- `P2PConnection::Config`
pub record ConnectionConfig : Type 0 where
  pub port : ℕ
  pub stun_server : Bytes
  pub stun_port : ℕ
  pub enable_upnp : Bool
  pub enable_nat_pmp : Bool
  pub max_peers : ℕ
  pub hole_punch_timeout : ℕ
  pub keep_alive_interval : ℕ

-- What the node uses of P2PConnection
pub record Connection (C W : Type 0) : Type 0 where
  pub create : ConnectionConfig → W → C × W
  pub start : C → W → Bool × W
  pub perform_nat_traversal : Bytes → ℕ → C → W → Bool × W
  pub stop : C → W → W
  pub disconnect : C → W → W
  pub is_connected : C → W → Bool
  pub get_address : C → W → Bytes
  pub get_port : C → W → ℕ
  pub send_message : Bytes → ℕ → Bytes → C → W → Bool × W

-- The fields of `P2PNode::Config` that the node reads
pub record Config : Type 0 where
  pub port : ℕ
  pub stun_server : Bytes
  pub stun_port : ℕ
  pub enable_upnp : Bool
  pub enable_nat_pmp : Bool
  pub max_peers : ℕ
  pub max_connections : ℕ
  pub connection_timeout_ms : ℕ
  pub ping_interval_ms : ℕ

pub record Node (C : Type 0) : Type 0 where
  pub config : Config
  pub running : Bool
  pub connections : Dict Bytes C
  pub bootstrap_peers : List (Bytes × ℕ)

-- `address + ":" + std::to_string(port)`
unfoldable pub peer_key : Bytes → ℕ → Bytes
unfolding to_string
peer_key address port = address ++ (58 ∷ to_string port)

-- `conn_config`
abbrev pub conn_config : Config → ConnectionConfig
conn_config config = record {
  port = config.port;
  stun_server = config.stun_server;
  stun_port = config.stun_port;
  enable_upnp = config.enable_upnp;
  enable_nat_pmp = config.enable_nat_pmp;
  max_peers = config.max_peers;
  hole_punch_timeout = config.connection_timeout_ms;
  keep_alive_interval = config.ping_interval_ms;
}

module _ {C : Type 0} where
  abbrev pub get_connection_count : Node C → ℕ
  get_connection_count node = length node.connections

  abbrev pub validate_peer : Bytes → ℕ → Node C → Bool
  validate_peer [] port node = false
  validate_peer (c ∷ address) port node =
      if port == 0 then false else ltb (length node.connections) node.config.max_connections

  abbrev pub add_bootstrap_peer : Bytes → ℕ → Node C → Node C
  add_bootstrap_peer address port node = record node {
    bootstrap_peers = node.bootstrap_peers ++ ((address, port) ∷ []);
  }

module _ {C W : Type 0} (peer : Connection C W) where
  -- A connection that is not in the map yet
  unfoldable pub open_connection : Bytes → ℕ → Node C → W → Bool × Node C × W
  unfolding peer_key
  open_connection address port node w =
      let (connection, w1) = peer.create (conn_config node.config) w in
      let (started, w2) = peer.start connection w1 in
      if not started
      then (false, node, w2)
      else (let (traversed, w3) = peer.perform_nat_traversal address port connection w2 in
          if not traversed then (false, node, peer.stop connection w3) else (
            true,
            record node {
              connections = insert (peer_key address port) connection node.connections;
            },
            w3,
          ))

  unfoldable pub connect_to_peer : Bytes → ℕ → Node C → W → Bool × Node C × W
  unfolding open_connection
  connect_to_peer address port node w =
      if not node.running || not (validate_peer address port node)
      then (false, node, w)
      else if contains (peer_key address port) node.connections
      then (true, node, w)
      else open_connection address port node w

  unfoldable pub disconnect_from_peer : Bytes → ℕ → Node C → W → Node C × W
  unfolding peer_key
  disconnect_from_peer address port node w = elim (find (peer_key address port) node.connections) [
    | none ↦ (node, w)
    | some connection ↦ (
      record node { connections = erase (peer_key address port) node.connections },
      peer.disconnect connection w,
    )
  ]

  -- The loop of broadcast_message over the map
  unfoldable pub send_all : Bytes → Dict Bytes C → Bool → W → Bool × W
  send_all message [] success w = (success, w)
  send_all message ((key, connection) ∷ connections) success w =
      elim (peer.is_connected connection w) [
        | false ↦ send_all message connections success w
        | true ↦
            let (sent, w1) =
              peer.send_message (peer.get_address connection w) (peer.get_port connection w) message
                connection w in
            send_all message connections (sent || success) w1
      ]

  unfoldable pub broadcast_message : Bytes → Node C → W → Bool × W
  unfolding send_all
  broadcast_message [] node w = (false, w)
  broadcast_message (b ∷ message) node w =
      if not node.running then (false, w) else send_all (b ∷ message) node.connections false w

  unfoldable pub send_message_to_peer : Bytes → ℕ → Bytes → Node C → W → Bool × W
  unfolding peer_key
  send_message_to_peer address port [] node w = (false, w)
  send_message_to_peer address port (b ∷ message) node w =
      if not node.running
      then (false, w)
      else elim (find (peer_key address port) node.connections) [
        | none ↦ (false, w)
        | some connection ↦
            if peer.is_connected connection w
            then peer.send_message address port (b ∷ message) connection w
            else (false, w)
      ]

  unfoldable pub connect_all : List (Bytes × ℕ) → Node C → W → Node C × W
  unfolding connect_to_peer
  connect_all [] node w = (node, w)
  connect_all ((address, port) ∷ peers) node w =
      let (connected, node1, w1) = connect_to_peer address port node w in connect_all peers node1 w1

  unfoldable pub discover_peers : Node C → W → Node C × W
  unfolding connect_all
  discover_peers node w = connect_all node.bootstrap_peers node w

  -- A round of accept_connections whose accept() gave a client
  unfoldable pub accept_client : Bytes → ℕ → Node C → W → Node C × W
  unfolding peer_key
  accept_client client_ip client_port node w =
      let (connection, w1) = peer.create (conn_config node.config) w in
      let (started, w2) = peer.start connection w1 in
      if not started then (node, w2) else (
        record node {
          connections = insert (peer_key client_ip client_port) connection node.connections;
        },
        w2,
      )

  -- The loop of cleanup_disconnected_peers
  unfoldable pub connected_only : Dict Bytes C → W → Dict Bytes C
  connected_only [] w = []
  connected_only ((key, connection) ∷ connections) w =
      let rest = connected_only connections w in
      if not (peer.is_connected connection w) then rest else (key, connection) ∷ rest

  unfoldable pub cleanup_disconnected_peers : Node C → W → Node C
  unfolding connected_only
  cleanup_disconnected_peers node w = record node {
    connections = connected_only node.connections w;
  }
