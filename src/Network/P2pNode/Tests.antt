-- ===== src/Network/P2pNode/Tests.antt =====
-- Connections that are numbers: an odd one is refused by its peer. The network is the number that the
-- next connection has.
use quids_evm_cpp.Base.{
  ℕ, ◌+◌, ◌%◌, ◌≤◌, ◌≡◌, refl, true, false, [], ◌∷◌, Bytes, ◌==◌, arith, list_eq, nat_eq,
}
use quids_evm_cpp.Base.Dict.{Dict}
use quids_evm_cpp.Network.P2pNode.{
  Connection, Config, Node, get_connection_count, peer_key, open_connection, connect_to_peer,
  disconnect_from_peer, broadcast_message, send_all, send_message_to_peer, accept_client,
  cleanup_disconnected_peers, connected_only,
}
use quids_evm_cpp.Network.P2pNode.Connections.{connect, accept, run, accepted, run-bounded}
use quids_evm_cpp.Network.P2pNode.Peers.{disconnect-connect}

abbrev numbered : Connection ℕ ℕ
numbered = record {
  create = λ config w. (w, w + 1);
  start = λ c w. (true, w);
  perform_nat_traversal = λ address port c w. (c % 2 == 0, w);
  stop = λ c w. w;
  disconnect = λ c w. w;
  is_connected = λ c w. c % 2 == 0;
  get_address = λ c w. 1 ∷ [];
  get_port = λ c w. 7;
  send_message = λ address port message c w. (true, w + 10);
}

abbrev config : Config
config = record {
  port = 7;
  stun_server = [];
  stun_port = 3478;
  enable_upnp = true;
  enable_nat_pmp = true;
  max_peers = 100;
  max_connections = 2;
  connection_timeout_ms = 30000;
  ping_interval_ms = 10000;
}

abbrev node : Dict Bytes ℕ → Node ℕ
node connections = record {
  config = config;
  running = true;
  connections = connections;
  bootstrap_peers = [];
}

abbrev alice_key : Bytes
alice_key = 65 ∷ 58 ∷ 55 ∷ []

connected : connect_to_peer numbered (65 ∷ []) 7 (node []) 4 ≡ (true, node ((alice_key, 4) ∷ []), 5)
unfolding connect_to_peer open_connection peer_key
connected = refl

refused : connect_to_peer numbered (65 ∷ []) 7 (node []) 5 ≡ (false, node [], 6)
unfolding connect_to_peer open_connection peer_key
refused = refl

reached : broadcast_message numbered (1 ∷ []) (node ((alice_key, 4) ∷ ([], 5) ∷ [])) 6 ≡ (true, 16)
unfolding broadcast_message send_all
reached = refl

sent :
    send_message_to_peer numbered (65 ∷ []) 7 (1 ∷ []) (node ((alice_key, 4) ∷ [])) 6 ≡ (true, 16)
unfolding send_message_to_peer peer_key
sent = refl

cleaned :
    cleanup_disconnected_peers numbered (node ((alice_key, 4) ∷ ([], 5) ∷ [])) 6
    ≡ node ((alice_key, 4) ∷ [])
unfolding cleanup_disconnected_peers connected_only
cleaned = refl

-- A client is accepted although two connections are the limit.
over_limit :
    get_connection_count
      (run numbered
        (connect (65 ∷ []) 7 ∷ accept (66 ∷ []) 7 ∷ accept (67 ∷ []) 7 ∷ [])
        (node [])
        4).0
    ≡ 3
unfolding run connect_to_peer open_connection accept_client peer_key
over_limit = refl

run-bounded_example :
    get_connection_count
      (run numbered
        (connect (65 ∷ []) 7 ∷ accept (66 ∷ []) 7 ∷ accept (67 ∷ []) 7 ∷ [])
        (node [])
        4).0
    ≤ 2 + accepted (connect (65 ∷ []) 7 ∷ accept (66 ∷ []) 7 ∷ accept (67 ∷ []) 7 ∷ [])
run-bounded_example =
    run-bounded numbered (connect (65 ∷ []) 7 ∷ accept (66 ∷ []) 7 ∷ accept (67 ∷ []) 7 ∷ [])
      (node []) 4 (omega arith)

disconnect-connect_example :
    (disconnect_from_peer numbered (65 ∷ []) 7 (node ((alice_key, 4) ∷ [])) 30).0 ≡ node []
disconnect-connect_example =
    disconnect-connect numbered (65 ∷ []) 7 (node []) (node ((alice_key, 4) ∷ [])) 4 5 30 connected
      refl
