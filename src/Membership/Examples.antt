-- ===== src/Membership/Examples.antt =====
-- src/membership.rs: a server that keeps what it was started with, under a parser that takes every
-- text that is not empty.
use raft_distributed_log_rs.Membership.{Config, Library, Membership, Options, join_all}
use raft_distributed_log_rs.Membership
use raft_distributed_log_rs.Prelude.{
  List, Option, String, [], false, none, refl, some, ◌++◌, ◌∷◌, ◌≡◌,
}

abbrev text_of : String → Option String
text_of String.[] = none
text_of (String.◌∷◌ c s) = some (String.◌∷◌ c s)

-- A server is what it was started with, and the addresses that it has joined.
abbrev Server : Type 0
Server = Options String String String String × List String

abbrev recording : Library String String String String Server
recording = record {
  parse_host = text_of;
  parse_socket = text_of;
  parse_id = text_of;
  local = "local";
  with_event_producer = λ options. some (options, []);
  join = λ serf addr. some (serf.0, serf.1 ++ addr ∷ []);
}

abbrev second_node : Config
second_node = record {
  peer_addresses = "[::1]:28101" ∷ "[::1]:28103" ∷ [];
  addr = "28102";
  advertise_addr = "[::1]:28102";
  node_id = "node-2";
  rpc_addr = "[::1]:28102";
}

-- What the second node is started with, and its two peers, in their order.
abbrev joined_both : Membership Server
joined_both = record {
  is_shutdown = false;
  serf = (
    record {
      node_id = "node-2";
      bind_address = "[::]:28102";
      advertise_address = "[::1]:28102";
      memberlist_options = "local";
      event_buffer_size = 256;
      tags = ("rpc_addr", "[::1]:28102") ∷ [];
    },
    "[::1]:28101" ∷ "[::1]:28103" ∷ [],
  );
}

joins_both : Membership.new recording second_node ≡ some joined_both
unfolding Membership.new join_all
joins_both = refl

-- A peer whose address does not text_of stops the node, though the first peer was joined.
bad_peer_panics :
    Membership.new recording (record second_node { peer_addresses = "[::1]:28101" ∷ "" ∷ [] })
    ≡ none
unfolding Membership.new join_all
bad_peer_panics = refl
