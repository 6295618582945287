-- ===== src/Membership.antt =====
-- src/membership.rs: how a node joins the others. What it uses of Serf is `Library`: the parsers of
-- addresses and names, the preset `MemberlistOptions::local`, the start of a server and the joining of
-- a peer, `none` where the library gives an error. Every error is unwrapped, so `new` panics: `none`.
mod Examples
use raft_distributed_log_rs.Prelude.{
  ◌>>=◌, ◌<>◌, Bool, List, Option, String, [], false, some, ℕ, ◌∷◌,
}

pub record Config : Type 0 where
  pub peer_addresses : List String
  pub addr : String
  pub advertise_addr : String
  pub node_id : String
  pub rpc_addr : String

module _ (A B I M : Type 0) where
  -- What the server is started with: its transport and its options.
  pub record Options : Type 0 where
    pub node_id : I
    pub bind_address : A
    pub advertise_address : B
    pub memberlist_options : M
    pub event_buffer_size : ℕ
    pub tags : List (String × String)

  pub record Library (S : Type 0) : Type 0 where
    pub parse_host : String → Option A
    pub parse_socket : String → Option B
    pub parse_id : String → Option I
    pub local : M
    pub with_event_producer : Options → Option S
    pub join : S → A → Option S

-- The task that handles the events is left out: its handlers go through the members and do nothing.
pub record Membership (S : Type 0) : Type 0 where
  pub is_shutdown : Bool
  pub serf : S

module _ {A B I M S : Type 0} (lib : Library A B I M S) where
  abbrev pub options_for : Config → A → B → I → Options A B I M
  options_for cfg bind_addr advertise_addr node_id = record {
    node_id = node_id;
    bind_address = bind_addr;
    advertise_address = advertise_addr;
    memberlist_options = lib.local;
    event_buffer_size = 256;
    tags = ("rpc_addr", cfg.rpc_addr) ∷ [];
  }

  -- The loop over the peers.
  unfoldable pub join_all : S → List String → Option S
  join_all serf [] = some serf
  join_all serf (peer ∷ peers) = do
    addr ← lib.parse_host peer
    serf' ← lib.join serf addr
    join_all serf' peers

  unfoldable pub new : Config → Option (Membership S)
  new cfg = do
    bind_addr ← lib.parse_host ("[::]:" <> cfg.addr)
    advertise_addr ← lib.parse_socket cfg.advertise_addr
    node_id ← lib.parse_id cfg.node_id
    serf_server ← lib.with_event_producer (options_for cfg bind_addr advertise_addr node_id)
    serf ← join_all serf_server cfg.peer_addresses
    some (record { is_shutdown = false; serf = serf })
