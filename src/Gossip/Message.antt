-- ===== src/Gossip/Message.antt =====
-- internal/gossip/message/message.go: what the nodes of a cluster send one another.
use nova_airouter.Prelude.{ℤ, Bool, Option, List, Text}

pub record PathInfo : Type 0 where
  pub service_id : Text
  pub service_path : Text
  pub node_path : Text
  pub active : ℤ  -- int32
  pub queue_len : ℤ  -- int32
  pub healthy : Bool
  pub max_concurrent : ℤ  -- int32
  pub plugin : Bool

-- The part of `models.NodeInfo` that an announcement fills.
pub record PeerInfo : Type 0 where
  pub node_id : Text
  pub address : Text
  pub healthy : Bool

pub record GossipMessage : Type 0 where
  pub type : Text
  pub node_id : Text
  pub peer : Option PeerInfo
  pub path_infos : List PathInfo
  pub deleted_paths : List Text
  pub deleted_node : Bool
