-- ===== src/Gossip/Discovery.antt =====
-- internal/gossip/discovery/discovery.go: nodes that announce themselves over UDP. A datagram is one
-- step; HMAC-SHA256 with its hexadecimal digits is a parameter, by key and text.
pub mod Candidates
mod Tests
use nova_airouter.Prelude.{
  ◌*◌, Time, second, elapsed, ltb_ℤ, ℤ, pos, Bool, true, false, not, ◌&&◌, ◌||◌, if◌then◌else◌,
  Option, none, some, List, [], ◌∷◌, ◌++◌, select, Text, text_eq, codes,
}

pub record NodeInfo : Type 0 where
  pub node_id : Text
  pub admin_addr : Text
  pub disc_port : ℤ
  pub last_seen : Time

pub record BroadcastMessage : Type 0 where
  pub type : Text
  pub node_id : Text
  pub addr : Text
  pub base_port : ℤ
  pub disc_port : ℤ
  pub auth_hash : Text

pub record DiscoveryConfig : Type 0 where
  pub node_id : Text
  pub api_key : Text
  pub bind_port : ℤ  -- what `Sscanf` reads of the listen address, 0 without a port
  pub hmac : Text → Text → Text

-- The candidates, and the calls of the callback for joining.
pub record Discovery : Type 0 where
  pub candidates : List NodeInfo
  pub joins : List (Text × Text)

abbrev pub candidate_timeout : ℤ
candidate_timeout = pos (60 * second)

unfoldable pub compute_auth_hash : DiscoveryConfig → Text → Text → Text
compute_auth_hash c node_id addr =
    if text_eq c.api_key [] then [] else c.hmac c.api_key (node_id ++ addr)

unfoldable pub verify_auth_hash : DiscoveryConfig → Text → Text → Text → Bool
verify_auth_hash c node_id addr auth_hash =
    text_eq c.api_key [] || text_eq auth_hash (compute_auth_hash c node_id addr)

-- What `broadcastPresence` sends.
unfoldable pub presence : DiscoveryConfig → ℤ → BroadcastMessage
presence c broadcast_port = record {
  type = codes "announce";
  node_id = c.node_id;
  addr = [];
  base_port = c.bind_port;
  disc_port = broadcast_port;
  auth_hash = compute_auth_hash c c.node_id [];
}

abbrev pub is_candidate : Text → List NodeInfo → Bool
is_candidate node_id [] = false
is_candidate node_id (c ∷ cs) = text_eq c.node_id node_id || is_candidate node_id cs

-- The first candidate with the id is seen now, at the new address.
abbrev pub refreshed : Time → NodeInfo → List NodeInfo → List NodeInfo
refreshed now info [] = []
refreshed now info (c ∷ cs) =
    let rest = refreshed now info cs in
    if text_eq c.node_id info.node_id
    then record c { last_seen = now; admin_addr = info.admin_addr } ∷ cs
    else c ∷ rest

unfoldable pub add_candidate : Time → NodeInfo → Discovery → Discovery
add_candidate now info d =
    if is_candidate info.node_id d.candidates
    then record d { candidates = refreshed now info d.candidates }
    else record d {
      candidates = d.candidates ++ info ∷ [];
      joins = d.joins ++ (info.node_id, info.admin_addr) ∷ [];
    }

-- A datagram from the address `src_ip`, none where it is no JSON.
unfoldable pub hear_message :
    DiscoveryConfig → Time → Text → BroadcastMessage → Discovery → Discovery
hear_message c now src_ip msg d =
    if not (text_eq msg.type (codes "announce"))
    then d
    else if text_eq msg.node_id c.node_id
    then d
    else if not (text_eq c.api_key [])
        && not (verify_auth_hash c msg.node_id msg.addr msg.auth_hash)
    then d
    else add_candidate now
        (record {
          node_id = msg.node_id;
          admin_addr = if text_eq msg.addr [] then src_ip else msg.addr;
          disc_port = msg.disc_port;
          last_seen = now;
        })
        d

unfoldable pub hear :
    DiscoveryConfig → Time → Text → Option BroadcastMessage → Discovery → Discovery
hear c now src_ip none d = d
hear c now src_ip (some msg) d = hear_message c now src_ip msg d

unfoldable pub cleanup_stale_candidates : Time → Discovery → Discovery
cleanup_stale_candidates now d = record d {
  candidates = select (λ c. not (ltb_ℤ candidate_timeout (elapsed now c.last_seen))) d.candidates;
}

-- What happens to a node's discovery.
pub data Sighting : Type 0 where
  hears : Time → Text → Option BroadcastMessage → Sighting
  cleans : Time → Sighting

abbrev pub sight : DiscoveryConfig → Discovery → Sighting → Discovery
sight c d (hears now src_ip msg) = hear c now src_ip msg d
sight c d (cleans now) = cleanup_stale_candidates now d

abbrev pub sight_all : DiscoveryConfig → Discovery → List Sighting → Discovery
sight_all c d [] = d
sight_all c d (x ∷ xs) = sight_all c (sight c d x) xs
