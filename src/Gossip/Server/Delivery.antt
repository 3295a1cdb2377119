-- ===== src/Gossip/Server/Delivery.antt =====
-- From one node to another: what a post does where it arrives.
use mathlib.Core.Option
use nova_airouter.Prelude.{
  ◌≢◌, Time, ◌≡◌, refl, sym, ap, ◌∙◌, true, false, if◌then◌else◌, Option, none, some, List, [], ◌∷◌,
  Text, text_eq, text_eq_iff, codes, In, inl, inr, Dict, lookup, Distinct, subst, Bool-cases,
}
use nova_airouter.Models.Node.{RemoteNode, EndpointState}
use nova_airouter.Models.Node.Stale.{state_in}
use nova_airouter.Models.Node.Health.{IsKept}
use nova_airouter.Registry.Local.{LocalRegistry}
use nova_airouter.Registry.Facade.{AggregatedPathInfo, aggregate_local_path_infos}
use nova_airouter.Registry.Facade.Keys.{IsKeyed, aggregate_local_path_infos-keys}
use nova_airouter.Gossip.Sync.Members.{add_peer-IsKept}
use nova_airouter.Gossip.Message.{PathInfo, GossipMessage}
use nova_airouter.Gossip.Sync.{
  Peer, Sync, Post, message_from, notify_peers_of_new_node, post_all, add_peer,
}
use nova_airouter.Gossip.Sync.Messages.{last_info, recorded, over, handle_state_message-state}
use nova_airouter.Gossip.Server.{
  ServerConfig, Request, is_authorized, path_info_of, infos_of, get_local_path_infos, sync_message,
  sync_in, handle_gossip_sync, serve,
}

-- The request that a post becomes, from the address `ip` and with the key `key`.
abbrev pub delivered : Text → Text → Post → Request
delivered key ip p = record {
  method = codes "POST";
  path = p.path;
  api_key = key;
  remote_ip = ip;
  query_node_id = [];
  body = some p.body;
}

nameless_ignored :
    (c : ServerConfig) (now : Time) (reg : LocalRegistry) (r : Request) (msg : GossipMessage)
    (s : Sync)
    → msg.node_id ≡ []
    → ((sync_in c now reg r (some msg) s).sync ≡ s)
      × ((sync_in c now reg r (some msg) s).posts ≡ [])
unfolding sync_in text_eq
nameless_ignored c now reg r msg s e = rw e (refl, refl)

post_ignored :
    (c : ServerConfig) (now : Time) (reg : LocalRegistry) (key ip to : Text) (s : Sync)
    (msg : GossipMessage)
    → msg.node_id ≡ []
    → let v =
        serve c now reg
          (delivered key ip (record { to = to; path = codes "/v1/gossip/peer"; body = msg }))
          s in
      (v.sync ≡ s) × (v.posts ≡ [])
unfolding serve handle_gossip_sync text_eq
post_ignored c now reg key ip to s msg e =
    let r = delivered key ip (record { to = to; path = codes "/v1/gossip/peer"; body = msg }) in
    elim (Bool-cases (is_authorized c r)) [
      | inl a ↦ rw a (nameless_ignored c now reg r msg s e)
      | inr a ↦ rw a (refl, refl)
    ]

post_all_ignored :
    (c : ServerConfig) (now : Time) (reg : LocalRegistry) (key ip : Text) (s : Sync)
    (msg : GossipMessage) (ps : List Peer) (p : Post)
    → msg.node_id ≡ []
    → In p (post_all (codes "/v1/gossip/peer") msg ps)
    → ((serve c now reg (delivered key ip p) s).sync ≡ s)
      × ((serve c now reg (delivered key ip p) s).posts ≡ [])
post_all_ignored c now reg key ip s msg [] p e i = elim i [ ]
post_all_ignored c now reg key ip s msg (x ∷ xs) p e (inl h) =
    subst
      (λ p.
        ((serve c now reg (delivered key ip p) s).sync ≡ s)
        × ((serve c now reg (delivered key ip p) s).posts ≡ []))
      (sym h) (post_ignored c now reg key ip x.address s msg e)
post_all_ignored c now reg key ip s msg (x ∷ xs) p e (inr i) =
    post_all_ignored c now reg key ip s msg xs p e i

-- The announcement of a new peer has no effect: it carries no node id of its sender, and a node
-- that receives it, from any address and with any key, changes no peer and no node and sends
-- nothing.
pub announcement_ignored :
    (c : ServerConfig) (now : Time) (reg : LocalRegistry) (key ip id address : Text) (from s : Sync)
    (p : Post)
    → In p (notify_peers_of_new_node id address from)
    → ((serve c now reg (delivered key ip p) s).sync ≡ s)
      × ((serve c now reg (delivered key ip p) s).posts ≡ [])
unfolding notify_peers_of_new_node
announcement_ignored c now reg key ip id address from s p i =
    post_all_ignored c now reg key ip s _ _ p refl i

last_info-infos_of :
    (path : Text) (m : Dict AggregatedPathInfo) (before : Option PathInfo)
    → Distinct m
    → IsKeyed m
    → last_info path (infos_of m) before
      ≡ over (λ pi. pi) (Option.map path_info_of (lookup path m)) before
unfolding lookup
last_info-infos_of path [] before d k = refl
last_info-infos_of path ((j, agg) ∷ m) before d k =
    let same = ap (λ x. text_eq x path) k.0 in
    ap (λ b. last_info path (infos_of m) (if b then some (path_info_of agg) else before)) same
    ∙ elim (Bool-cases (text_eq j path)) [
      | inl e ↦
          let gone = subst (λ x. lookup x m ≡ none) ((text_eq_iff j path).0 e) d.0 in
          rw e (
            last_info-infos_of path m (some (path_info_of agg)) d.1 k.1
            ∙ ap (λ o. over (λ pi. pi) (Option.map path_info_of o) (some (path_info_of agg))) gone)
      | inr e ↦ rw e (last_info-infos_of path m before d.1 k.1)
    ]

-- The states of a node that is known, as a list of entries.
abbrev pub states_in : Option RemoteNode → Dict EndpointState
states_in none = []
states_in (some node) = node.endpoint_states

kept_states :
    (node : RemoteNode) (o : Option RemoteNode)
    → IsKept node o
    → (n : RemoteNode) × (o ≡ some n) × (n.endpoint_states ≡ node.endpoint_states)
kept_states node none h = absurd h
kept_states node (some n) h = (n, refl, h)

over-none : (o : Option PathInfo) → over (λ pi. pi) o none ≡ o
over-none none = refl
over-none (some pi) = refl

named_eq : (id : Text) → id ≢ [] → text_eq id [] ≡ false
unfolding text_eq
named_eq [] h = absurd (h refl)
named_eq (b ∷ id) h = refl

abbrev info_message : Text → List PathInfo → GossipMessage
info_message id infos = record (message_from id) { path_infos = infos }

state_in-kept :
    (path : Text) (node : RemoteNode) (o : Option RemoteNode)
    → IsKept node o
    → state_in path o ≡ lookup path node.endpoint_states
state_in-kept path node none h = absurd h
state_in-kept path node (some n) h = ap (lookup path) h

sync_in-state :
    (d : ServerConfig) (now : Time) (to : LocalRegistry) (r : Request) (id path : Text)
    (infos : List PathInfo) (s : Sync) (node : RemoteNode)
    → id ≢ []
    → lookup id s.nodes ≡ some node
    → state_in path (lookup id (sync_in d now to r (some (info_message id infos)) s).sync.nodes)
      ≡ over (recorded now) (last_info path infos none) (lookup path node.endpoint_states)
unfolding sync_in
sync_in-state d now to r id path [] s node h e =
    rw (named_eq id h)
      (state_in-kept path node _ (add_peer-IsKept d.sync now _ id r.remote_ip s node e))
sync_in-state d now to r id path (pi ∷ pis) s node h e =
    let s' = (add_peer d.sync now (get_local_path_infos to) id r.remote_ip s).0 in
    let (n, there, same) =
      kept_states node (lookup id s'.nodes)
        (add_peer-IsKept d.sync now _ id r.remote_ip s node e) in
    rw (named_eq id h) (
      handle_state_message-state d.sync now (info_message id (pi ∷ pis)) path s' n there refl
      ∙ rw same refl)

-- From end to end: what a node announces of its own endpoints is what a node that lets it in and
-- knows it records of it. A path that the sender serves gets the aggregated counts and the limit of
-- its endpoints, as healthy and seen now; any other path keeps its state.
pub sync_delivered :
    (c d : ServerConfig) (now : Time) (from to : LocalRegistry) (r : Request) (path : Text)
    (s : Sync) (node : RemoteNode)
    → r.path ≡ codes "/v1/gossip/sync"
    → r.method ≡ codes "POST"
    → r.body ≡ some (sync_message c from)
    → is_authorized d r ≡ true
    → c.sync.node_id ≢ []
    → lookup c.sync.node_id s.nodes ≡ some node
    → state_in path (lookup c.sync.node_id (serve d now to r s).sync.nodes)
      ≡ over
          (recorded now)
          (Option.map path_info_of (lookup path (aggregate_local_path_infos from)))
          (lookup path node.endpoint_states)
unfolding serve handle_gossip_sync text_eq lookup is_authorized aggregate_local_path_infos
sync_delivered c d now from to r path s node p m b a named e =
    let keys = aggregate_local_path_infos-keys from in
    rw (p, a, m, b)
      (sync_in-state d now to r c.sync.node_id path (get_local_path_infos from) s node named e
        ∙ ap (λ o. over (recorded now) o (lookup path node.endpoint_states))
            (unfold get_local_path_infos in
              last_info-infos_of path (aggregate_local_path_infos from) none keys.0 keys.1
              ∙ over-none
                  (Option.map path_info_of (lookup path (aggregate_local_path_infos from)))))
