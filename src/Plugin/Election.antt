-- ===== src/Plugin/Election.antt =====
-- models_plugin/election.go: masters, heartbeats and replicated sessions. A message is what
-- `encoding/json` makes of a map: a number that is sent as an integer arrives as a `float64`. What
-- stands deeper than in a field of a field is never read.
use nova_airouter.Prelude.{
  suc, ◌+◌, ◌-◌, ◌*◌, Time, second, elapsed, ℤ, pos, negsuc, ◌+ℤ◌, i32, i64, ltb_ℤ, leb_ℤ, Bool,
  true, false, not, ◌&&◌, if◌then◌else◌, Option, none, some, List, [], ◌∷◌, length, Text, text_eq,
  codes, Dict, lookup, insert, delete,
}
use nova_airouter.Plugin.{Plugin, half, election_timeout_of}
use nova_airouter.Plugin.Chat.{SessionSync}

pub data Scalar : Type 0 where
  nil : Scalar
  of_text : Text → Scalar
  of_float64 : ℤ → Scalar
  of_int64 : ℤ → Scalar
  of_int : ℤ → Scalar
  of_bool : Bool → Scalar

pub data Field : Type 0 where
  scalar : Scalar → Field
  object : Dict Scalar → Field

abbrev pub Message : Type 0
Message = Dict Field

abbrev pub decoded : Scalar → Scalar
decoded (of_int64 n) = of_float64 n
decoded (of_int n) = of_float64 n
decoded v = v

abbrev pub decoded_all : Dict Scalar → Dict Scalar
decoded_all [] = []
decoded_all ((k, v) ∷ m) = (k, decoded v) ∷ decoded_all m

abbrev pub decoded_field : Field → Field
decoded_field (scalar v) = scalar (decoded v)
decoded_field (object m) = object (decoded_all m)

-- The message that arrives where `m` is sent.
unfoldable pub as_received : Message → Message
as_received [] = []
as_received ((k, v) ∷ m) = (k, decoded_field v) ∷ as_received m

-- The type assertions `v.(string)`, `v.(int64)` and `v.(int)`, with their zero values.
abbrev pub as_text : Option Scalar → Text
as_text (some (of_text t)) = t
as_text _ = []

abbrev pub as_int64 : Option Scalar → ℤ
as_int64 (some (of_int64 n)) = n
as_int64 _ = pos 0

abbrev pub as_int : Option Scalar → ℤ
as_int (some (of_int n)) = n
as_int _ = pos 0

abbrev pub as_scalar : Option Field → Option Scalar
as_scalar (some (scalar v)) = some v
as_scalar _ = none

abbrev pub as_map : Option Field → Dict Scalar
as_map (some (object m)) = m
as_map _ = []

abbrev pub text_field : Text → Message → Text
text_field k m = as_text (as_scalar (lookup k m))

abbrev pub int64_field : Text → Message → ℤ
int64_field k m = as_int64 (as_scalar (lookup k m))

-- A message through the router to one plugin, or to all.
pub data Sent : Type 0 where
  to_plugin : Text → Message → Sent
  to_all : Message → Sent

abbrev pub vote_response : ℤ → Message
vote_response term =
    (codes "type", scalar (of_text (codes "election")))
    ∷ (codes "action", scalar (of_text (codes "vote_response")))
    ∷ (codes "term", scalar (of_int64 term))
    ∷ (codes "voted", scalar (of_bool true))
    ∷ []

abbrev pub victory : Plugin → Message
victory s =
    (codes "type", scalar (of_text (codes "election")))
    ∷ (codes "action", scalar (of_text (codes "victory")))
    ∷ (codes "term", scalar (of_int64 s.term))
    ∷ (codes "master_id", scalar (of_text s.service_id))
    ∷ (codes "master_addr", scalar (of_text s.config.plugin_addr))
    ∷ []

abbrev pub heartbeat : ℤ → Plugin → Message
heartbeat unix_now s =
    (codes "type", scalar (of_text (codes "heartbeat")))
    ∷ (codes "master_id", scalar (of_text s.service_id))
    ∷ (codes "master_addr", scalar (of_text s.config.plugin_addr))
    ∷ (codes "timestamp", scalar (of_int64 unix_now))
    ∷ []

-- `syncSession`, for a session of a master.
abbrev pub session_sync : ℤ → SessionSync → Message
session_sync unix_now x =
    (codes "type", scalar (of_text (codes "session_sync")))
    ∷ (codes "action", scalar (of_text (codes "bind")))
    ∷ (
      codes "session",
      object (
          (codes "session_id", of_text x.session_id)
          ∷ (codes "backend_addr", of_text x.backend_addr)
          ∷ (codes "backend_port", of_int x.backend_port)
          ∷ (codes "last_activity", of_int64 unix_now)
          ∷ []),
    )
    ∷ []

unfoldable pub handle_vote_request : Message → Plugin → Plugin × List Sent
handle_vote_request msg s =
    let term = int64_field (codes "term") msg in
    if ltb_ℤ s.term term
    then (
      record s { term = term },
      to_plugin (text_field (codes "candidate_id") msg) (vote_response term) ∷ [],
    )
    else (s, [])

unfoldable pub handle_victory : Message → Plugin → Plugin
handle_victory msg s =
    let term = int64_field (codes "term") msg in
    if leb_ℤ s.term term
    then record s {
      is_master = false;
      master_id = text_field (codes "master_id") msg;
      master_addr = text_field (codes "master_addr") msg;
      term = term;
      is_candidate = false;
    }
    else s

unfoldable pub handle_heartbeat : Time → Message → Plugin → Plugin
handle_heartbeat now msg s =
    let addr = text_field (codes "master_addr") msg in
    record s {
      last_heartbeat = now;
      master_id = text_field (codes "master_id") msg;
      master_addr = if text_eq addr [] then s.master_addr else addr;
    }

-- The instant 1970-01-01 counts 719162 days from the zero instant.
abbrev pub epoch : Time
epoch = 62135596800 * second

-- `time.Unix(n, 0)`, for the years from 1 on.
abbrev pub unix : ℤ → Time
unix (pos n) = epoch + n * second
unix (negsuc n) = epoch - suc n * second

unfoldable pub handle_session_sync : Message → Plugin → Plugin
handle_session_sync msg s =
    let action = text_field (codes "action") msg in
    let session = as_map (lookup (codes "session") msg) in
    let id = as_text (lookup (codes "session_id") session) in
    if text_eq action (codes "bind")
    then record s {
      sessions =
          insert id
            (record {
              session_id = id;
              backend_addr = as_text (lookup (codes "backend_addr") session);
              backend_port = as_int (lookup (codes "backend_port") session);
              last_activity = unix (as_int64 (lookup (codes "last_activity") session));
            })
            s.sessions;
    }
    else if text_eq action (codes "unbind")
    then record s { sessions = delete id s.sessions }
    else s

unfoldable pub handle_message : Time → Message → Plugin → Plugin × List Sent
handle_message now msg s =
    let type = text_field (codes "type") msg in
    let action = text_field (codes "action") msg in
    if text_eq type (codes "election")
    then (if text_eq action (codes "vote")
        then handle_vote_request msg s
        else if text_eq action (codes "victory")
        then (handle_victory msg s, [])
        else (s, []))
    else if text_eq type (codes "heartbeat")
    then (handle_heartbeat now msg s, [])
    else if text_eq type (codes "session_sync")
    then (handle_session_sync msg s, [])
    else (s, [])

-- The votes: one for itself, and one for each peer that the router says it has passed a request to.
unfoldable pub count_votes : (Text → Bool) → Text → ℤ → List Text → ℤ
count_votes passed_on self votes [] = votes
count_votes passed_on self votes (peer ∷ peers) =
    count_votes passed_on self
      (if text_eq peer self then votes else if passed_on peer then i32 (votes +ℤ pos 1) else votes)
      peers

unfoldable pub become_master : Plugin → Plugin × List Sent
become_master s =
    let s' = record s { is_master = true; master_id = s.service_id; is_candidate = false } in
    (s', to_all (victory s') ∷ [])

-- `startElection`, one round; after a lost one another follows, when the plugin has slept.
unfoldable pub start_election : (Text → Bool) → Plugin → Plugin × List Sent
start_election passed_on s =
    let s' = record s { term = i64 (s.term +ℤ pos 1); is_candidate = true } in
    let attempts = i32 (s.election_attempts +ℤ pos 1) in
    if ltb_ℤ (half (i32 (pos (length s.peers))))
      (count_votes passed_on s.service_id (pos 1) s.peers)
    then become_master (record s' { election_attempts = pos 0 })
    else (
      record s' {
        is_candidate = false;
        election_attempts = if ltb_ℤ (pos 5) attempts then pos 0 else attempts;
      },
      [],
    )

-- `getPeers`, given the peers that the router answers with, none for an error.
unfoldable pub get_peers : Option (List Text) → Plugin → Plugin
get_peers none s = s
get_peers (some peers) s = if text_eq s.service_id [] then s else record s { peers = peers }

-- `getPeersAndStartElection`: without a peer it is the master; with one it starts an election.
abbrev pub alone_in : List Text → Plugin → Plugin × Bool
alone_in [] s = (record s { is_master = true; master_id = s.service_id }, false)
alone_in (peer ∷ peers) s = (s, true)

unfoldable pub get_peers_and_start_election : Option (List Text) → Plugin → Plugin × Bool
get_peers_and_start_election answer s = let s' = get_peers answer s in alone_in s'.peers s'

-- One tick of `monitorHeartbeat`, and whether it starts an election.
unfoldable pub monitor_heartbeat : Time → Plugin → Plugin × Bool
monitor_heartbeat now s = if s.is_master then (record s { last_heartbeat = now }, false) else (
  s,
  not (text_eq s.master_id [])
      && ltb_ℤ (election_timeout_of s.config) (elapsed now s.last_heartbeat),
)

-- One tick of `sendHeartbeat`.
unfoldable pub send_heartbeat : ℤ → Plugin → List Sent
send_heartbeat unix_now s = if s.is_master then to_all (heartbeat unix_now s) ∷ [] else []
