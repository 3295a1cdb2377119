-- ===== src/Gossip/Discovery/Candidates.antt =====
-- The candidates that a node knows, each once, and none of them itself.
use nova_airouter.Prelude.{
  ℕ, suc, ℤ, Time, subst, ◌≡◌, refl, ap, ◌∙◌, Bool, true, false, not, ◌&&◌, ◌||◌, if◌then◌else◌,
  Option, none, some, List, [], ◌∷◌, ◌++◌, select, inl, inr, Text, text_eq, text_eq_iff,
  text_eq_refl, codes, Bool-cases, arith,
}
use nova_airouter.Gossip.Discovery.{
  NodeInfo, BroadcastMessage, DiscoveryConfig, Discovery, compute_auth_hash, verify_auth_hash,
  presence, is_candidate, refreshed, add_candidate, hear_message, hear, cleanup_stale_candidates,
  Sighting, hears, cleans, sight, sight_all,
}

-- No id stands twice.
abbrev pub AreDistinct : List NodeInfo → Type 0
AreDistinct [] = Unit
AreDistinct (c ∷ cs) = (is_candidate c.node_id cs ≡ false) × AreDistinct cs

pub record IsSound (self : Text) (d : Discovery) : Type 0 where
  pub distinct : AreDistinct d.candidates
  pub not_self : is_candidate self d.candidates ≡ false

is_candidate-append :
    (id : Text) (cs : List NodeInfo) (info : NodeInfo)
    → is_candidate id (cs ++ info ∷ []) ≡ (is_candidate id cs || text_eq info.node_id id)
is_candidate-append id [] info = ground arith
is_candidate-append id (c ∷ cs) info = ground (arith, is_candidate-append id cs info)

is_candidate-refreshed :
    (id : Text) (now : Time) (info : NodeInfo) (cs : List NodeInfo)
    → is_candidate id (refreshed now info cs) ≡ is_candidate id cs
is_candidate-refreshed id now info [] = refl
is_candidate-refreshed id now info (c ∷ cs) = elim (Bool-cases (text_eq c.node_id info.node_id)) [
  | inl e ↦ rw e refl
  | inr e ↦ rw e (ap (λ b. text_eq c.node_id id || b) (is_candidate-refreshed id now info cs))
]

is_candidate-select :
    (id : Text) (test : NodeInfo → Bool) (cs : List NodeInfo)
    → is_candidate id cs ≡ false
    → is_candidate id (select test cs) ≡ false
is_candidate-select id test [] h = refl
is_candidate-select id test (c ∷ cs) h = ground (arith, is_candidate-select id test cs)

append-AreDistinct :
    (cs : List NodeInfo) (info : NodeInfo)
    → AreDistinct cs
    → is_candidate info.node_id cs ≡ false
    → AreDistinct (cs ++ info ∷ [])
append-AreDistinct [] info d h = (refl, tt)
append-AreDistinct (c ∷ cs) info d h = (
  is_candidate-append c.node_id cs info
      ∙ ground
          (arith, d.0, h, text_eq_iff c.node_id info.node_id, text_eq_iff info.node_id c.node_id),
  append-AreDistinct cs info d.1 (ground arith),
)

refreshed-AreDistinct :
    (now : Time) (info : NodeInfo) (cs : List NodeInfo)
    → AreDistinct cs
    → AreDistinct (refreshed now info cs)
refreshed-AreDistinct now info [] d = tt
refreshed-AreDistinct now info (c ∷ cs) d = elim (Bool-cases (text_eq c.node_id info.node_id)) [
  | inl e ↦ rw e d
  | inr e ↦
      rw e
        (is_candidate-refreshed c.node_id now info cs ∙ d.0, refreshed-AreDistinct now info cs d.1)
]

select-AreDistinct :
    (test : NodeInfo → Bool) (cs : List NodeInfo) → AreDistinct cs → AreDistinct (select test cs)
select-AreDistinct test [] d = tt
select-AreDistinct test (c ∷ cs) d = elim (Bool-cases (test c)) [
  | inl e ↦ rw e (is_candidate-select c.node_id test cs d.0, select-AreDistinct test cs d.1)
  | inr e ↦ rw e (select-AreDistinct test cs d.1)
]

add_candidate-IsSound :
    (self : Text) (now : Time) (info : NodeInfo) (d : Discovery)
    → text_eq info.node_id self ≡ false
    → IsSound self d
    → IsSound self (add_candidate now info d)
unfolding add_candidate
add_candidate-IsSound self now info d n s =
    elim (Bool-cases (is_candidate info.node_id d.candidates)) [
      | inl e ↦ rw e (record {
        distinct = refreshed-AreDistinct now info d.candidates s.distinct;
        not_self = is_candidate-refreshed self now info d.candidates ∙ s.not_self;
      })
      | inr e ↦ rw e (record {
        distinct = append-AreDistinct d.candidates info s.distinct e;
        not_self = is_candidate-append self d.candidates info ∙ rw (s.not_self, n) refl;
      })
    ]

if-IsSound :
    (self : Text) (b : Bool) (x y : Discovery)
    → IsSound self x
    → IsSound self y
    → IsSound self (if b then x else y)
if-IsSound self true x y h k = h
if-IsSound self false x y h k = k

hear_message-IsSound :
    (c : DiscoveryConfig) (now : Time) (ip : Text) (msg : BroadcastMessage) (d : Discovery)
    → IsSound c.node_id d
    → IsSound c.node_id (hear_message c now ip msg d)
unfolding hear_message
hear_message-IsSound c now ip msg d s =
    if-IsSound c.node_id (not (text_eq msg.type (codes "announce"))) d _ s
      (elim (Bool-cases (text_eq msg.node_id c.node_id)) [
        | inl e ↦ rw e s
        | inr e ↦ rw e (if-IsSound c.node_id _ d _ s (add_candidate-IsSound c.node_id now _ d e s))
      ])

sight-IsSound :
    (c : DiscoveryConfig) (d : Discovery) (x : Sighting)
    → IsSound c.node_id d
    → IsSound c.node_id (sight c d x)
unfolding hear cleanup_stale_candidates
sight-IsSound c d (hears now ip none) s = s
sight-IsSound c d (hears now ip (some msg)) s = hear_message-IsSound c now ip msg d s
sight-IsSound c d (cleans now) s = record {
  distinct = select-AreDistinct _ d.candidates s.distinct;
  not_self = is_candidate-select c.node_id _ d.candidates s.not_self;
}

-- Whatever a node hears, from anyone, its candidates have distinct ids, and it is none of them.
pub sight_all-IsSound :
    (c : DiscoveryConfig) (xs : List Sighting) (d : Discovery)
    → IsSound c.node_id d
    → IsSound c.node_id (sight_all c d xs)
sight_all-IsSound c [] d s = s
sight_all-IsSound c (x ∷ xs) d s = sight_all-IsSound c xs (sight c d x) (sight-IsSound c d x s)

abbrev pub times : Text → List NodeInfo → ℕ
times id [] = 0
times id (c ∷ cs) = if text_eq c.node_id id then suc (times id cs) else times id cs

-- The address and the instant of the first candidate with the id.
abbrev pub seen_of : Text → List NodeInfo → Option (Text × Time)
seen_of id [] = none
seen_of id (c ∷ cs) =
    if text_eq c.node_id id then some (c.admin_addr, c.last_seen) else seen_of id cs

times_none : (id : Text) (cs : List NodeInfo) → is_candidate id cs ≡ false → times id cs ≡ 0
times_none id [] h = refl
times_none id (c ∷ cs) h = ground (arith, times_none id cs)

times_once :
    (id : Text) (cs : List NodeInfo) → AreDistinct cs → is_candidate id cs ≡ true → times id cs ≡ 1
times_once id [] d h = absurd (cc)
times_once id (c ∷ cs) d h = elim (Bool-cases (text_eq c.node_id id)) [
  | inl e ↦ rw e (
      ap suc (
        times_none id cs
          (subst (λ x. is_candidate x cs ≡ false) ((text_eq_iff c.node_id id).0 e) d.0)))
  | inr e ↦ rw e (times_once id cs d.1 (rw e at h))
]

seen_of-append :
    (info : NodeInfo) (cs : List NodeInfo)
    → is_candidate info.node_id cs ≡ false
    → seen_of info.node_id (cs ++ info ∷ []) ≡ some (info.admin_addr, info.last_seen)
seen_of-append info [] h = rw (text_eq_refl info.node_id) refl
seen_of-append info (c ∷ cs) h = ground (arith, seen_of-append info cs)

seen_of-refreshed :
    (now : Time) (info : NodeInfo) (cs : List NodeInfo)
    → is_candidate info.node_id cs ≡ true
    → seen_of info.node_id (refreshed now info cs) ≡ some (info.admin_addr, now)
seen_of-refreshed now info [] h = absurd (cc)
seen_of-refreshed now info (c ∷ cs) h = elim (Bool-cases (text_eq c.node_id info.node_id)) [
  | inl e ↦ rw (e, e) refl
  | inr e ↦ rw (e, e) (seen_of-refreshed now info cs (rw e at h))
]

is_candidate-added :
    (now : Time) (info : NodeInfo) (d : Discovery)
    → is_candidate info.node_id (add_candidate now info d).candidates ≡ true
unfolding add_candidate
is_candidate-added now info d = elim (Bool-cases (is_candidate info.node_id d.candidates)) [
  | inl e ↦ rw e (is_candidate-refreshed info.node_id now info d.candidates ∙ e)
  | inr e ↦
      rw e (
        is_candidate-append info.node_id d.candidates info ∙ rw (e, text_eq_refl info.node_id) refl)
]

added_lem :
    (now : Time) (info : NodeInfo) (d : Discovery)
    → info.last_seen ≡ now
    → (seen_of info.node_id (add_candidate now info d).candidates ≡ some (info.admin_addr, now))
      × ((add_candidate now info d).joins ≡ (
          if is_candidate info.node_id d.candidates
          then d.joins
          else d.joins ++ (info.node_id, info.admin_addr) ∷ []))
unfolding add_candidate
added_lem now info d h = elim (Bool-cases (is_candidate info.node_id d.candidates)) [
  | inl e ↦ rw e (seen_of-refreshed now info d.candidates e, refl)
  | inr e ↦ rw e (seen_of-append info d.candidates e ∙ ap (λ t. some (info.admin_addr, t)) h, refl)
]

abbrev announced : DiscoveryConfig → Time → Text → ℤ → NodeInfo
announced s now ip port = record {
  node_id = s.node_id;
  admin_addr = ip;
  disc_port = port;
  last_seen = now;
}

authorized :
    (c : DiscoveryConfig) (id : Text) → verify_auth_hash c id [] (compute_auth_hash c id []) ≡ true
unfolding verify_auth_hash
authorized c id = ground (arith, text_eq_refl (compute_auth_hash c id []))

same_hash :
    (c s : DiscoveryConfig) (id : Text)
    → s.api_key ≡ c.api_key
    → s.hmac ≡ c.hmac
    → compute_auth_hash s id [] ≡ compute_auth_hash c id []
unfolding compute_auth_hash
same_hash c s id key mac = rw (key, mac) refl

let_through : (a b : Bool) → b ≡ true → (not a && not b) ≡ false
let_through a b h = ground arith

heard_lem :
    (c s : DiscoveryConfig) (now : Time) (ip : Text) (port : ℤ) (d : Discovery)
    → text_eq s.node_id c.node_id ≡ false
    → s.api_key ≡ c.api_key
    → s.hmac ≡ c.hmac
    → hear c now ip (some (presence s port)) d ≡ add_candidate now (announced s now ip port) d
unfolding hear hear_message presence text_eq
heard_lem c s now ip port d other key mac =
    let ok =
      ap (verify_auth_hash c s.node_id []) (same_hash c s s.node_id key mac)
      ∙ authorized c s.node_id in
    rw (other, let_through (text_eq c.api_key []) _ ok) refl

-- A node that announces itself is found: one with the same key and another id that hears it, after
-- anything that it has heard before, has it as a candidate, once, at the address that the datagram
-- came from and seen now; and the callback for joining is called exactly if it was none before.
pub presence_heard :
    (c s : DiscoveryConfig) (now : Time) (ip : Text) (port : ℤ) (xs : List Sighting)
    (start : Discovery)
    → IsSound c.node_id start
    → text_eq s.node_id c.node_id ≡ false
    → s.api_key ≡ c.api_key
    → s.hmac ≡ c.hmac
    → let d = sight_all c start xs in
      let t = hear c now ip (some (presence s port)) d in
      (times s.node_id t.candidates ≡ 1)
      × (seen_of s.node_id t.candidates ≡ some (ip, now))
      × (t.joins ≡ (
          if is_candidate s.node_id d.candidates then d.joins else d.joins ++ (s.node_id, ip) ∷ []))
presence_heard c s now ip port xs start sound other key mac =
    let d = sight_all c start xs in
    let info = announced s now ip port in
    let same = heard_lem c s now ip port d other key mac in
    let sound' =
      add_candidate-IsSound c.node_id now info d other (sight_all-IsSound c xs start sound) in
    let (seen, joined) = added_lem now info d refl in
    rw same (
      times_once s.node_id (add_candidate now info d).candidates sound'.distinct
          (is_candidate-added now info d),
      seen,
      joined,
    )
