-- ===== src/Gossip/Discovery/Tests.antt =====
-- A node that hears another twice.
use nova_airouter.Prelude.{
  pos, second, ◌*◌, ◌≡◌, refl, if◌then◌else◌, some, List, [], ◌∷◌, ◌++◌, Text, codes, text_eq,
}
use nova_airouter.Gossip.Discovery.{
  DiscoveryConfig, Discovery, presence, is_candidate, hear, Sighting, hears, cleans, sight_all,
}
use nova_airouter.Gossip.Discovery.Candidates.{IsSound, times, seen_of, presence_heard}

abbrev config : Text → DiscoveryConfig
config id = record {
  node_id = id;
  api_key = codes "k";
  bind_port = pos 15050;
  hmac = λ key text. key ++ text;
}

abbrev here : DiscoveryConfig
here = config (codes "n1")

abbrev there : DiscoveryConfig
there = config (codes "n2")

abbrev nothing : Discovery
nothing = record { candidates = []; joins = [] }

abbrev before : List Sighting
before =
    hears second (codes "10.0.0.9") (some (presence there (pos 15052))) ∷ cleans (2 * second) ∷ []

nothing-IsSound : IsSound here.node_id nothing
nothing-IsSound = record { distinct = tt; not_self = refl }

presence_heard_example :
    let d = sight_all here nothing before in
    let t = hear here 5 (codes "10.0.0.2") (some (presence there (pos 15052))) d in
    (times there.node_id t.candidates ≡ 1)
    × (seen_of there.node_id t.candidates ≡ some (codes "10.0.0.2", 5))
    × (t.joins ≡ (
        if is_candidate there.node_id d.candidates
        then d.joins
        else d.joins ++ (there.node_id, codes "10.0.0.2") ∷ []))
unfolding text_eq
presence_heard_example =
    presence_heard here there 5 (codes "10.0.0.2") (pos 15052) before nothing nothing-IsSound refl
      refl refl
