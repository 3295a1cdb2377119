-- ===== src/Router/Candidates.antt =====
-- The nodes that a request may go to: they match its path, and it has not been there.
use nova_airouter.Prelude.{
  ℕ, zero, suc, ltb, ◌==◌, pos, ltb_ℤ, ◌≡◌, refl, sym, ap, ◌∙◌, Bool, true, false, not, ◌&&◌,
  if◌then◌else◌, List, [], ◌∷◌, ◌++◌, inl, inr, ◌⊎◌, ◌↔◌, length, All, Text, text_eq_iff, codes,
  has_prefix, has_suffix, drop_last, has_suffix-append, drop_last-append, strip_prefix,
  strip_prefix-append, strip_prefix_sound, Dict, arith, Bool-cases, Option-cases,
}
use nova_airouter.Models.Node.{EndpointState, RemoteNode}
use nova_airouter.Models.Endpoint.{LocalEndpoint, get_all, list_by_node_path}
use nova_airouter.Router.{
  Env, match_node_path, longest_local, NodesForPath, add_node, local_node, add_backends, no_totals,
  add_local, forward_node, add_states, add_remote, add_longest, get_nodes_for_path,
}

prefix_iff : (p s : Text) → (has_prefix s p ≡ true) ↔ ((r : Text) × (s ≡ p ++ r))
prefix_iff p s = (
  λ h. elim (Option-cases (strip_prefix p s)) [
    | inl e ↦ absurd (ground (arith, h, e))
    | inr (r, e) ↦ (r, strip_prefix_sound p s r e)
  ],
  λ (r, e). rw (e, strip_prefix-append p r) refl,
)

same_before_slash : (path p : Text) → path ++ codes "/" ≡ p ++ codes "/" → path ≡ p
same_before_slash path p e = sym (drop_last-append path 47) ∙ ap drop_last e ∙ drop_last-append p 47

slash :
    (path p : Text)
    → (match_node_path path (p ++ codes "/") ≡ true)
      ↔ ((path ≡ p) ⊎ ((r : Text) × (path ≡ (p ++ codes "/") ++ r)))
unfolding match_node_path
slash path p =
    rw (has_suffix-append p 47, drop_last-append p 47)
      (
        λ h. elim (Bool-cases (has_prefix path (p ++ codes "/"))) [
          | inl e ↦ inr ((prefix_iff (p ++ codes "/") path).0 e)
          | inr e ↦ inl (
              ground (
                arith,
                h,
                e,
                text_eq_iff path p,
                text_eq_iff (path ++ codes "/") (p ++ codes "/"),
                same_before_slash path p,
              ))
        ],
        λ h. elim h [
          | inl e ↦ ground (arith, (text_eq_iff path p).1 e)
          | inr x ↦ ground (arith, (prefix_iff (p ++ codes "/") path).1 x)
        ],
      )

plain :
    (path q : Text)
    → has_suffix q (codes "/") ≡ false
    → (match_node_path path q ≡ true) ↔ ((path ≡ q) ⊎ (path ≡ q ++ codes "/"))
unfolding match_node_path
plain path q h = rw h (
  λ e. ground (arith, e, text_eq_iff path q, text_eq_iff path (q ++ codes "/")),
  λ e. ground (arith, e, text_eq_iff path q, text_eq_iff path (q ++ codes "/")),
)

-- What a node path matches. One that ends in a slash matches the path before the slash, and every
-- path that begins with it; any other matches itself, and itself with a slash.
pub match_node_path_lem :
    (path p q : Text)
    → has_suffix q (codes "/") ≡ false
    → ((match_node_path path (p ++ codes "/") ≡ true)
        ↔ ((path ≡ p) ⊎ ((r : Text) × (path ≡ (p ++ codes "/") ++ r))))
      × ((match_node_path path q ≡ true) ↔ ((path ≡ q) ⊎ (path ≡ q ++ codes "/")))
match_node_path_lem path p q h = (slash path p, plain path q h)

abbrev pub IsCandidate : Text → (Text → Bool) → RemoteNode → Type 0
IsCandidate path seen n = (seen n.node_id ≡ false) × (match_node_path path n.node_path ≡ true)

abbrev pub Both : (RemoteNode → Type 0) → NodesForPath → Type 0
Both P c = All P c.plugin_nodes × All P c.regular_nodes

All-append :
    (P : RemoteNode → Type 0) (xs : List RemoteNode) (n : RemoteNode)
    → All P xs
    → P n
    → All P (xs ++ n ∷ [])
All-append P [] n a h = (h, tt)
All-append P (x ∷ xs) n a h = (a.0, All-append P xs n a.1 h)

pub add_node-Both :
    (P : RemoteNode → Type 0) (b : Bool) (n : RemoteNode) (c : NodesForPath)
    → P n
    → Both P c
    → Both P (add_node b n c)
add_node-Both P true n c h v = (All-append P c.plugin_nodes n v.0 h, v.1)
add_node-Both P false n c h v = (v.0, All-append P c.regular_nodes n v.1 h)

pub if-Both :
    (P : RemoteNode → Type 0) (b : Bool) (c d : NodesForPath)
    → (b ≡ true → Both P c)
    → (b ≡ false → Both P d)
    → Both P (if b then c else d)
if-Both P true c d h k = h refl
if-Both P false c d h k = k refl

longest_local-matches :
    (path best : Text) (m : Dict LocalEndpoint)
    → (best ≡ []) ⊎ (match_node_path path best ≡ true)
    → (longest_local path best m ≡ []) ⊎ (match_node_path path (longest_local path best m) ≡ true)
unfolding longest_local
longest_local-matches path best [] h = h
longest_local-matches path best ((k, ep) ∷ rest) h =
    elim (Bool-cases (
      ep.healthy
      && (match_node_path path ep.node_path && ltb (length best) (length ep.node_path)))) [
        | inl e ↦ rw e (longest_local-matches path ep.node_path rest (inr (ground (arith, e))))
        | inr e ↦ rw e (longest_local-matches path best rest h)
      ]

module _ (env : Env) (path : Text) (seen : Text → Bool) where
  add_local-Both :
      (best : Text) (c : NodesForPath)
      → (best ≡ []) ⊎ (match_node_path path best ≡ true)
      → Both (IsCandidate path seen) c
      → Both (IsCandidate path seen) (add_local env seen best c)
  unfolding add_local local_node
  add_local-Both [] c h v = v
  add_local-Both (b ∷ best) c (inl e) v = absurd (cc)
  add_local-Both (b ∷ best) c (inr e) v =
      let t = add_backends env (b ∷ best) (list_by_node_path (b ∷ best) env.endpoints) no_totals in
      if-Both _ (ltb_ℤ (pos 0) t.max_concurrent && not (seen env.node_id)) _ _
        (λ g. add_node-Both _ (t.has_plugin && not t.has_regular) _ c (ground (arith, g), e) v)
        (λ g. v)

  add_states-Both :
      (best : ℕ) (node : RemoteNode) (m : Dict EndpointState) (c : NodesForPath)
      → seen node.node_id ≡ false
      → Both (IsCandidate path seen) c
      → Both (IsCandidate path seen) (add_states env path best node m c)
  unfolding add_states forward_node
  add_states-Both best node [] c s v = v
  add_states-Both best node ((p, state) ∷ rest) c s v = add_states-Both best node rest _ s (
      if-Both _ (state.healthy && (match_node_path path p && (length p == best))) _ _
        (λ g. add_node-Both _ _ _ c (s, ground (arith, g)) v) (λ g. v))

  add_remote-Both :
      (best : ℕ) (nodes : List RemoteNode) (c : NodesForPath)
      → Both (IsCandidate path seen) c
      → Both (IsCandidate path seen) (add_remote env seen path best nodes c)
  unfolding add_remote
  add_remote-Both best [] c v = v
  add_remote-Both best (node ∷ nodes) c v = add_remote-Both best nodes _ (
      if-Both _ (seen node.node_id) _ _ (λ e. v)
        (λ e. add_states-Both best node node.endpoint_states c e v))

  add_longest-Both :
      (best : ℕ) (nodes : List RemoteNode) (c : NodesForPath)
      → Both (IsCandidate path seen) c
      → Both (IsCandidate path seen) (add_longest env seen path best nodes c)
  unfolding add_longest
  add_longest-Both zero nodes c v = v
  add_longest-Both (suc n) nodes c v = add_remote-Both (suc n) nodes c v

  pub get_nodes_for_path-Both : Both (IsCandidate path seen) (get_nodes_for_path env path seen)
  unfolding get_nodes_for_path
  get_nodes_for_path-Both = add_longest-Both _ _ _ (
      add_local-Both _ _ (longest_local-matches path [] (get_all env.endpoints) (inl refl))
        (tt, tt))
