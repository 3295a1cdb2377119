-- ===== src/Forwarder/Loops.antt =====
-- A forwarded request that comes back.
use nova_airouter.Prelude.{
  ◌==◌, Bool, true, ◌||◌, some, List, [], ◌∷◌, ◌++◌, inl, inr, Text, text_eq, text_eq_iff, codes,
  lookup, lookup-insert_self, keep_if, has_prefix, strip_prefix, ◌≡◌, refl, ap, subst, arith,
  Bool-cases,
}
use nova_airouter.Models.Node.{RemoteNode}
use nova_airouter.Pool.Remote.{RemoteCounters}
use nova_airouter.Forwarder.{
  Header, contains, first_of, header_get, forwarded_by, goes_on, next_hops, outgoing_header,
  Incoming, Client, outgoing, loop_detected, handle_forwarded_request,
}

has_prefix-contains : (s p : Text) → has_prefix s p ≡ true → contains s p ≡ true
unfolding contains
has_prefix-contains [] p h = h
has_prefix-contains (c ∷ s) p h = rw h refl

prefix_append : (p s t : Text) → has_prefix s p ≡ true → has_prefix (s ++ t) p ≡ true
unfolding strip_prefix
prefix_append [] s t h = refl
prefix_append (c ∷ p) [] t h = absurd (cc)
prefix_append (c ∷ p) (d ∷ s) t h = elim (Bool-cases (c == d)) [
  | inl e ↦ rw e (prefix_append p s t (rw e at h))
  | inr e ↦ absurd (cc (rw e at h))
]

or_right : (a b : Bool) → b ≡ true → (a || b) ≡ true
or_right a b h = ground arith

self_prefix : (p : Text) → has_prefix p p ≡ true
unfolding strip_prefix
self_prefix [] = refl
self_prefix (c ∷ p) = ground (arith, self_prefix p)

-- What a text contains, a longer one contains.
contains-append : (s t p : Text) → contains s p ≡ true → contains (s ++ t) p ≡ true
unfolding contains
contains-append [] t p h = has_prefix-contains t p (prefix_append p [] t h)
contains-append (c ∷ s) t p h = elim (Bool-cases (has_prefix (c ∷ s) p)) [
  | inl e ↦ rw (prefix_append p (c ∷ s) t e) refl
  | inr e ↦ or_right _ _ (contains-append s t p (rw e at h))
]

contains-before : (s t : Text) (p : Text) → contains t p ≡ true → contains (s ++ t) p ≡ true
unfolding contains
contains-before [] t p h = h
contains-before (c ∷ s) t p h = or_right _ _ (contains-before s t p h)

contains_self : (p : Text) → contains p p ≡ true
contains_self p = has_prefix-contains p p (self_prefix p)

next_hops_self : (id seen : Text) → contains (next_hops id seen) id ≡ true
unfolding next_hops
next_hops_self id seen = elim (Bool-cases (text_eq seen [])) [
  | inl e ↦ rw e (contains_self id)
  | inr e ↦ rw e (contains-before (seen ++ codes ",") id id (contains_self id))
]

next_hops_keeps :
    (id seen p : Text) → contains seen p ≡ true → contains (next_hops id seen) p ≡ true
unfolding next_hops
next_hops_keeps id seen p h = elim (Bool-cases (text_eq seen [])) [
  | inl e ↦
      rw e
        (contains-append [] id p (subst (λ t. contains t p ≡ true) ((text_eq_iff seen []).0 e) h))
  | inr e ↦ rw e (contains-append (seen ++ codes ",") id p (contains-append seen (codes ",") p h))
]

forwarded_by-outgoing_header :
    (id : Text) (h : Header)
    → header_get forwarded_by (outgoing_header id h) ≡ next_hops id (header_get forwarded_by h)
unfolding outgoing_header
forwarded_by-outgoing_header id h =
    unfold header_get in
    ap first_of (
      lookup-insert_self forwarded_by (next_hops id (first_of (lookup forwarded_by h)) ∷ [])
        (keep_if goes_on h))

-- The header after the request has gone through other nodes.
abbrev pub travel : List Text → Header → Header
travel [] h = h
travel (id ∷ ids) h = travel ids (outgoing_header id h)

travel_keeps :
    (ids : List Text) (p : Text) (h : Header)
    → contains (header_get forwarded_by h) p ≡ true
    → contains (header_get forwarded_by (travel ids h)) p ≡ true
travel_keeps [] p h e = e
travel_keeps (id ∷ ids) p h e =
    travel_keeps ids p (outgoing_header id h)
      (rw (forwarded_by-outgoing_header id h) (next_hops_keeps id (header_get forwarded_by h) p e))

-- A request that a node has forwarded, and that comes back to it through any other nodes, is
-- refused as a loop: it is answered with 502, is not sent anywhere, and counts nowhere.
pub comes_back :
    (c : Client) (id : Text) (ids : List Text) (first node : RemoteNode) (r back : Incoming)
    (m : RemoteCounters)
    → back.header ≡ travel ids (outgoing id first r).header
    → handle_forwarded_request c id node back m
      ≡ record { counters = m; sent = []; written = some loop_detected; is_error = true }
unfolding handle_forwarded_request outgoing
comes_back c id ids first node r back m e =
    rw
      (
        e,
        travel_keeps ids id (outgoing_header id r.header) (
            rw (forwarded_by-outgoing_header id r.header)
              (next_hops_self id (header_get forwarded_by r.header))),
      )
      refl
