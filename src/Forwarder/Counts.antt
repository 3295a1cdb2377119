-- ===== src/Forwarder/Counts.antt =====
-- The counters and the errors of a forwarded request.
use nova_airouter.Prelude.{
  leb, ℤ, pos, negsuc, ◌+ℤ◌, ◌≤ℤ◌, i32, Bool, true, false, not, ◌&&◌, ◌||◌, if◌then◌else◌, Option,
  none, some, is_some, [], ◌∷◌, inl, inr, Text, text_eq, text_eq_iff, lookup, insert, lookup-insert,
  lookup-insert_self, ◌≡◌, refl, ap, ◌∙◌, arith, Bool-cases,
}
use nova_airouter.Models.Node.{RemoteNode}
use nova_airouter.Pool.Remote.{
  RemoteCounters, or_zero, remote_key, inc_remote_active, dec_remote_active, get_remote_active,
}
use nova_airouter.Forwarder.{
  contains, header_get, forwarded_by, Incoming, Outgoing, Upstream, Client, Forwarded, outgoing,
  answered_in, handle_forwarded_request,
}

there_and_back :
    (z : ℤ) → negsuc 2147483647 ≤ℤ z → z ≤ℤ pos 2147483647 → i32 (i32 (z +ℤ pos 1) +ℤ negsuc 0) ≡ z
unfolding i32 ◌+ℤ◌
there_and_back (pos n) h k = ground arith
there_and_back (negsuc n) h k = ground arith

counted :
    (id path : Text) (node : RemoteNode) (m : RemoteCounters)
    → negsuc 2147483647 ≤ℤ get_remote_active node.node_id node.node_path m
    → get_remote_active node.node_id node.node_path m ≤ℤ pos 2147483647
    → get_remote_active id path (
        dec_remote_active node.node_id node.node_path
          (inc_remote_active node.node_id node.node_path m))
      ≡ get_remote_active id path m
unfolding get_remote_active dec_remote_active inc_remote_active
counted id path node m lo hi =
    let k = remote_key node.node_id node.node_path in
    let j = remote_key id path in
    let z = or_zero (lookup k m.remote_counters) in
    let up = lookup-insert_self k (i32 (z +ℤ pos 1)) m.remote_counters in
    rw up (
      ap or_zero (
        lookup-insert k j (i32 (i32 (z +ℤ pos 1) +ℤ negsuc 0))
          (insert k (i32 (z +ℤ pos 1)) m.remote_counters))
      ∙ elim (Bool-cases (text_eq k j)) [
        | inl e ↦ rw e (
            there_and_back z lo hi
            ∙ ap (λ x. or_zero (lookup x m.remote_counters)) ((text_eq_iff k j).0 e))
        | inr e ↦
            rw e (ap or_zero (lookup-insert k j (i32 (z +ℤ pos 1)) m.remote_counters) ∙ rw e refl)
      ])

abbrev pub is_fine : Option Upstream → Bool
is_fine none = false
is_fine (some a) = not (leb 500 a.status)

-- Every outcome of a forwarded request.
record Outcome (id path : Text) (loops accepted : Bool) (answer : Option Upstream) (out : Outgoing)
    (m : RemoteCounters) (v : Forwarded) : Type 0 where
  pub count : get_remote_active id path v.counters ≡ get_remote_active id path m
  pub sends : v.sent ≡ (if not loops && accepted then out ∷ [] else [])
  pub writes : is_some v.written ≡ (loops || (accepted && is_some answer))
  pub errors : v.is_error ≡ (loops || not accepted || not (is_fine answer))

answered-Outcome :
    (id path : Text) (answer : Option Upstream) (out : Outgoing) (m done : RemoteCounters)
    → get_remote_active id path done ≡ get_remote_active id path m
    → Outcome id path false true answer out m (answered_in out answer done)
unfolding answered_in
answered-Outcome id path none out m done e = record {
  count = e;
  sends = refl;
  writes = refl;
  errors = refl;
}
answered-Outcome id path (some a) out m done e = record {
  count = e;
  sends = refl;
  writes = refl;
  errors = ground arith;
}

handle-Outcome :
    (c : Client) (id path self : Text) (node : RemoteNode) (r : Incoming) (m : RemoteCounters)
    → negsuc 2147483647 ≤ℤ get_remote_active node.node_id node.node_path m
    → get_remote_active node.node_id node.node_path m ≤ℤ pos 2147483647
    → let out = outgoing self node r in
      Outcome id path
        (contains (header_get forwarded_by r.header) self)
        (c.accepts out)
        (c.answer out)
        out
        m
        (handle_forwarded_request c self node r m)
unfolding handle_forwarded_request
handle-Outcome c id path self node r m lo hi =
    let out = outgoing self node r in
    let kept = counted id path node m lo hi in
    elim (Bool-cases (contains (header_get forwarded_by r.header) self)) [
      | inl e ↦ rw e (record { count = refl; sends = refl; writes = refl; errors = refl })
      | inr e ↦ elim (Bool-cases (c.accepts out)) [
        | inl a ↦ rw (e, a) (answered-Outcome id path (c.answer out) out m _ kept)
        | inr a ↦ rw (e, a) (record { count = kept; sends = refl; writes = refl; errors = refl })
      ]
    ]

-- A forwarded request leaves every counter of requests in flight as it was, on every path through
-- the code, while the counter of its endpoint is an `int32`; it is sent exactly if it is no loop and
-- the client accepts it; it returns an error exactly if it is a loop, is not accepted, or gets no
-- answer or one from 500 on; and a reply is written exactly for a loop and for an answer, so that a
-- node that cannot be reached leaves the caller with an empty reply.
pub handle_forwarded_request_lem :
    (c : Client) (id path self : Text) (node : RemoteNode) (r : Incoming) (m : RemoteCounters)
    → negsuc 2147483647 ≤ℤ get_remote_active node.node_id node.node_path m
    → get_remote_active node.node_id node.node_path m ≤ℤ pos 2147483647
    → let out = outgoing self node r in
      let loops = contains (header_get forwarded_by r.header) self in
      let v = handle_forwarded_request c self node r m in
      (get_remote_active id path v.counters ≡ get_remote_active id path m)
      × (v.sent ≡ (if not loops && c.accepts out then out ∷ [] else []))
      × (v.is_error ≡ (loops || not (c.accepts out) || not (is_fine (c.answer out))))
      × (is_some v.written ≡ (loops || (c.accepts out && is_some (c.answer out))))
handle_forwarded_request_lem c id path self node r m lo hi =
    let o = handle-Outcome c id path self node r m lo hi in (o.count, o.sends, o.errors, o.writes)
