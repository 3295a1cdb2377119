-- ===== src/Pool/Remote/Balance.antt =====
-- A counter holds the number of requests in flight.
use nova_airouter.Prelude.{
  ℕ, suc, ◌+◌, ◌-◌, ◌≤◌, ◌<◌, ℤ, pos, negsuc, ◌+ℤ◌, i32, ◌≡◌, refl, ◌∙◌, ◌≢◌, Bool, true, false,
  ◌&&◌, Option, none, some, List, [], ◌∷◌, length, arith, Text, text_eq, text_eq_iff, text_eq_refl,
  lookup, lookup-insert, if◌then◌else◌, All, inl, inr, Bool-cases,
}
use nova_airouter.Pool.Remote.{
  RemoteCounters, new, remote_key, or_zero, inc_remote_active, dec_remote_active, get_remote_active,
  snapshot_remote_actives, get_remote_active_snapshot, Call, starts, ends, snapshots, step, run,
  dec_in,
}

-- A node id without a vertical bar.
abbrev pub IsPlain : Text → Type 0
IsPlain = All (λ c. c ≢ b'|')

abbrev pub same_pair : Text → Text → Text → Text → Bool
same_pair n p n' p' = text_eq n n' && text_eq p p'

-- The requests in flight to an endpoint after the calls, from `k` before them.
abbrev pub in_flight : Text → Text → ℕ → List Call → ℕ
in_flight n p k [] = k
in_flight n p k (starts n' p' ∷ cs) = in_flight n p (if same_pair n' p' n p then suc k else k) cs
in_flight n p k (ends n' p' ∷ cs) = in_flight n p (if same_pair n' p' n p then k - 1 else k) cs
in_flight n p k (snapshots ∷ cs) = in_flight n p k cs

-- Each end follows a start of its own, and node ids hold no bar.
abbrev pub IsPaired : Text → Text → ℕ → List Call → Type 0
IsPaired n p k [] = Unit
IsPaired n p k (starts n' p' ∷ cs) =
    IsPlain n' × IsPaired n p (if same_pair n' p' n p then suc k else k) cs
IsPaired n p k (ends n' p' ∷ cs) =
    IsPlain n'
    × (same_pair n' p' n p ≡ true → 0 < k)
    × IsPaired n p (if same_pair n' p' n p then k - 1 else k) cs
IsPaired n p k (snapshots ∷ cs) = IsPaired n p k cs

-- Two keys are equal only for equal pairs.
remote_key_injective :
    (n p n' p' : Text)
    → IsPlain n
    → IsPlain n'
    → remote_key n p ≡ remote_key n' p'
    → (n ≡ n') × (p ≡ p')
unfolding remote_key
remote_key_injective [] p [] p' h h' e = ground arith
remote_key_injective [] p (c ∷ n') p' h h' e = absurd (h'.0 (ground arith))
remote_key_injective (c ∷ n) p [] p' h h' e = absurd (h.0 (ground arith))
remote_key_injective (c ∷ n) p (d ∷ n') p' h h' e =
    ground (arith, remote_key_injective n p n' p' h.1 h'.1)

remote_key_cong : (n p n' p' : Text) → n ≡ n' → p ≡ p' → remote_key n p ≡ remote_key n' p'
remote_key_cong n p n' p' a b = cc

pub remote_key_eq :
    (n p n' p' : Text)
    → IsPlain n
    → IsPlain n'
    → text_eq (remote_key n p) (remote_key n' p') ≡ same_pair n p n' p'
remote_key_eq n p n' p' h h' = ground (
  arith,
  remote_key_injective n p n' p' h h',
  remote_key_cong n p n' p',
  text_eq_iff n n',
  text_eq_iff p p',
  text_eq_iff (remote_key n p) (remote_key n' p'),
)

-- The entry of a counter agrees with the number of requests in flight.
abbrev Holds : ℕ → Option ℤ → Type 0
Holds k none = k ≡ 0
Holds k (some z) = z ≡ pos k

or_zero_lem : (k : ℕ) (o : Option ℤ) → Holds k o → or_zero o ≡ pos k
or_zero_lem k none h = ground arith
or_zero_lem k (some z) h = h

abbrev Sim : Text → Text → ℕ → RemoteCounters → Type 0
Sim n p k m = Holds k (lookup (remote_key n p) m.remote_counters)

i32-inc : (k : ℕ) → k < 2147483647 → i32 (pos k +ℤ pos 1) ≡ pos (suc k)
unfolding i32 ◌+ℤ◌
i32-inc k h = ground arith

i32-dec : (k : ℕ) → 0 < k → k ≤ 2147483647 → i32 (pos k +ℤ negsuc 0) ≡ pos (k - 1)
unfolding i32 ◌+ℤ◌
i32-dec k h h' = ground arith

start-Sim :
    (n p n' p' : Text) (k : ℕ) (m : RemoteCounters)
    → IsPlain n
    → IsPlain n'
    → k < 2147483647
    → Sim n p k m
    → Sim n p (if same_pair n' p' n p then suc k else k) (inc_remote_active n' p' m)
unfolding inc_remote_active
start-Sim n p n' p' k m h h' lt v = elim (Bool-cases (same_pair n' p' n p)) [
  | inl e ↦
      let same = (text_eq_iff _ _).0 (remote_key_eq n' p' n p h' h ∙ e) in
      rw (lookup-insert, remote_key_eq n' p' n p h' h, e, same, or_zero_lem k _ v) (i32-inc k lt)
  | inr e ↦ rw (lookup-insert, remote_key_eq n' p' n p h' h, e) v
]

dec_other :
    (key other : Text) (o : Option ℤ) (m : RemoteCounters)
    → text_eq other key ≡ false
    → lookup key (dec_in other o m).remote_counters ≡ lookup key m.remote_counters
unfolding dec_in
dec_other key other none m e = refl
dec_other key other (some z) m e = rw (lookup-insert, e) refl

dec_same :
    (k : ℕ) (key : Text) (o : Option ℤ) (m : RemoteCounters)
    → Holds k o
    → 0 < k
    → k ≤ 2147483647
    → Holds (k - 1) (lookup key (dec_in key o m).remote_counters)
unfolding dec_in
dec_same k key none m v h h' = absurd (omega arith)
dec_same k key (some z) m v h h' = rw (lookup-insert, text_eq_refl key, v) (i32-dec k h h')

end-Sim :
    (n p n' p' : Text) (k : ℕ) (m : RemoteCounters)
    → IsPlain n
    → IsPlain n'
    → (same_pair n' p' n p ≡ true → 0 < k)
    → k ≤ 2147483647
    → Sim n p k m
    → Sim n p (if same_pair n' p' n p then k - 1 else k) (dec_remote_active n' p' m)
unfolding dec_remote_active
end-Sim n p n' p' k m h h' busy le v = elim (Bool-cases (same_pair n' p' n p)) [
  | inl e ↦
      let same = (text_eq_iff _ _).0 (remote_key_eq n' p' n p h' h ∙ e) in
      rw (e, same) (dec_same k (remote_key n p) _ m v (busy e) le)
  | inr e ↦
      rw (e, dec_other (remote_key n p) (remote_key n' p') _ m (remote_key_eq n' p' n p h' h ∙ e)) v
]

run-Sim :
    (n p : Text) (k : ℕ) (m : RemoteCounters) (cs : List Call)
    → IsPlain n
    → IsPaired n p k cs
    → k + length cs ≤ 2147483647
    → Sim n p k m
    → Sim n p (in_flight n p k cs) (run m cs)
unfolding run step
run-Sim n p k m [] h q le v = v
run-Sim n p k m (starts n' p' ∷ cs) h q le v =
    run-Sim n p (if same_pair n' p' n p then suc k else k) _ cs h q.1 (ground arith)
      (start-Sim n p n' p' k m h q.0 (omega arith) v)
run-Sim n p k m (ends n' p' ∷ cs) h q le v =
    run-Sim n p (if same_pair n' p' n p then k - 1 else k) _ cs h q.2 (ground arith)
      (end-Sim n p n' p' k m h q.0 q.1 (omega arith) v)
run-Sim n p k m (snapshots ∷ cs) h q le v =
    run-Sim n p k _ cs h q (omega arith) (unfold snapshot_remote_actives in v)

new-Sim : (n p : Text) → Sim n p 0 new
unfolding new lookup
new-Sim n p = refl

-- Let requests to remote endpoints start and end in any interleaving, fewer than 2^31 calls in all,
-- each end of a request after its start. Then the counter of an endpoint is the number of requests
-- in flight to it, whatever goes to other endpoints, as long as no node id holds a vertical bar.
pub get_remote_active-run :
    (n p : Text) (cs : List Call)
    → IsPlain n
    → IsPaired n p 0 cs
    → length cs ≤ 2147483647
    → get_remote_active n p (run new cs) ≡ pos (in_flight n p 0 cs)
unfolding get_remote_active
get_remote_active-run n p cs h q le =
    or_zero_lem _ _ (run-Sim n p 0 new cs h q (omega arith) (new-Sim n p))

step-snapshots :
    (m : RemoteCounters) (c : Call)
    → c ≢ snapshots
    → (step m c).remote_snapshots ≡ m.remote_snapshots
unfolding step inc_remote_active dec_remote_active
step-snapshots m (starts n p) h = refl
step-snapshots m (ends n p) h = ground arith
step-snapshots m snapshots h = absurd (h refl)

run-snapshots :
    (m : RemoteCounters) (cs : List Call)
    → All (λ c. c ≢ snapshots) cs
    → (run m cs).remote_snapshots ≡ m.remote_snapshots
unfolding run
run-snapshots m [] h = refl
run-snapshots m (c ∷ cs) h = run-snapshots (step m c) cs h.1 ∙ step-snapshots m c h.0

-- A snapshot gives the counters of its moment through all later starts and ends, up to the next
-- snapshot.
pub get_remote_active_snapshot-run :
    (n p : Text) (m : RemoteCounters) (cs : List Call)
    → All (λ c. c ≢ snapshots) cs
    → get_remote_active_snapshot n p (run (step m snapshots) cs) ≡ get_remote_active n p m
unfolding get_remote_active_snapshot get_remote_active
get_remote_active_snapshot-run n p m cs h =
    rw (run-snapshots (step m snapshots) cs h) (unfold step snapshot_remote_actives in refl)
