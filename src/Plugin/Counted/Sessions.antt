-- ===== src/Plugin/Counted/Sessions.antt =====
-- The count of a backend through every change to the sessions.
use nova_airouter.Prelude.{
  ℕ, suc, ◌+◌, ◌==◌, Time, ℤ, pos, negsuc, ◌+ℤ◌, i32, ltb_ℤ, elapsed, true, false, if◌then◌else◌,
  none, some, [], ◌∷◌, inl, inr, Text, text_eq_iff, text_eq_refl, Dict, lookup, insert, delete,
  Distinct, insert-Distinct, delete-Distinct, lookup-delete, ◌≡◌, refl, sym, ap, ◌∙◌, subst, arith,
  Bool-cases, Option-cases, ==_iff,
}
use nova_airouter.Plugin.{
  Backend, Heap, SessionInfo, Plugin, add_conn, is_at, bind_session, release, release_of,
  unbind_session, touched, update_session_activity, cleanup_sessions, update_backend_latency,
  cleanup_expired_sessions, session_timeout_of,
}
use nova_airouter.Plugin.Counted.Release.{
  eq_ℤ-iff, at_session, bound, bound-insert, bound-delete, SameAddresses, add_conn-SameAddresses,
  release-SameAddresses, listed, IsAloneIn, IsAloneIn-SameAddresses, add_conn-here, add_conn-at,
  add_conn-there, neq_self, dropped, release-alone,
}

i32-plus : (n : ℕ) → i32 (i32 (pos n) +ℤ pos 1) ≡ i32 (pos (suc n))
unfolding i32 ◌+ℤ◌
i32-plus n = ground arith

i32-minus : (n : ℕ) → i32 (i32 (pos (suc n)) +ℤ negsuc 0) ≡ i32 (pos n)
unfolding i32 ◌+ℤ◌
i32-minus n = ground arith

-- The count of the backend `q` is right: it is the number of sessions that are bound to it and of
-- the `n` requests that it runs, as an `int32`; one model lists it, and it alone has its address.
pub record Counted (n q : ℕ) (s : Plugin) : Type 0 where
  pub distinct : Distinct s.sessions
  pub once : listed q s.models ≡ 1
  pub alone : IsAloneIn q s.heap s.models
  pub conn :
      (s.heap q).active_conn ≡ i32 (pos (n + bound (s.heap q).address (s.heap q).port s.sessions))

-- A change of the heap and of the sessions that moves the count and the sessions alike.
moved-Counted :
    (n m q : ℕ) (s : Plugin) (h : Heap) (sessions : Dict SessionInfo)
    → Counted n q s
    → SameAddresses s.heap h
    → Distinct sessions
    → (h q).active_conn ≡ i32 (pos (m + bound (s.heap q).address (s.heap q).port sessions))
    → Counted m q (record s { heap = h; sessions = sessions })
moved-Counted n m q s h sessions c same d e = record {
  distinct = d;
  once = c.once;
  alone = IsAloneIn-SameAddresses q s.heap h s.models same c.alone;
  conn = rw ((same q).0, (same q).1) e;
}

is_at_self : (q p : ℕ) (h : Heap) → q ≡ p → is_at (h q).address (h q).port (h p) ≡ true
is_at_self q p h e = rw (← e) (ground (arith, text_eq_iff (h q).address (h q).address))

is_at-other :
    (q p : ℕ) (h : Heap)
    → (is_at (h q).address (h q).port (h p) ≡ true → p ≡ q)
    → (q == p) ≡ false
    → is_at (h q).address (h q).port (h p) ≡ false
is_at-other q p h own e = elim (Bool-cases (is_at (h q).address (h q).port (h p))) [
  | inl t ↦ absurd (neq_self q (subst (λ x. (q == x) ≡ false) (own t) e))
  | inr t ↦ t
]

up : (a : ℤ) (k k' : ℕ) → a ≡ i32 (pos k) → k' ≡ suc k → i32 (a +ℤ pos 1) ≡ i32 (pos k')
up a k k' e h = rw (e, h) (i32-plus k)

down : (a : ℤ) (k k' : ℕ) → a ≡ i32 (pos k) → k ≡ suc k' → i32 (a +ℤ negsuc 0) ≡ i32 (pos k')
down a k k' e h = rw (e, h) (i32-minus k')

abbrev pub session_to : Time → Text → Backend → SessionInfo
session_to now id b = record {
  session_id = id;
  backend_addr = b.address;
  backend_port = b.port;
  last_activity = now;
}

bound-bind :
    (addr : Text) (port : ℤ) (now : Time) (id : Text) (b : Backend) (m : Dict SessionInfo)
    → lookup id m ≡ none
    → bound addr port (insert id (session_to now id b) m)
      ≡ (if is_at addr port b then suc (bound addr port m) else bound addr port m)
bound-bind addr port now id b m e =
    let more = bound-insert addr port id (session_to now id b) m in
    ground (
      arith,
      rw e at more,
      text_eq_iff addr b.address,
      text_eq_iff b.address addr,
      eq_ℤ-iff port b.port,
      eq_ℤ-iff b.port port,
    )

bind-conn :
    (n q p : ℕ) (now : Time) (id : Text) (h : Heap) (m : Dict SessionInfo)
    → lookup id m ≡ none
    → (is_at (h q).address (h q).port (h p) ≡ true → p ≡ q)
    → (h q).active_conn ≡ i32 (pos (n + bound (h q).address (h q).port m))
    → (add_conn (pos 1) p h q).active_conn
      ≡ i32 (pos (n + bound (h q).address (h q).port (insert id (session_to now id (h p)) m)))
bind-conn n q p now id h m fresh own conn =
    let b = h q in
    let more = bound-bind b.address b.port now id (h p) m fresh in
    elim (Bool-cases (q == p)) [
      | inl e ↦
          let same = (==_iff q p).0 e in
          let here = is_at_self q p h same in
          subst
            (λ x.
              (add_conn (pos 1) x h q).active_conn
              ≡ i32 (pos (n + bound b.address b.port (insert id (session_to now id (h p)) m))))
            same (add_conn-here (pos 1) q h ∙ up _ _ _ conn (omega (arith, rw here at more)))
      | inr e ↦
          let away = is_at-other q p h own e in
          ap (λ x. x.active_conn) (add_conn-there (pos 1) p q h e)
          ∙ conn
          ∙ ap (λ k. i32 (pos (n + k))) (sym (rw away at more))
    ]

pub bind-Counted :
    (n q : ℕ) (now : Time) (id : Text) (p : ℕ) (s : Plugin)
    → Counted n q s
    → lookup id s.sessions ≡ none
    → (is_at (s.heap q).address (s.heap q).port (s.heap p) ≡ true → p ≡ q)
    → Counted n q (bind_session now id p s)
unfolding bind_session
bind-Counted n q now id p s c fresh own =
    moved-Counted n n q s (add_conn (pos 1) p s.heap)
      (insert id (session_to now id (s.heap p)) s.sessions) c
      (add_conn-SameAddresses (pos 1) p s.heap) (insert-Distinct id _ s.sessions c.distinct)
      (bind-conn n q p now id s.heap s.sessions fresh own c.conn)

pub drop-Counted :
    (n q : ℕ) (id : Text) (si : SessionInfo) (s : Plugin)
    → Counted n q s
    → lookup id s.sessions ≡ some si
    → Counted n q (record s {
      heap = release si.backend_addr si.backend_port s.models s.heap;
      sessions = delete id s.sessions;
    })
drop-Counted n q id si s c e =
    let b = s.heap q in
    let less = bound-delete b.address b.port id s.sessions c.distinct in
    moved-Counted n n q s _ (delete id s.sessions) c
      (release-SameAddresses si.backend_addr si.backend_port s.models s.heap)
      (delete-Distinct id s.sessions c.distinct)
      (release-alone q si.backend_addr si.backend_port s.models s.heap c.alone c.once
        ∙ elim (Bool-cases (at_session b.address b.port si)) [
          | inl t ↦ unfold dropped in rw t (down _ _ _ c.conn (omega (arith, rw (e, t) at less)))
          | inr t ↦
              unfold dropped in
              rw t (c.conn ∙ ap (λ k. i32 (pos k)) (omega (arith, rw (e, t) at less)))
        ])

pub unbind-Counted :
    (n q : ℕ) (id : Text) (s : Plugin) → Counted n q s → Counted n q (unbind_session id s)
unfolding unbind_session release_of
unbind-Counted n q id s c = elim (Option-cases (lookup id s.sessions)) [
  | inl e ↦
      let less = bound-delete (s.heap q).address (s.heap q).port id s.sessions c.distinct in
      rw e (
        moved-Counted n n q s s.heap (delete id s.sessions) c (λ p. (refl, refl, refl))
          (delete-Distinct id s.sessions c.distinct)
          (c.conn ∙ ap (λ k. i32 (pos k)) (omega (arith, rw e at less))))
  | inr (si, e) ↦ rw e (drop-Counted n q id si s c e)
]

pub touch-Counted :
    (n q : ℕ) (now : Time) (id : Text) (s : Plugin)
    → Counted n q s
    → Counted n q (update_session_activity now id s)
unfolding update_session_activity touched
touch-Counted n q now id s c = elim (Option-cases (lookup id s.sessions)) [
  | inl e ↦ rw e c
  | inr (si, e) ↦
      let b = s.heap q in
      let si' = record si { last_activity = now } in
      let more = bound-insert b.address b.port id si' s.sessions in
      rw e (
        moved-Counted n n q s s.heap (insert id si' s.sessions) c (λ p. (refl, refl, refl))
          (insert-Distinct id si' s.sessions c.distinct)
          (c.conn ∙ ap (λ k. i32 (pos k)) (omega (arith, rw e at more))))
]

pub latency-Counted :
    (n q : ℕ) (l : ℤ) (p : ℕ) (s : Plugin)
    → Counted n q s
    → Counted n q (record s { heap = update_backend_latency l p s.heap })
unfolding update_backend_latency
latency-Counted n q l p s c =
    moved-Counted n n q s _ s.sessions c (λ x. ground (arith, ==_iff x p)) c.distinct
      (ground (arith, ==_iff q p, c.conn))

-- The requests that run at `q`, with one more at `p`.
abbrev pub flights : ℕ → ℕ → ℕ → ℕ
flights q p n = if q == p then suc n else n

pub start-Counted :
    (n q p : ℕ) (s : Plugin)
    → Counted n q s
    → Counted (flights q p n) q (record s { heap = add_conn (pos 1) p s.heap })
start-Counted n q p s c =
    moved-Counted n (flights q p n) q s _ s.sessions c (add_conn-SameAddresses (pos 1) p s.heap)
      c.distinct
      (elim (Bool-cases (q == p)) [
        | inl e ↦
            add_conn-at (pos 1) p q s.heap e
            ∙ up _ (n + bound (s.heap q).address (s.heap q).port s.sessions) _ c.conn
                (rw e (omega arith))
        | inr e ↦ rw e (ap (λ x. x.active_conn) (add_conn-there (pos 1) p q s.heap e) ∙ c.conn)
      ])

pub finish-Counted :
    (n q p : ℕ) (s : Plugin)
    → Counted (flights q p n) q s
    → Counted n q (record s { heap = add_conn (negsuc 0) p s.heap })
finish-Counted n q p s c =
    moved-Counted (flights q p n) n q s _ s.sessions c (add_conn-SameAddresses (negsuc 0) p s.heap)
      c.distinct
      (elim (Bool-cases (q == p)) [
        | inl e ↦
            add_conn-at (negsuc 0) p q s.heap e
            ∙ down _ _ (n + bound (s.heap q).address (s.heap q).port s.sessions) c.conn
                (rw e (omega arith))
        | inr e ↦
            (ap (λ x. x.active_conn) (add_conn-there (negsuc 0) p q s.heap e) ∙ rw e at c.conn)
      ])

-- The sessions that are still to be looked at stand as the range saw them.
abbrev pub AreIn : Dict SessionInfo → Dict SessionInfo → Type 0
AreIn m [] = Unit
AreIn m ((id, si) ∷ rest) = (lookup id m ≡ some si) × AreIn m rest

delete-AreIn :
    (id : Text) (m rest : Dict SessionInfo)
    → lookup id rest ≡ none
    → AreIn m rest
    → AreIn (delete id m) rest
unfolding lookup
delete-AreIn id m [] e i = tt
delete-AreIn id m ((j, sj) ∷ rest) e i = (
  ground (arith, lookup-delete id j m, text_eq_iff id j, text_eq_iff j id, i.0),
  delete-AreIn id m rest (ground arith) i.1,
)

cleanup-Counted :
    (n q : ℕ) (now : Time) (rest : Dict SessionInfo) (s : Plugin)
    → Counted n q s
    → Distinct rest
    → AreIn s.sessions rest
    → Counted n q (cleanup_sessions now rest s)
unfolding cleanup_sessions
cleanup-Counted n q now [] s c d i = c
cleanup-Counted n q now ((id, si) ∷ rest) s c d i =
    elim (Bool-cases (ltb_ℤ (session_timeout_of s.config) (elapsed now si.last_activity))) [
      | inl e ↦ rw e (
          cleanup-Counted n q now rest _ (drop-Counted n q id si s c i.0) d.1
            (delete-AreIn id s.sessions rest d.0 i.1))
      | inr e ↦ rw e (cleanup-Counted n q now rest s c d.1 i.1)
    ]

cons-AreIn :
    (k : Text) (v : SessionInfo) (m rest : Dict SessionInfo)
    → lookup k rest ≡ none
    → AreIn m rest
    → AreIn ((k, v) ∷ m) rest
unfolding lookup
cons-AreIn k v m [] e i = tt
cons-AreIn k v m ((j, sj) ∷ rest) e i = (
  ground (arith, text_eq_iff k j, text_eq_iff j k, i.0),
  cons-AreIn k v m rest (ground arith) i.1,
)

self-AreIn : (m : Dict SessionInfo) → Distinct m → AreIn m m
unfolding lookup
self-AreIn [] d = tt
self-AreIn ((k, v) ∷ m) d = (rw (text_eq_refl k) refl, cons-AreIn k v m m d.0 (self-AreIn m d.1))

pub cleanup_expired-Counted :
    (n q : ℕ) (now : Time) (s : Plugin)
    → Counted n q s
    → Counted n q (cleanup_expired_sessions now s)
unfolding cleanup_expired_sessions
cleanup_expired-Counted n q now s c =
    cleanup-Counted n q now s.sessions s c c.distinct (self-AreIn s.sessions c.distinct)
