-- ===== src/Plugin/Counted/Run.antt =====
-- The count of a backend through whole requests.
use nova_airouter.Prelude.{
  ℕ, Time, true, false, none, some, List, [], ◌∷◌, In, inl, inr, Text, text_eq, text_eq_refl, Dict,
  lookup, lookup-delete, ◌≡◌, refl, sym, ◌∙◌, subst, Bool-cases, Option-cases,
}
use nova_airouter.Balancer.{Float64, Draws}
use nova_airouter.Plugin.{Heap, ModelBackend, Plugin, is_at, bind_session, unbind_session}
use nova_airouter.Plugin.Select.{
  BackendChoice, no_backend, chosen, crashed, fresh_in, session_of, unbound_in, select_fresh,
  select_kept, select_in, kept_backend, select_backend, select_backend_by_score,
}
use nova_airouter.Plugin.Chat.{rebind}
use nova_airouter.Plugin.Counted.Release.{IsAlone, IsAloneIn}
use nova_airouter.Plugin.Counted.Sessions.{Counted, bind-Counted, unbind-Counted}
use nova_airouter.Plugin.Counted.Chosen.{select_backend_by_score-In}

lookup-unbind : (id : Text) (s : Plugin) → lookup id (unbind_session id s).sessions ≡ none
unfolding unbind_session
lookup-unbind id s = lookup-delete id id s.sessions ∙ rw (text_eq_refl id) refl

own :
    (q p : ℕ) (h : Heap) (ps : List ℕ)
    → IsAlone q h ps
    → In p ps
    → is_at (h q).address (h q).port (h p) ≡ true
    → p ≡ q
own q p h [] a i = elim i [ ]
own q p h (r ∷ ps) a (inl e) =
    subst (λ x. is_at (h q).address (h q).port (h x) ≡ true → x ≡ q) (sym e) a.0
own q p h (r ∷ ps) a (inr i) = own q p h ps a.1 i

some_injective : {a b : ModelBackend} → some a ≡ some b → a ≡ b
some_injective e = cc

IsAlone-of :
    (q : ℕ) (h : Heap) (model : Text) (mb : ModelBackend) (models : Dict ModelBackend)
    → IsAloneIn q h models
    → lookup model models ≡ some mb
    → IsAlone q h mb.backends
unfolding lookup
IsAlone-of q h model mb [] a e = absurd (cc)
IsAlone-of q h model mb ((k, v) ∷ models) a e = elim (Bool-cases (text_eq k model)) [
  | inl t ↦ subst (λ x. IsAlone q h x.backends) (some_injective (rw t at e)) a.0
  | inr t ↦ IsAlone-of q h model mb models a.1 (rw t at e)
]

-- A listed backend may be bound to a session that is not bound.
bind_listed :
    (n q : ℕ) (now : Time) (id model : Text) (mb : ModelBackend) (p : ℕ) (s : Plugin)
    → Counted n q s
    → lookup id s.sessions ≡ none
    → lookup model s.models ≡ some mb
    → In p mb.backends
    → Counted n q (bind_session now id p s)
bind_listed n q now id model mb p s c e m i =
    bind-Counted n q now id p s c e
      (own q p s.heap mb.backends (IsAlone-of q s.heap model mb s.models c.alone m) i)

pub rebind-Counted :
    (n q : ℕ) (now : Time) (id model : Text) (mb : ModelBackend) (p : ℕ) (s : Plugin)
    → Counted n q s
    → lookup model s.models ≡ some mb
    → In p mb.backends
    → Counted n q (rebind now id p s) × (lookup model (rebind now id p s).models ≡ some mb)
rebind-Counted n q now id model mb p s c m i = elim (Bool-cases (text_eq id [])) [
  | inl e ↦ rw e (c, m)
  | inr e ↦ rw e (
    bind_listed n q now id model mb p (unbind_session id s) (unbind-Counted n q id s c)
        (lookup-unbind id s) (unfold unbind_session in m) i,
    unfold bind_session unbind_session in m,
  )
]

module _ {R : Type 0} (f : Float64 R) where
  fresh_in-Counted :
      (n q : ℕ) (d : Draws R) (now : Time) (id model : Text) (mb : ModelBackend) (s : Plugin)
      → Counted n q s
      → lookup model s.models ≡ some mb
      → (text_eq id [] ≡ false → lookup id s.sessions ≡ none)
      → Counted n q (fresh_in f now id (select_backend_by_score f d s.heap mb.backends) s).0
  unfolding fresh_in
  fresh_in-Counted n q d now id model mb s c m fresh =
      go (select_backend_by_score f d s.heap mb.backends) refl
    where
      go :
          (ch : BackendChoice)
          → select_backend_by_score f d s.heap mb.backends ≡ ch
          → Counted n q (fresh_in f now id ch s).0
      go no_backend e = c
      go crashed e = c
      go (chosen p) e = elim (Bool-cases (text_eq id [])) [
        | inl t ↦ rw t c
        | inr t ↦ rw t (
            bind_listed n q now id model mb p s c (fresh t) m
              (select_backend_by_score-In f d s.heap mb.backends p e).0)
      ]

  select_fresh-Counted :
      (n q : ℕ) (d : Draws R) (now : Time) (id model : Text) (mb : ModelBackend) (s : Plugin)
      → Counted n q s
      → lookup model s.models ≡ some mb
      → Counted n q (select_fresh f d now id mb.backends s).0
  unfolding select_fresh session_of unbound_in
  select_fresh-Counted n q d now id model mb s c m = elim (Bool-cases (text_eq id [])) [
    | inl t ↦ rw t (fresh_in-Counted n q d now id model mb s c m (λ z. absurd (cc)))
    | inr t ↦ elim (Option-cases (lookup id s.sessions)) [
      | inl e ↦ rw (t, e) (fresh_in-Counted n q d now id model mb s c m (λ _. e))
      | inr (si, e) ↦
          rw (t, e)
            (fresh_in-Counted n q d now id model mb (unbind_session id s)
              (unbind-Counted n q id s c) (unfold unbind_session in m) (λ _. lookup-unbind id s))
    ]
  ]

  pub select-Counted :
      (n q : ℕ) (d : Draws R) (now : Time) (model id : Text) (s : Plugin)
      → Counted n q s
      → Counted n q (select_backend f d now model id s).0
  unfolding select_backend select_in select_kept
  select-Counted n q d now model id s c = elim (Option-cases (lookup model s.models)) [
    | inl e ↦ rw e c
    | inr (mb, e) ↦ elim (Option-cases (kept_backend f now mb.backends (session_of f id s) s)) [
      | inl k ↦ rw (e, k) (select_fresh-Counted n q d now id model mb s c e)
      | inr (p, k) ↦ rw (e, k) c
    ]
  ]
