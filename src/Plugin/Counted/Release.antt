-- ===== src/Plugin/Counted/Release.antt =====
-- What a release of a session leaves at a backend that stands alone at its address.
use nova_airouter.Prelude.{
  ℕ, suc, ◌+◌, ◌==◌, ℤ, negsuc, ◌+ℤ◌, i32, Bool, true, false, ◌&&◌, if◌then◌else◌, Option, none,
  some, List, [], ◌∷◌, All, inl, inr, exists, Text, text_eq, text_eq_iff, Dict, lookup, insert,
  delete, Distinct, ◌≡◌, ◌≢◌, refl, sym, ap, ◌∙◌, subst, arith, Bool-cases, ==_iff,
}
use nova_airouter.Plugin.{
  Backend, Heap, ModelBackend, SessionInfo, add_conn, eq_ℤ, is_at, release_in, release,
}

pub eq_ℤ-iff : (a b : ℤ) → eq_ℤ a b ≡ true → a ≡ b
eq_ℤ-iff a b h = ground arith

-- The sessions that are bound to the backend at an address.
abbrev pub at_session : Text → ℤ → SessionInfo → Bool
at_session addr port si = text_eq addr si.backend_addr && eq_ℤ port si.backend_port

abbrev pub bound : Text → ℤ → Dict SessionInfo → ℕ
bound addr port [] = 0
bound addr port ((_, si) ∷ m) =
    if at_session addr port si then suc (bound addr port m) else bound addr port m

abbrev pub session_weight : Text → ℤ → Option SessionInfo → ℕ
session_weight addr port none = 0
session_weight addr port (some si) = if at_session addr port si then 1 else 0

pub bound-insert :
    (addr : Text) (port : ℤ) (k : Text) (si : SessionInfo) (m : Dict SessionInfo)
    → bound addr port (insert k si m) + session_weight addr port (lookup k m)
      ≡ bound addr port m + session_weight addr port (some si)
unfolding insert lookup
bound-insert addr port k si [] = ground arith
bound-insert addr port k si ((j, sj) ∷ m) = ground (arith, bound-insert addr port k si m)

pub bound-delete :
    (addr : Text) (port : ℤ) (k : Text) (m : Dict SessionInfo)
    → Distinct m
    → bound addr port (delete k m) + session_weight addr port (lookup k m) ≡ bound addr port m
unfolding delete lookup
bound-delete addr port k [] d = refl
bound-delete addr port k ((j, sj) ∷ m) d =
    ground (arith, text_eq_iff j k, bound-delete addr port k m d.1)

-- The heap keeps the address of each backend, and whether it is healthy.
abbrev pub SameAddresses : Heap → Heap → Type 0
SameAddresses h h' =
    (p : ℕ)
    → ((h' p).address ≡ (h p).address)
      × ((h' p).port ≡ (h p).port)
      × ((h' p).healthy ≡ (h p).healthy)

pub add_conn-SameAddresses : (d : ℤ) (p : ℕ) (h : Heap) → SameAddresses h (add_conn d p h)
unfolding add_conn
add_conn-SameAddresses d p h q = ground (arith, ==_iff q p)

pub trans-SameAddresses : (h k l : Heap) → SameAddresses h k → SameAddresses k l → SameAddresses h l
trans-SameAddresses h k l a b p = ((b p).0 ∙ (a p).0, (b p).1 ∙ (a p).1, (b p).2 ∙ (a p).2)

release_in-SameAddresses :
    (addr : Text) (port : ℤ) (ps : List ℕ) (h : Heap) → SameAddresses h (release_in addr port ps h)
unfolding release_in
release_in-SameAddresses addr port [] h = λ p. (refl, refl, refl)
release_in-SameAddresses addr port (q ∷ ps) h = elim (Bool-cases (is_at addr port (h q))) [
  | inl e ↦ rw e (add_conn-SameAddresses (negsuc 0) q h)
  | inr e ↦ rw e (release_in-SameAddresses addr port ps h)
]

pub release-SameAddresses :
    (addr : Text) (port : ℤ) (models : Dict ModelBackend) (h : Heap)
    → SameAddresses h (release addr port models h)
unfolding release
release-SameAddresses addr port [] h = λ p. (refl, refl, refl)
release-SameAddresses addr port ((_, mb) ∷ models) h =
    let h' = release_in addr port mb.backends h in
    trans-SameAddresses h h' (release addr port models h')
      (release_in-SameAddresses addr port mb.backends h) (release-SameAddresses addr port models h')

abbrev pub mem : ℕ → List ℕ → Bool
mem q ps = exists (λ p. q == p) ps

-- The number of models that list the backend.
abbrev pub listed : ℕ → Dict ModelBackend → ℕ
listed q [] = 0
listed q ((_, mb) ∷ models) = if mem q mb.backends then suc (listed q models) else listed q models

-- No other of the backends has the address of `q`.
abbrev pub IsAlone : ℕ → Heap → List ℕ → Type 0
IsAlone q h ps = All (λ p. is_at (h q).address (h q).port (h p) ≡ true → p ≡ q) ps

abbrev pub IsAloneIn : ℕ → Heap → Dict ModelBackend → Type 0
IsAloneIn q h [] = Unit
IsAloneIn q h ((_, mb) ∷ models) = IsAlone q h mb.backends × IsAloneIn q h models

IsAlone-SameAddresses :
    (q : ℕ) (h h' : Heap) (ps : List ℕ) → SameAddresses h h' → IsAlone q h ps → IsAlone q h' ps
IsAlone-SameAddresses q h h' [] a i = tt
IsAlone-SameAddresses q h h' (p ∷ ps) a i =
    (λ e. i.0 (rw ((a q).0, (a q).1, (a p).0, (a p).1) at e), IsAlone-SameAddresses q h h' ps a i.1)

pub IsAloneIn-SameAddresses :
    (q : ℕ) (h h' : Heap) (models : Dict ModelBackend)
    → SameAddresses h h'
    → IsAloneIn q h models
    → IsAloneIn q h' models
IsAloneIn-SameAddresses q h h' [] a i = tt
IsAloneIn-SameAddresses q h h' ((_, mb) ∷ models) a i =
    (IsAlone-SameAddresses q h h' mb.backends a i.0, IsAloneIn-SameAddresses q h h' models a i.1)

pub add_conn-here :
    (d : ℤ) (p : ℕ) (h : Heap) → (add_conn d p h p).active_conn ≡ i32 ((h p).active_conn +ℤ d)
unfolding add_conn
add_conn-here d p h = ground (arith, ==_iff p p)

pub add_conn-there : (d : ℤ) (p q : ℕ) (h : Heap) → (q == p) ≡ false → (add_conn d p h q) ≡ h q
unfolding add_conn
add_conn-there d p q h e = rw e refl

pub add_conn-at :
    (d : ℤ) (p q : ℕ) (h : Heap)
    → (q == p) ≡ true
    → (add_conn d p h q).active_conn ≡ i32 ((h q).active_conn +ℤ d)
add_conn-at d p q h e =
    subst (λ x. (add_conn d x h q).active_conn ≡ i32 ((h q).active_conn +ℤ d)) ((==_iff q p).0 e)
      (add_conn-here d q h)

pub neq_self : (q : ℕ) → (q == q) ≢ false
neq_self q h = absurd (ground arith)

-- What a release leaves at `q`, which stands alone at its address.
unfoldable pub dropped : Bool → ℤ → ℤ
dropped true a = i32 (a +ℤ negsuc 0)
dropped false a = a

at_both :
    (addr : Text) (port : ℤ) (b c : Backend)
    → is_at addr port b ≡ true
    → is_at addr port c ≡ true
    → is_at b.address b.port c ≡ true
at_both addr port b c h k = ground (
  arith,
  text_eq_iff b.address addr,
  text_eq_iff c.address addr,
  text_eq_iff c.address b.address,
  eq_ℤ-iff b.port port,
  eq_ℤ-iff c.port port,
)

release_in-alone :
    (q : ℕ) (addr : Text) (port : ℤ) (ps : List ℕ) (h : Heap)
    → IsAlone q h ps
    → (release_in addr port ps h q).active_conn
      ≡ dropped (is_at addr port (h q) && mem q ps) (h q).active_conn
unfolding release_in dropped
release_in-alone q addr port [] h i = ground arith
release_in-alone q addr port (p ∷ ps) h i = elim (Bool-cases (is_at addr port (h p))) [
  | inl e ↦ elim (Bool-cases (q == p)) [
    | inl s ↦ let same = (==_iff q p).0 s in rw (e, s, same, e) (add_conn-here (negsuc 0) p h)
    | inr s ↦ elim (Bool-cases (is_at addr port (h q))) [
      | inl t ↦
          absurd
            (neq_self q (subst (λ x. (q == x) ≡ false) (i.0 (at_both addr port (h q) (h p) t e)) s))
      | inr t ↦ rw (e, t) (ap (λ b. b.active_conn) (add_conn-there (negsuc 0) p q h s))
    ]
  ]
  | inr e ↦ elim (Bool-cases (q == p)) [
    | inl s ↦
        let t = subst (λ x. is_at addr port (h x) ≡ false) (sym ((==_iff q p).0 s)) e in
        rw (e, t) (release_in-alone q addr port ps h i.1 ∙ rw t refl)
    | inr s ↦ rw (e, s) (release_in-alone q addr port ps h i.1)
  ]
]

zero_suc : {n : ℕ} → suc n ≢ 0
zero_suc e = absurd (omega (arith, e))

and_true : (b : Bool) → (b && true) ≡ b
and_true b = ground arith

dropped_none : (b : Bool) (a : ℤ) → dropped (b && false) a ≡ a
unfolding dropped
dropped_none b a = ground arith

release-absent :
    (q : ℕ) (addr : Text) (port : ℤ) (models : Dict ModelBackend) (h : Heap)
    → IsAloneIn q h models
    → listed q models ≡ 0
    → (release addr port models h q).active_conn ≡ (h q).active_conn
unfolding release dropped
release-absent q addr port [] h i e = refl
release-absent q addr port ((_, mb) ∷ models) h i e =
    let h' = release_in addr port mb.backends h in
    elim (Bool-cases (mem q mb.backends)) [
      | inl t ↦ absurd (zero_suc (rw t at e))
      | inr t ↦
          release-absent q addr port models h'
            (IsAloneIn-SameAddresses q h h' models
              (release_in-SameAddresses addr port mb.backends h) i.1)
            (rw t at e)
          ∙ release_in-alone q addr port mb.backends h i.0
          ∙ rw t (dropped_none (is_at addr port (h q)) (h q).active_conn)
    ]

pub release-alone :
    (q : ℕ) (addr : Text) (port : ℤ) (models : Dict ModelBackend) (h : Heap)
    → IsAloneIn q h models
    → listed q models ≡ 1
    → (release addr port models h q).active_conn ≡ dropped (is_at addr port (h q)) (h q).active_conn
unfolding release
release-alone q addr port [] h i e = absurd (zero_suc (sym e))
release-alone q addr port ((_, mb) ∷ models) h i e =
    let h' = release_in addr port mb.backends h in
    let same = release_in-SameAddresses addr port mb.backends h in
    let rest = IsAloneIn-SameAddresses q h h' models same i.1 in
    let here = release_in-alone q addr port mb.backends h i.0 in
    elim (Bool-cases (mem q mb.backends)) [
      | inl t ↦
          release-absent q addr port models h' rest (omega (arith, rw t at e))
          ∙ here
          ∙ rw t (ap (λ b. dropped b (h q).active_conn) (and_true (is_at addr port (h q))))
      | inr t ↦
          release-alone q addr port models h' rest (rw t at e)
          ∙ ap (λ b. dropped b (h' q).active_conn) (rw ((same q).0, (same q).1) refl)
          ∙ ap (dropped (is_at addr port (h q)))
              (here ∙ rw t (dropped_none (is_at addr port (h q)) (h q).active_conn))
    ]
