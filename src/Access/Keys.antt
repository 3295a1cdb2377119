-- ===== src/Access/Keys.antt =====
-- Who gets in from another host, and that no key is no way in.
use nova_airouter.Prelude.{
  ◌≡◌, refl, Bool, true, false, not, ◌&&◌, ◌||◌, [], ◌∷◌, Text, text_eq, codes, arith,
}
use nova_airouter.Access.{
  Net, Request, AccessConfig, Verdict, admitted, refused, is_local_request, check_key,
  share_mode_in, require_inbound_access, require_api_key, require_api_key_or_local,
}

abbrev pub is_admitted : Verdict → Bool
is_admitted admitted = true
is_admitted (refused code) = false

-- The request carries the configured key, which is not empty.
abbrev pub has_key : AccessConfig → Request → Bool
has_key c r = not (text_eq r.api_key []) && text_eq r.api_key c.api_key

-- The mode, or the one that stands for none.
abbrev pub is_public : AccessConfig → Bool
is_public c =
    text_eq c.share_mode (codes "public") || (text_eq c.share_mode [] && c.disable_admin_auth)

abbrev pub is_local_mode : AccessConfig → Bool
is_local_mode c = text_eq c.share_mode (codes "local")

check_key_lem : (c : AccessConfig) (r : Request) → is_admitted (check_key c r) ≡ has_key c r
unfolding check_key
check_key_lem c r = ground arith

is_public_lem :
    (mode : Text) (disable : Bool)
    → text_eq (share_mode_in mode disable) (codes "public")
      ≡ (text_eq mode (codes "public") || (text_eq mode [] && disable))
unfolding share_mode_in text_eq
is_public_lem [] true = refl
is_public_lem [] false = refl
is_public_lem (m ∷ mode) disable = ground arith

is_local_lem :
    (mode : Text) (disable : Bool)
    → text_eq (share_mode_in mode disable) (codes "local") ≡ text_eq mode (codes "local")
unfolding share_mode_in text_eq
is_local_lem [] true = refl
is_local_lem [] false = refl
is_local_lem (m ∷ mode) disable = refl

inbound :
    (net : Net) (c : AccessConfig) (r : Request)
    → is_admitted (require_inbound_access net c r)
      ≡ (is_public c || is_local_request net r || (not (is_local_mode c) && has_key c r))
unfolding require_inbound_access
inbound net c r =
    rw
      (
        is_public_lem c.share_mode c.disable_admin_auth,
        is_local_lem c.share_mode c.disable_admin_auth,
      )
      (ground (arith, check_key_lem c r))

-- Who is let in. The gateway admits a request exactly if its mode is public, or the request is
-- local, or it has the configured key and the mode is not local; the admin interface exactly if
-- authentication is off, the request is local, or it has the key. An empty configured key is no
-- key: then a request that is not local is refused where the mode is not public, and by the admin
-- interface where authentication is on.
pub access_lem :
    (net : Net) (c : AccessConfig) (r : Request)
    → (is_admitted (require_inbound_access net c r)
        ≡ (is_public c || is_local_request net r || (not (is_local_mode c) && has_key c r)))
      × (is_admitted (require_api_key_or_local net c r)
          ≡ (c.disable_admin_auth || is_local_request net r || has_key c r))
      × (has_key (record c { api_key = [] }) r ≡ false)
unfolding require_api_key_or_local require_api_key
access_lem net c r = (inbound net c r, ground (arith, check_key_lem c r), ground arith)
