-- ===== src/RequestLog/Address.antt =====
-- Where the address of a client comes from.
use kratos_core.Prelude.{
  String, ◌≡◌, refl, Bool, true, false, ◌⊎◌, Option, none, some, List, [], ◌∷◌, In, arith,
  Bool-cases, inl, inr, if◌then◌else◌,
}
use mathlib.Core.Path.{subst}
use kratos_core.Prelude.Eq.{◌==◌, string_eq}
use kratos_core.Prelude.Text.{split}
use kratos_core.RequestLog.{
  Request, Net, has_byte, first_ip, ip_or, host_or, get_ip_from_remote_addr, header_ip_or,
  forwarded_or, forwarded_ip, get_client_real_ip, header_key_x_forwarded_for, header_key_x_real_ip,
  header_key_x_client_ip,
}

-- Where a request names an address: in the list of the proxies, in a header of its own, or as its
-- peer.
pub data Named (n : Net) (request : Request) : String → Type 0 where
  by_proxy :
      (ip : String)
      → In ip (split b',' (request.header header_key_x_forwarded_for))
      → Named n request ip
  by_header : Named n request (request.header header_key_x_real_ip)
  by_client_header : Named n request (request.header header_key_x_client_ip)
  by_host : (host : String) → n.split_host request.remote_addr ≡ some host → Named n request host
  by_peer : Named n request request.remote_addr

module _ (n : Net) (request : Request) where
  -- No address, or one that the request names.
  abbrev Found : String → Type 0
  Found ip = (ip ≡ "") ⊎ ((n.is_ip ip ≡ true) × Named n request ip)

  Found-if : (b : Bool) (x y : String) → (b ≡ true → Found x) → Found y → Found (if b then x else y)
  Found-if true x y on off = on refl
  Found-if false x y on off = off

  ip_or-Found : (ip later : String) → Named n request ip → Found later → Found (ip_or n ip later)
  ip_or-Found ip later named is = Found-if (n.is_ip ip) ip later (λ h. inr (h, named)) is

  header_ip_or-Found :
      (text later : String) → Named n request text → Found later → Found (header_ip_or n text later)
  header_ip_or-Found text later named is =
      Found-if (text == "") later (ip_or n text later) (λ h. is) (ip_or-Found text later named is)

  host_or-Found :
      (host : Option String) (later : String)
      → n.split_host request.remote_addr ≡ host
      → Found later
      → Found (host_or n host later)
  host_or-Found none later h is = is
  host_or-Found (some host) later h is = ip_or-Found host later (by_host host h) is

  get_ip_from_remote_addr-Found : Found (get_ip_from_remote_addr n request.remote_addr)
  unfolding get_ip_from_remote_addr
  get_ip_from_remote_addr-Found =
      let peer = ip_or-Found request.remote_addr "" by_peer (inl refl) in
      Found-if (has_byte b':' request.remote_addr) _ _
        (λ h. host_or-Found (n.split_host request.remote_addr) _ refl peer) peer

  first_ip-In :
      (ips : List String) (ip : String) → first_ip n ips ≡ some ip → (n.is_ip ip ≡ true) × In ip ips
  unfolding first_ip
  first_ip-In [] ip h = ground (arith, h)
  first_ip-In (x ∷ ips) ip h = elim (Bool-cases (n.is_ip x)) [
    | inl t ↦
        let same : x ≡ ip = ground (arith, h, t) in
        subst (λ y. (n.is_ip y ≡ true) × In y (x ∷ ips)) same (t, inl refl)
    | inr f ↦ let (a, b) = first_ip-In ips ip (rw f at h) in (a, inr b)
  ]

  forwarded_ip-In :
      (xff ip : String)
      → forwarded_ip n xff ≡ some ip
      → (n.is_ip ip ≡ true) × In ip (split b',' xff)
  forwarded_ip-In xff ip h = elim (Bool-cases (xff == "")) [
    | inl t ↦ ground (arith, h, t)
    | inr f ↦ first_ip-In (split b',' xff) ip (rw f at h)
  ]

  forwarded_or-Found :
      (found : Option String) (later : String)
      → forwarded_ip n (request.header header_key_x_forwarded_for) ≡ found
      → Found later
      → Found (forwarded_or n found later)
  forwarded_or-Found none later h is = is
  forwarded_or-Found (some ip) later h is =
      let (a, b) = forwarded_ip-In (request.header header_key_x_forwarded_for) ip h in
      inr (a, by_proxy ip b)

  -- The address of a client is empty, or it is an address, and the request names it: in the list
  -- of proxies, in one of the two other headers, or as its peer.
  pub get_client_real_ip-Found :
      (get_client_real_ip n (some request) ≡ "")
      ⊎ ((n.is_ip (get_client_real_ip n (some request)) ≡ true)
          × Named n request (get_client_real_ip n (some request)))
  unfolding get_client_real_ip
  get_client_real_ip-Found =
      forwarded_or-Found (forwarded_ip n (request.header header_key_x_forwarded_for)) _ refl (
        header_ip_or-Found (request.header header_key_x_real_ip) _ by_header (
          header_ip_or-Found (request.header header_key_x_client_ip) _ by_client_header
            get_ip_from_remote_addr-Found))
