-- ===== src/RequestLog.antt =====
-- server/middleware/logging/utils.go: what the log of a request tells of its client. Headers, the
-- parser of addresses, the authenticator and the database of places are other libraries.
pub mod Address
mod Tests
use kratos_core.Prelude.{
  ℕ, String, Bool, true, false, ◌||◌, Option, none, some, List, [], ◌∷◌, nat_beq, if◌then◌else◌,
}
use Prim.Native.Char.{code}
use kratos_core.Prelude.Eq.{◌==◌, string_eq}
use kratos_core.Prelude.Error.{Error, Result, ok, err}
use kratos_core.Prelude.Text.{split, trim_prefix}

-- `http.Request`: `Header.Get` and the address of the peer.
pub record Request : Type 0 where
  pub header : String → String
  pub remote_addr : String

-- `net.ParseIP` and the host of `net.SplitHostPort`.
pub record Net : Type 0 where
  pub is_ip : String → Bool
  pub split_host : String → Option String

abbrev pub header_key_x_forwarded_for : String
header_key_x_forwarded_for = "X-Forwarded-For"

abbrev pub header_key_x_real_ip : String
header_key_x_real_ip = "X-Real-IP"

abbrev pub header_key_x_client_ip : String
header_key_x_client_ip = "X-Client-IP"

-- strings.Contains of one byte
unfoldable pub has_byte : ℕ → String → Bool
has_byte b String.[] = false
has_byte b (String.◌∷◌ c s) = nat_beq (code c) b || has_byte b s

-- The text, or else what comes next.
abbrev pub first_non_empty : String → String → String
first_non_empty text later = if text == "" then later else text

module _ (n : Net) where
  -- The address in the first text that is one.
  unfoldable pub first_ip : List String → Option String
  first_ip [] = none
  first_ip (ip ∷ rest) = let later = first_ip rest in if n.is_ip ip then some ip else later

  abbrev pub ip_or : String → String → String
  ip_or ip later = if n.is_ip ip then ip else later

  abbrev pub host_or : Option String → String → String
  host_or none later = later
  host_or (some host) later = ip_or host later

  -- `getIPFromRemoteAddr`
  unfoldable pub get_ip_from_remote_addr : String → String
  unfolding has_byte
  get_ip_from_remote_addr host_address =
      if has_byte b':' host_address
      then host_or (n.split_host host_address) (ip_or host_address "")
      else ip_or host_address ""

  -- A header that is there and is an address, or else what comes next.
  abbrev pub header_ip_or : String → String → String
  header_ip_or text later = if text == "" then later else ip_or text later

  abbrev pub forwarded_or : Option String → String → String
  forwarded_or none later = later
  forwarded_or (some ip) later = ip

  abbrev pub forwarded_ip : String → Option String
  forwarded_ip xff = if xff == "" then none else first_ip (split b',' xff)

  -- `getClientRealIP`
  unfoldable pub get_client_real_ip : Option Request → String
  unfolding first_ip get_ip_from_remote_addr
  get_client_real_ip none = ""
  get_client_real_ip (some request) =
      forwarded_or (forwarded_ip (request.header header_key_x_forwarded_for)) (
        header_ip_or (request.header header_key_x_real_ip) (
          header_ip_or (request.header header_key_x_client_ip)
            (get_ip_from_remote_addr request.remote_addr)))

-- `getRequestID`, with the identifier of the context.
abbrev pub get_request_id : String → Option Request → String
get_request_id from_context none = from_context
get_request_id from_context (some request) = first_non_empty from_context (
    first_non_empty (request.header "X-Request-id")
      (first_non_empty (request.header "X-Correlation-ID") (request.header "x-fc-request-id")))

-- `qqwry.IsPrivateIP` and the city of `Query`.
pub record Places : Type 0 where
  pub is_private : String → Bool
  pub city : String → Result String

abbrev city_or_nothing : Result String → String
city_or_nothing (ok city) = city
city_or_nothing (err e) = ""

-- `clientIPToLocation`
abbrev pub client_ip_to_location : Places → String → String
client_ip_to_location places ip =
    if ip == ""
    then ""
    else if places.is_private ip
    then "内网IP"
    else city_or_nothing (places.city ip)

module _ {C P : Type 0} (authenticate : String → Option C) (payload_of : C → Option P) where
  abbrev pub payload : Option C → Option P
  payload none = none
  payload (some claims) = payload_of claims

  -- `extractAuthToken`, where a failure of the authenticator gives no claims.
  unfoldable pub extract_auth_token : String → Option P
  extract_auth_token auth_token =
      if auth_token == "" then none else payload (authenticate (trim_prefix auth_token "Bearer "))
