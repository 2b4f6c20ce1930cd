-- ===== src/RequestLog/Tests.antt =====
-- A request behind two proxies.
use kratos_core.Prelude.{String, ◌≡◌, refl, true, ◌⊎◌, none, some, if◌then◌else◌}
use kratos_core.Prelude.Eq.{◌==◌, string_eq}
use kratos_core.Prelude.Text.{split}
use kratos_core.RequestLog.{
  Request, Net, first_ip, has_byte, get_ip_from_remote_addr, get_client_real_ip, get_request_id,
}
use kratos_core.RequestLog.Address.{Named, get_client_real_ip-Found}

-- One address, without spaces.
abbrev net : Net
net = record { is_ip = λ s. s == "203.0.113.7"; split_host = λ s. none }

abbrev forwarded : String → Request
forwarded list = record {
  header = λ key. if key == "X-Forwarded-For" then list else "";
  remote_addr = "peer";
}

get_client_real_ip-Found_example :
    (get_client_real_ip net (some (forwarded "unknown,203.0.113.7")) ≡ "")
    ⊎ ((net.is_ip (get_client_real_ip net (some (forwarded "unknown,203.0.113.7"))) ≡ true)
        × Named net
            (forwarded "unknown,203.0.113.7")
            (get_client_real_ip net (some (forwarded "unknown,203.0.113.7"))))
get_client_real_ip-Found_example = get_client_real_ip-Found net (forwarded "unknown,203.0.113.7")

proxies_test : get_client_real_ip net (some (forwarded "unknown,203.0.113.7")) ≡ "203.0.113.7"
unfolding get_client_real_ip first_ip split get_ip_from_remote_addr has_byte
proxies_test = refl

-- The space that a proxy puts after a comma stays in the entry.
spaced_proxies_test : get_client_real_ip net (some (forwarded "unknown, 203.0.113.7")) ≡ ""
unfolding get_client_real_ip first_ip split get_ip_from_remote_addr has_byte
spaced_proxies_test = refl

get_request_id_test : get_request_id "" (some (forwarded "")) ≡ ""
get_request_id_test = refl
