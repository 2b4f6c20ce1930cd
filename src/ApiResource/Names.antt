-- ===== src/ApiResource/Names.antt =====
-- resource/biz/base_api.go: the names that are read from paths, references and identifiers.
use kratos_core.Prelude.{
  ℕ, String, ◌≡◌, refl, Bool, false, ◌&&◌, ◌||◌, Option, none, some, List, [], ◌∷◌, leb, nat_beq,
  if◌then◌else◌,
}
use Prim.Native.Char.{code}
use Prim.Native.String.{◌++◌ as str_append}
use kratos_core.Prelude.Eq.{◌==◌, string_eq}
use kratos_core.Prelude.Text.{codes, split, before, after, trim_prefix, has_prefix}

-- strings.Trim(path, "/")
unfoldable pub trim_left_slash : String → String
trim_left_slash String.[] = String.[]
trim_left_slash (String.◌∷◌ c s) =
    let rest = trim_left_slash s in if nat_beq (code c) b'/' then rest else String.◌∷◌ c s

unfoldable pub trim_right_slash : String → String
trim_right_slash String.[] = String.[]
trim_right_slash (String.◌∷◌ c s) =
    let rest = trim_right_slash s in
    if nat_beq (code c) b'/' && rest == "" then "" else String.◌∷◌ c rest

abbrev pub terminal_of : List String → String
terminal_of (a ∷ b ∷ terminal ∷ rest) = if a == "api" && b == "v1" then terminal else ""
terminal_of _ = ""

-- `openAPITerminal`
unfoldable pub openapi_terminal : String → String
unfolding trim_left_slash trim_right_slash
openapi_terminal path = terminal_of (split b'/' (trim_right_slash (trim_left_slash path)))

abbrev pub zero_byte : String
zero_byte = "\0"

-- `servicePackageKey`
unfoldable pub service_package_key : String → String → String
unfolding openapi_terminal
service_package_key path service_tag =
    let terminal = openapi_terminal path in
    if terminal == "" || service_tag == ""
    then ""
    else str_append terminal (str_append zero_byte service_tag)

abbrev both_parts : String → Option String → String × String
both_parts service none = ("", "")
both_parts service (some method) =
    if service == "" || method == "" then ("", "") else (service, method)

-- `parseOperationID`
unfoldable pub parse_operation_id : String → String × String
parse_operation_id id = both_parts (before b'_' id) (after b'_' id)

abbrev version_codes : List ℕ → Bool
version_codes (v ∷ digit ∷ rest) = nat_beq v b'v' && leb b'0' digit && leb digit b'9'
version_codes _ = false

-- `isProtoPackageVersion`
unfoldable pub is_proto_package_version : String → Bool
is_proto_package_version value = version_codes (codes value)

-- The parts up to the first version that is neither the first nor the last; `read` is what was
-- joined before.
abbrev up_to_version : Option String → List String → String
up_to_version read [] = ""
up_to_version read (part ∷ []) = ""
up_to_version none (part ∷ next ∷ rest) = up_to_version (some part) (next ∷ rest)
up_to_version (some read) (part ∷ next ∷ rest) =
    let joined = str_append read (str_append "." part) in
    let later = up_to_version (some joined) (next ∷ rest) in
    if is_proto_package_version part then joined else later

-- `protoPackageFromSchemaRef`
unfoldable pub proto_package_from_schema_ref : String → String
unfolding is_proto_package_version
proto_package_from_schema_ref ref =
    let name = trim_prefix ref "#/components/schemas/" in
    if name == ref then "" else up_to_version none (split b'.' name)

abbrev before_version : String → List String → String
before_version previous [] = ""
before_version previous (part ∷ []) = if is_proto_package_version part then previous else ""
before_version previous (part ∷ next ∷ rest) = before_version part (next ∷ rest)

abbrev terminal_part : List String → String
terminal_part [] = ""
terminal_part (part ∷ rest) = before_version part rest

-- `protoPackageTerminal`
unfoldable pub proto_package_terminal : String → String
unfolding is_proto_package_version
proto_package_terminal package_name = terminal_part (split b'.' package_name)

-- `terminalByTagDescription`
unfoldable pub terminal_by_tag_description : String → String
terminal_by_tag_description description =
    if has_prefix description "Admin"
    then "admin"
    else if has_prefix description "App"
    then "app"
    else if has_prefix description "Base"
    then "base"
    else ""

names_test :
    (openapi_terminal "/api/v1/admin/goods/" ≡ "admin")
    × (proto_package_from_schema_ref "#/components/schemas/shop.admin.v1.Goods" ≡ "shop.admin.v1")
    × (proto_package_terminal "shop.admin.v1" ≡ "admin")
unfolding openapi_terminal proto_package_from_schema_ref proto_package_terminal split trim_prefix
    codes
names_test = (refl, refl, refl)
