-- ===== src/LocalGrpc/Message.antt =====
-- client/localgrpc/conn.go: `copyMessage`, and the call options that name where the response
-- metadata goes. A pointer to metadata is an address of a memory.
use kratos_core.Prelude.{ℕ, String, Option, none, some, List, [], ◌∷◌, ◌++◌, if◌then◌else◌}
use Prim.Native.String.{◌++◌ as str_append}
use kratos_core.Prelude.Eq.{◌==◌, string_eq, nat_eq, insert}
use kratos_core.Prelude.Error.{Error, Result, ok, err, plain}

-- A protobuf message by its Go type, the full name of its descriptor and its content.
pub record Message : Type 0 where
  pub go_type : String
  pub full_name : String
  pub content : String

-- A value of type `any`: a message, or a value of another Go type.
pub data Any : Type 0 where
  proto : Message → Any
  other : String → Any

abbrev pub type_name : Any → String
type_name (proto m) = m.go_type
type_name (other name) = name

abbrev concat : List String → String
concat [] = ""
concat (s ∷ rest) = str_append s (concat rest)

abbrev pub no_proto : Any → Any → Error
no_proto source target =
    plain
      (concat ("进程内 gRPC 仅支持 protobuf 消息，来源 " ∷ type_name source ∷ "，目标 " ∷ type_name target ∷ []))

-- `copyMessage`: what the target message is afterwards; an error leaves it alone.
unfoldable pub copy_message : Any → Any → Result Message
copy_message (proto target) (proto source) =
    if target.full_name == source.full_name
    then ok (record target { content = source.content })
    else err (
        plain (concat ("进程内 gRPC 消息类型不一致，来源 " ∷ source.full_name ∷ "，目标 " ∷ target.full_name ∷ [])))
copy_message (proto target) (other name) = err (no_proto (other name) (proto target))
copy_message (other name) source = err (no_proto source (other name))

-- The test of the streams' `SendMsg`.
unfoldable pub proto_message : Any → Result Message
proto_message (proto m) = ok m
proto_message (other name) = err (plain (str_append "进程内 gRPC 仅支持 protobuf 消息，来源 " name))

-- grpc/metadata: keys with their values.
abbrev pub Md : Type 0
Md = List (String × List String)

abbrev pub Address : Type 0
Address = ℕ

-- A header or trailer option with its pointer, by value or itself behind a pointer.
pub data CallOption : Type 0 where
  header trailer : Option Address → CallOption
  header_pointer trailer_pointer : Option (Option Address) → CallOption
  other_option : CallOption

abbrev opt_list : Option Address → List Address
opt_list none = []
opt_list (some a) = a ∷ []

abbrev flat : Option (Option Address) → List Address
flat none = []
flat (some a) = opt_list a

abbrev pub header_target : CallOption → List Address
header_target (header a) = opt_list a
header_target (header_pointer p) = flat p
header_target _ = []

abbrev pub trailer_target : CallOption → List Address
trailer_target (trailer a) = opt_list a
trailer_target (trailer_pointer p) = flat p
trailer_target _ = []

-- `configureCallOptions`, for the headers and for the trailers.
unfoldable pub header_options : List CallOption → List Address
header_options [] = []
header_options (o ∷ rest) = header_target o ++ header_options rest

unfoldable pub trailer_options : List CallOption → List Address
trailer_options [] = []
trailer_options (o ∷ rest) = trailer_target o ++ trailer_options rest

abbrev pub Memory : Type 0
Memory = List (Address × Md)

-- The loops over the stored targets.
unfoldable pub store_all : List Address → Md → Memory → Memory
store_all [] md memory = memory
store_all (a ∷ rest) md memory = store_all rest md (insert a md memory)

pub record ResponseMetadata : Type 0 where
  pub header : Md
  pub trailer : Md

-- `applyCallOptions`; `join` is `metadata.Join`.
unfoldable pub apply_call_options :
    (List Md → Md) → List CallOption → ResponseMetadata → Memory → Memory
unfolding store_all
apply_call_options join [] response memory = memory
apply_call_options join (o ∷ rest) response memory = apply_call_options join rest response (
    store_all (trailer_target o) (join (response.trailer ∷ []))
      (store_all (header_target o) (join (response.header ∷ [])) memory))
