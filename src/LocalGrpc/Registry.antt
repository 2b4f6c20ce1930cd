-- ===== src/LocalGrpc/Registry.antt =====
-- client/localgrpc/conn.go: `NewConn`, `RegisterService` and `registerUnary`.
-- A panic keeps what was registered before it, so the connection is part of the result.
pub mod Unique
use kratos_core.Prelude.{
  ℕ, String, Bool, true, false, ◌||◌, Option, none, some, List, [], ◌∷◌, if◌then◌else◌,
}
use Prim.Native.String.{◌++◌ as str_append}
use kratos_core.Prelude.Eq.{◌==◌, string_eq, lookup, insert}

-- A service implementation by its identity.
abbrev pub Service : Type 0
Service = ℕ

pub record MethodDesc : Type 0 where
  pub method_name : String

pub record StreamDesc : Type 0 where
  pub stream_name : String
  pub client_streams : Bool
  pub server_streams : Bool

pub record ServiceDesc : Type 0 where
  pub service_name : String
  pub methods : List MethodDesc
  pub streams : List StreamDesc

pub record UnaryMethod : Type 0 where
  pub description : MethodDesc
  pub service : Service

pub record StreamMethod : Type 0 where
  pub description : StreamDesc
  pub service : Service

-- The two tables of the connection.
pub record Conn : Type 0 where
  pub methods : List (String × UnaryMethod)
  pub streams : List (String × StreamMethod)

unfoldable pub new_conn : Conn
new_conn = record { methods = []; streams = [] }

abbrev pub full_method : String → String → String
full_method service name = str_append "/" (str_append service (str_append "/" name))

abbrev pub exists {ℓ} : {A : Type ℓ} → Option A → Bool
exists none = false
exists (some _) = true

abbrev duplicate : String → String
duplicate method = str_append "localgrpc: gRPC 方法 " (str_append method " 重复注册")

-- A registration that may have panicked, with the message, and the connection then.
abbrev pub Registering : Type 0
Registering = Option String × Conn

abbrev pub taken : String → Conn → Bool
taken name c = exists (lookup name c.methods) || exists (lookup name c.streams)

unfoldable pub register_unary : String → MethodDesc → Service → Conn → Registering
register_unary service_name method service c =
    let name = full_method service_name method.method_name in
    if taken name c then (some (duplicate name), c) else (
      none,
      record c {
        methods = insert name (record { description = method; service = service }) c.methods;
      },
    )

unfoldable pub register_stream : String → StreamDesc → Service → Conn → Registering
register_stream service_name stream service c =
    let name = full_method service_name stream.stream_name in
    if taken name c then (some (duplicate name), c) else (
      none,
      record c {
        streams = insert name (record { description = stream; service = service }) c.streams;
      },
    )

-- A panic ends the rest of the function.
abbrev pub unless_panic : Registering → (Conn → Registering) → Registering
unless_panic (none, c) next = next c
unless_panic (some message, c) next = (some message, c)

pub register_methods : String → List MethodDesc → Service → Conn → Registering
unfolding register_unary
register_methods service_name [] service c = (none, c)
register_methods service_name (method ∷ rest) service c =
    unless_panic (register_unary service_name method service c)
      (register_methods service_name rest service)

pub register_streams : String → List StreamDesc → Service → Conn → Registering
unfolding register_stream
register_streams service_name [] service c = (none, c)
register_streams service_name (stream ∷ rest) service c =
    unless_panic (register_stream service_name stream service c)
      (register_streams service_name rest service)

unfoldable pub register_service : Option ServiceDesc → Option Service → Conn → Registering
unfolding register_methods register_streams
register_service none service c = (some "localgrpc: gRPC 服务描述不能为空", c)
register_service (some d) none c =
    (some (str_append "localgrpc: gRPC 服务 " (str_append d.service_name " 的实现不能为空")), c)
register_service (some d) (some service) c =
    unless_panic (register_methods d.service_name d.methods service c)
      (register_streams d.service_name d.streams service)
