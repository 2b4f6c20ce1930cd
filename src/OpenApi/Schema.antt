-- ===== src/OpenApi/Schema.antt =====
-- resource/openapi/openapi.go: the schemas of a parsed document, and their fields as a tree.
pub mod Depth
use kratos_core.Prelude.{
  ℕ, zero, suc, String, Bool, true, false, ◌||◌, Option, none, some, List, [], ◌∷◌, if◌then◌else◌,
}
use Prim.Native.String.{◌++◌ as str_append}
use kratos_core.Prelude.Eq.{◌==◌, string_eq, contains, lookup}
use kratos_core.Prelude.Sort.{less, sort_by}
use kratos_core.Prelude.Text.{trim_prefix}

-- `openAPISchema`; the fields of an object by their names, and the pointer to the items.
mutual
  pub data Schema : Type 0 where
    schema : String → String → String → String → List String → List String → Fields → Items → Schema

  pub data Fields : Type 0 where
    no_fields : Fields
    field : String → Schema → Fields → Fields

  pub data Items : Type 0 where
    no_items : Items
    items : Schema → Items

-- `dto.OpenAPISchema` with its children.
mutual
  pub data Node : Type 0 where
    node :
        String
        → String
        → String
        → String
        → String
        → Bool
        → String
        → String
        → List String
        → Nodes
        → Node

  pub data Nodes : Type 0 where
    leaf : Nodes
    child : Node → Nodes → Nodes

-- The component schemas of a document.
abbrev pub Components : Type 0
Components = List (String × Schema)

abbrev described : String → Schema → Schema
described text (schema ref kind format description enum required fs its) =
    if description == ""
    then schema ref kind format text enum required fs its
    else schema ref kind format description enum required fs its

abbrev description_of : Schema → String
description_of (schema ref kind format description enum required fs its) = description

abbrev ref_of : Schema → String
ref_of (schema ref kind format description enum required fs its) = ref

abbrev pub component : String → Schema → Option Schema → Schema × String
component name s none = (s, name)
component name s (some found) = (described (description_of s) found, name)

-- `dereferenceOpenAPISchema`; `none` is a `nil` document.
abbrev pub resolved : Option Components → String → Schema → Schema × String
resolved none name s = (s, name)
resolved (some components) name s =
    if name == "" then (s, name) else component name s (lookup name components)

unfoldable pub dereference : Option Components → Schema → Schema × String
dereference document s = resolved document (trim_prefix (ref_of s) "#/components/schemas/") s

abbrev has_fields : Fields → Bool
has_fields no_fields = false
has_fields (field name s rest) = true

abbrev has_items : Items → Bool
has_items no_items = false
has_items (items s) = true

-- `inferOpenAPISchemaType`
unfoldable pub infer_type : Schema → String
infer_type (schema ref kind format description enum required fs its) =
    if has_fields fs || not_empty ref then "object" else if has_items its then "array" else "string"
  where
    not_empty : String → Bool
    not_empty s = if s == "" then false else true

-- The names of the fields in order, each with its schema.
abbrev pub field_list : Fields → List (String × Schema)
field_list no_fields = []
field_list (field name s rest) = (name, s) ∷ field_list rest

abbrev pub by_name : String × Schema → String × Schema → Bool
by_name (a, s) (b, t) = less a b

abbrev pub field_path : String → String → String
field_path path name = if path == "" then name else str_append path (str_append "." name)

-- One level down: name, path, whether it is required, and the schema.
abbrev pub Build : Type 0
Build = String → String → Bool → Schema → Node

abbrev pub field_nodes : Build → String → List String → List (String × Schema) → Nodes
field_nodes build path required [] = leaf
field_nodes build path required ((name, s) ∷ rest) =
    child (build name (field_path path name) (contains required name) s)
      (field_nodes build path required rest)

abbrev pub item_nodes : Build → String → String → Items → Nodes
item_nodes build name path no_items = leaf
item_nodes build name path (items s) =
    child (build (str_append name "[]") (str_append path "[]") false s) leaf

-- The fields take the place of the items.
abbrev pub child_nodes : Build → String → String → List String → Fields → Items → Nodes
child_nodes build name path required no_fields its = item_nodes build name path its
child_nodes build name path required (field f s rest) its =
    field_nodes build path required (sort_by by_name (field_list (field f s rest)))

abbrev or_infer : String → Schema → String
or_infer kind s = if kind == "" then infer_type s else kind

abbrev pub node_of :
    (List String → Fields → Items → Nodes)
    → String
    → String
    → String
    → Bool
    → Schema × String
    → Node
node_of children name path place required
      (schema ref kind format description enum needs fs its, ref_name) =
    node name path place (or_infer kind (schema ref kind format description enum needs fs its))
      format required description ref_name enum (children needs fs its)

-- `buildOpenAPISchema`; `levels` is what is left of the depth limit.
unfoldable pub build_schema :
    ℕ → Option Components → String → String → String → Bool → Schema → Node
unfolding dereference infer_type
build_schema zero document name path place required s =
    node_of (λ needs fs its. leaf) name path place required (dereference document s)
build_schema (suc levels) document name path place required s =
    node_of
      (λ needs fs its.
        child_nodes (λ n p r t. build_schema levels document n p place r t) name path needs fs its)
      name path place required (dereference document s)

-- `openAPIDocumentMaxDepth`
abbrev pub max_depth : ℕ
max_depth = 8
