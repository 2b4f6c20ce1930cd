-- ===== src/ApiResource/Packages.antt =====
-- resource/biz/base_api.go: the protobuf package of each service, from the references of the
-- schemas. Maps of sets are lists of pairs; the loops over them meet a key as often as it was
-- written, with the same result.
pub mod Settled
pub mod Cited
pub mod Backed
use kratos_core.Prelude.{
  String, Bool, true, false, ◌&&◌, not, Option, none, some, List, [], ◌∷◌, ◌++◌, if◌then◌else◌,
}
use Prim.Native.String.{◌++◌ as str_append}
use kratos_core.Prelude.Eq.{◌==◌, string_eq, contains, lookup, insert}
use kratos_core.Prelude.Text.{before, after}
use kratos_core.ApiResource.Names.{
  zero_byte, openapi_terminal, service_package_key, parse_operation_id,
  proto_package_from_schema_ref, proto_package_terminal, terminal_by_tag_description,
}

-- dto.Schema, as far as it is used here: the reference, the fields and the pointer to the items.
mutual
  pub data Schema : Type 0 where
    schema : String → Fields → Items → Schema

  pub data Fields : Type 0 where
    no_fields : Fields
    field : Schema → Fields → Fields

  pub data Items : Type 0 where
    no_items : Items
    items : Schema → Items

-- dto.Operation; the schemas of the parameters, of the body's media types and of each response's.
pub record Operation : Type 0 where
  pub tags : List String
  pub summary : String
  pub description : String
  pub operation_id : String
  pub parameters : List Schema
  pub request_body : Option (List Schema)
  pub responses : List (List Schema)

pub record PathItem : Type 0 where
  pub get : Option Operation
  pub post : Option Operation
  pub put : Option Operation
  pub delete : Option Operation

-- `pathOperations`
unfoldable pub path_operations : PathItem → List (String × Option Operation)
path_operations item =
    ("GET", item.get) ∷ ("POST", item.post) ∷ ("PUT", item.put) ∷ ("DELETE", item.delete) ∷ []

abbrev pub add : String → List String → List String
add a set = if contains set a then set else a ∷ set

-- The package that a reference adds: that of the path's terminal.
abbrev pub is_own : String → String → Bool
is_own path name = not (name == "") && proto_package_terminal name == openapi_terminal path

abbrev pub add_own : String → String → List String → List String
add_own path name set = if is_own path name then add name set else set

-- `collectSchemaProtoPackages`
unfoldable mutual
  pub collect : String → Schema → List String → List String
  collect path (schema ref fs its) set =
      collect_items path its
        (collect_fields path fs (add_own path (proto_package_from_schema_ref ref) set))

  pub collect_fields : String → Fields → List String → List String
  collect_fields path no_fields set = set
  collect_fields path (field s rest) set = collect_fields path rest (collect path s set)

  pub collect_items : String → Items → List String → List String
  collect_items path no_items set = set
  collect_items path (items s) set = collect path s set

unfoldable pub collect_all : String → List Schema → List String → List String
collect_all path [] set = set
collect_all path (s ∷ rest) set = collect_all path rest (collect path s set)

abbrev pub body_schemas : Option (List Schema) → List Schema
body_schemas none = []
body_schemas (some schemas) = schemas

abbrev pub flat : List (List Schema) → List Schema
flat [] = []
flat (l ∷ rest) = l ++ flat rest

-- `operationProtoPackages`
unfoldable pub operation_proto_packages : String → Operation → List String
unfolding collect_all
operation_proto_packages path o =
    collect_all path (o.parameters ++ (body_schemas o.request_body ++ flat o.responses)) []

-- A map of sets.
abbrev pub Sets : Type 0
Sets = List (String × List String)

abbrev pub or_empty : Option (List String) → List String
or_empty none = []
or_empty (some set) = set

abbrev pub set_of : String → Sets → List String
set_of k m = or_empty (lookup k m)

-- Both maps of sets.
pub record Evidence : Type 0 where
  pub candidates_by_service : Sets
  pub packages_by_terminal : Sets

unfoldable pub add_packages : String → String → List String → Evidence → Evidence
add_packages key terminal [] e = e
add_packages key terminal (p ∷ rest) e = add_packages key terminal rest (record {
  candidates_by_service =
      insert key (add p (set_of key e.candidates_by_service)) e.candidates_by_service;
  packages_by_terminal =
      insert terminal (add p (set_of terminal e.packages_by_terminal)) e.packages_by_terminal;
})

abbrev pub opened : String → Evidence → Evidence
opened key e = record e {
  candidates_by_service = insert key (set_of key e.candidates_by_service) e.candidates_by_service;
}

-- One operation of a path, and all of them.
abbrev pub add_keyed : String → String → Operation → Evidence → Evidence
add_keyed key path o e =
    if key == ""
    then e
    else add_packages key (openapi_terminal path) (operation_proto_packages path o) (opened key e)

abbrev pub add_operation : String → Option Operation → Evidence → Evidence
add_operation path none e = e
add_operation path (some o) e =
    add_keyed (service_package_key path (parse_operation_id o.operation_id).0) path o e

unfoldable pub add_operations : String → List (String × Option Operation) → Evidence → Evidence
unfolding add_packages
add_operations path [] e = e
add_operations path ((method, o) ∷ rest) e = add_operations path rest (add_operation path o e)

unfoldable pub add_paths : List (String × PathItem) → Evidence → Evidence
unfolding add_operations
add_paths [] e = e
add_paths ((path, item) ∷ rest) e = add_paths rest (add_operations path (path_operations item) e)

-- The one element of a set that has one.
abbrev pub single : List String → Option String
single (p ∷ []) = some p
single _ = none

abbrev pub insert_some : String → Option String → List (String × String) → List (String × String)
insert_some k none m = m
insert_some k (some p) m = insert k p m

-- The first loop: a service with one candidate.
unfoldable pub settle_candidates : Sets → Sets → List (String × String) → List (String × String)
settle_candidates [] sets m = m
settle_candidates ((k, old) ∷ rest) sets m =
    settle_candidates rest sets (insert_some k (single (set_of k sets)) m)

abbrev pub is_empty : List String → Bool
is_empty [] = true
is_empty (x ∷ rest) = false

-- The second loop: a service without one, on a terminal with one package.
abbrev pub fallback : String → Sets → Option String → Option String
fallback k terminals none = none
fallback k terminals (some tag) = single (set_of (before 0 k) terminals)

abbrev pub fallback_of : String → Sets → Sets → Option String
fallback_of k sets terminals =
    if is_empty (set_of k sets) then fallback k terminals (after 0 k) else none

unfoldable pub settle_fallbacks :
    Sets → Sets → Sets → List (String × String) → List (String × String)
settle_fallbacks [] sets terminals m = m
settle_fallbacks ((k, old) ∷ rest) sets terminals m =
    settle_fallbacks rest sets terminals (insert_some k (fallback_of k sets terminals) m)

unfoldable pub settle : Evidence → List (String × String)
unfolding settle_candidates settle_fallbacks
settle e =
    settle_fallbacks e.candidates_by_service e.candidates_by_service e.packages_by_terminal
      (settle_candidates e.candidates_by_service e.candidates_by_service [])

-- `buildServicePackageMap`
unfoldable pub build_service_package_map : List (String × PathItem) → List (String × String)
unfolding add_paths settle
build_service_package_map paths =
    settle (add_paths paths (record { candidates_by_service = []; packages_by_terminal = [] }))

pub record TagsItem : Type 0 where
  pub name : String
  pub description : String

abbrev add_tag : TagsItem → Option String → List (String × String) → List (String × String)
add_tag item none m = m
add_tag item (some p) m =
    if p == "" then m else insert (str_append p (str_append "." item.name)) item.description m

-- `buildTagsMap`, from the tags before.
unfoldable pub build_tags_map :
    List TagsItem → List (String × String) → List (String × String) → List (String × String)
build_tags_map [] packages m = m
build_tags_map (item ∷ rest) packages m =
    let terminal = terminal_by_tag_description item.description in
    let key = str_append terminal (str_append zero_byte item.name) in
    build_tags_map rest packages (add_tag item (lookup key packages) m)
