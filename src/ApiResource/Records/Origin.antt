-- ===== src/ApiResource/Records/Origin.antt =====
-- Where the records of a document come from.
use kratos_core.Prelude.{
  String, ◌≡◌, refl, sym, ap, ◌∙◌, ◌||◌, Option, none, some, List, [], ◌∷◌, In, In-append, arith,
  Bool-cases, inl, inr, ◌⊎◌,
}
use mathlib.Core.Path.{subst}
use kratos_core.Prelude.Eq.{◌==◌, string_eq, lookup}
use kratos_core.Prelude.Error.{ok}
use kratos_core.Prelude.Sort.{In-sort_by}
use kratos_core.ApiResource.Names.{service_package_key, parse_operation_id}
use kratos_core.ApiResource.Packages.{
  Operation, PathItem, path_operations, build_service_package_map, build_tags_map,
}
use kratos_core.ApiResource.Packages.Backed.{HasEvidence, build_service_package_map-HasEvidence}
use kratos_core.ApiResource.Records.{
  ApiRecord, OpenApi, Outside, full_service, rpc_operation, record_of, with_package, with_names,
  parse_operation, cons_some, item_records, path_records, by_operation, api_records, parsed_records,
  openapi_data_to_base_api,
}

module _ (o : Outside) where
  -- The operation of the document that a record describes, and the package of its service.
  pub record Origin (paths : List (String × PathItem)) (packages : List (String × String))
      (r : ApiRecord) : Type 0 where
    pub item : PathItem
    pub op : Operation
    pub tag : String
    pub method_name : String
    pub package_name : String
    pub on_path : In (r.path, item) paths
    pub by_method : In (r.method, some op) (path_operations item)
    pub named : parse_operation_id op.operation_id ≡ (tag, method_name)
    pub packed : lookup (service_package_key r.path tag) packages ≡ some package_name
    pub service : r.service_name ≡ full_service package_name tag
    pub operation : r.operation ≡ rpc_operation (full_service package_name tag) method_name

  -- What a parsed operation says of its record.
  abbrev Parsed : String → String → Option Operation → List (String × String) → ApiRecord → Type 0
  Parsed path method none packages r = ⊥
  Parsed path method (some op) packages r =
      (tag : String) × (method_name : String) × (package_name : String) × (parse_operation_id
          op.operation_id
        ≡ (tag, method_name))
      × (lookup (service_package_key path tag) packages ≡ some package_name)
      × (r.path ≡ path)
      × (r.method ≡ method)
      × (r.service_name ≡ full_service package_name tag)
      × (r.operation ≡ rpc_operation (full_service package_name tag) method_name)

  with_package-some :
      (path method : String) (op : Operation) (tags packages : List (String × String))
      (tag method_name : String) (found : Option String) (r : ApiRecord)
      → parse_operation_id op.operation_id ≡ (tag, method_name)
      → lookup (service_package_key path tag) packages ≡ found
      → with_package o path method op tags (tag, method_name) found ≡ some r
      → Parsed path method (some op) packages r
  unfolding record_of
  with_package-some path method op tags packages tag method_name none r n l h = ground (arith, h)
  with_package-some path method op tags packages tag method_name (some p) r n l h =
      elim (Bool-cases (p == "")) [
        | inl t ↦ ground (arith, h, t)
        | inr f ↦
            let same : record_of o path method op tags p tag method_name ≡ r =
              ground (arith, h, f) in
            (
              tag,
              method_name,
              p,
              n,
              l,
              sym (ap (λ x. x.path) same),
              sym (ap (λ x. x.method) same),
              sym (ap (λ x. x.service_name) same),
              sym (ap (λ x. x.operation) same),
            )
      ]

  with_names-some :
      (path method : String) (op : Operation) (tags packages : List (String × String))
      (names : String × String) (r : ApiRecord)
      → parse_operation_id op.operation_id ≡ names
      → with_names o path method op tags packages names ≡ some r
      → Parsed path method (some op) packages r
  with_names-some path method op tags packages (tag, method_name) r n h =
      elim (Bool-cases (tag == "" || method_name == "")) [
        | inl t ↦ ground (arith, h, t)
        | inr f ↦
            with_package-some path method op tags packages tag method_name _ r n refl (rw f at h)
      ]

  parse_operation-some :
      (path method : String) (op : Option Operation) (tags packages : List (String × String))
      (r : ApiRecord)
      → parse_operation o path method op tags packages ≡ some r
      → Parsed path method op packages r
  unfolding parse_operation
  parse_operation-some path method none tags packages r h = ground (arith, h)
  parse_operation-some path method (some op) tags packages r h =
      with_names-some path method op tags packages _ r refl h

  In-cons_some :
      (x : Option ApiRecord) (l : List ApiRecord) (r : ApiRecord)
      → In r (cons_some o x l)
      → (x ≡ some r) ⊎ In r l
  In-cons_some none l r h = inr h
  In-cons_some (some q) l r (inl e) = inl (ap some (sym e))
  In-cons_some (some q) l r (inr h) = inr h

  In-item_records :
      (path : String) (l : List (String × Option Operation))
      (tags packages : List (String × String)) (r : ApiRecord)
      → In r (item_records o path l tags packages)
      → (method : String) × (op : Option Operation) × In (method, op) l
        × Parsed path method op packages r
  unfolding item_records
  In-item_records path [] tags packages r h = elim h [ ]
  In-item_records path ((method, op) ∷ rest) tags packages r h =
      elim (In-cons_some (parse_operation o path method op tags packages) _ r h) [
        | inl e ↦ (method, op, inl refl, parse_operation-some path method op tags packages r e)
        | inr m ↦ let (k, q, i, p) = In-item_records path rest tags packages r m in (k, q, inr i, p)
      ]

  Parsed-Origin :
      (paths : List (String × PathItem)) (packages : List (String × String)) (path method : String)
      (item : PathItem) (op : Option Operation) (r : ApiRecord)
      → In (path, item) paths
      → In (method, op) (path_operations item)
      → Parsed path method op packages r
      → Origin paths packages r
  Parsed-Origin paths packages path method item none r i j p = elim p [ ]
  Parsed-Origin paths packages path method item (some op) r i j
        (tag, method_name, package_name, n, l, a, b, c, d) =
      record {
        item = item;
        op = op;
        tag = tag;
        method_name = method_name;
        package_name = package_name;
        on_path = subst (λ x. In (x, item) paths) (sym a) i;
        by_method = subst (λ x. In (x, some op) (path_operations item)) (sym b) j;
        named = n;
        packed = ap (λ x. lookup (service_package_key x tag) packages) a ∙ l;
        service = c;
        operation = d;
      }

  In-path_records :
      (paths : List (String × PathItem)) (tags packages : List (String × String)) (r : ApiRecord)
      → In r (path_records o paths tags packages)
      → (path : String) × (item : PathItem) × (method : String) × (op : Option Operation) × In
          (path, item)
          paths
        × In (method, op) (path_operations item)
        × Parsed path method op packages r
  unfolding path_records
  In-path_records [] tags packages r h = elim h [ ]
  In-path_records ((path, item) ∷ rest) tags packages r h =
      elim (In-append r (item_records o path (path_operations item) tags packages)
        (path_records o rest tags packages) h) [
          | inl m ↦
              let (method, op, i, p) =
                In-item_records path (path_operations item) tags packages r m in
              (path, item, method, op, inl refl, i, p)
          | inr m ↦
              let (path', item', method, op, i, j, p) = In-path_records rest tags packages r m in
              (path', item', method, op, inr i, j, p)
        ]

  -- Each record of a document describes an operation that the document declares under the record's
  -- path and method. Its service and its RPC operation are made of the names in the operation's
  -- identifier and of a package that a schema reference in the document names: a reference in an
  -- operation with the key of the record's service, or else in one under a path of the same
  -- terminal. The package is of the terminal of that path.
  pub openapi_data_to_base_api-Origin :
      (content : String) (api : OpenApi) (records : List ApiRecord) (r : ApiRecord)
      → o.unmarshal content ≡ ok api
      → openapi_data_to_base_api o content ≡ ok records
      → In r records
      → (origin : Origin api.paths (build_service_package_map api.paths) r) × HasEvidence api.paths
          (service_package_key r.path origin.tag)
          origin.package_name
  unfolding openapi_data_to_base_api
  openapi_data_to_base_api-Origin content api records r u h i =
      let packages = build_service_package_map api.paths in
      let tags = build_tags_map api.tags packages [] in
      let same : api_records o api ≡ records = ground (arith, h, ap (parsed_records o) u) in
      let m =
        In-sort_by (by_operation o) r (path_records o api.paths tags packages)
          (subst (λ (l : List ApiRecord). In r l) (sym same) i) in
      let (path, item, method, op, a, b, p) = In-path_records api.paths tags packages r m in
      let origin = Parsed-Origin api.paths packages path method item op r a b p in
      (
        origin,
        build_service_package_map-HasEvidence api.paths (service_package_key r.path origin.tag)
            origin.package_name origin.packed,
      )
