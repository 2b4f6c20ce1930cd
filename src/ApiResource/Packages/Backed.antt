-- ===== src/ApiResource/Packages/Backed.antt =====
-- The evidence that the operations of a document give for the packages.
use kratos_core.Prelude.{
  String, ◌≡◌, refl, sym, ap, ◌∙◌, Bool, true, false, Option, none, some, List, [], ◌∷◌, In, arith,
  Bool-cases, Option-cases, inl, inr, ◌⊎◌, if◌then◌else◌,
}
use mathlib.Core.Path.{subst}
use kratos_core.Prelude.Eq.{◌==◌, ==_iff, string_eq, lookup, insert, lookup-insert}
use kratos_core.Prelude.Text.{before, after}
use kratos_core.ApiResource.Names.{openapi_terminal, service_package_key, parse_operation_id}
use kratos_core.ApiResource.Packages.{
  Operation, PathItem, path_operations, add, operation_proto_packages, Sets, set_of, or_empty,
  Evidence, add_packages, opened, add_keyed, add_operations, add_paths, build_service_package_map,
}
use kratos_core.ApiResource.Packages.Cited.{Cites, From, In-add, In-operation_proto_packages}
use kratos_core.ApiResource.Packages.Settled.{only, by_rule, settle-by_rule}

-- Every element of every set of a map.
abbrev AllIn : (String → String → Type 0) → Sets → Type 0
AllIn P m = (k p : String) → In p (set_of k m) → P k p

AllIn-insert :
    (P : String → String → Type 0) (k : String) (set : List String) (m : Sets)
    → AllIn P m
    → ((p : String) → In p set → P k p)
    → AllIn P (insert k set m)
AllIn-insert P k set m h g j p i = elim (Bool-cases (k == j)) [
  | inl t ↦
      let same : k ≡ j = ground (arith, t, ==_iff k j) in
      subst (λ x. P x p) same (g p (subst (λ (l : List String). In p l) (at_key true t) i))
  | inr f ↦ h j p (subst (λ (l : List String). In p l) (at_key false f) i)
]
  where
    at_key : (b : Bool) → (k == j) ≡ b → set_of j (insert k set m) ≡ (if b then set else set_of j m)
    at_key true t =
        ap or_empty (lookup-insert k j set m ∙ ap (λ b. if b then some set else lookup j m) t)
    at_key false f =
        ap or_empty (lookup-insert k j set m ∙ ap (λ b. if b then some set else lookup j m) f)

AllIn-add :
    (P : String → String → Type 0) (k a : String) (m : Sets)
    → AllIn P m
    → P k a
    → AllIn P (insert k (add a (set_of k m)) m)
AllIn-add P k a m h g = AllIn-insert P k (add a (set_of k m)) m h (λ p i.
    elim (In-add a p (set_of k m) i) [ inl e ↦ subst (λ x. P k x) (sym e) g | inr n ↦ h k p n ])

module _ (all : List (String × PathItem)) where
  -- The document declares the operation under the path.
  abbrev pub Declares : String → Operation → Type 0
  Declares path o =
      (item : PathItem) × (method : String) × In (path, item) all
      × In (method, some o) (path_operations item)

  -- A package is backed for a service by a reference in an operation of the document with the
  -- service's key, and for a terminal by one under a path of the terminal.
  abbrev pub BacksService : String → String → Type 0
  BacksService k p =
      (path : String) × (o : Operation) × Declares path o
      × (k ≡ service_package_key path (parse_operation_id o.operation_id).0)
      × From path p (Cites o)

  abbrev pub BacksTerminal : String → String → Type 0
  BacksTerminal t p =
      (path : String) × (o : Operation) × Declares path o
      × (t ≡ openapi_terminal path)
      × From path p (Cites o)

  abbrev Backed : Evidence → Type 0
  Backed e = AllIn BacksService e.candidates_by_service × AllIn BacksTerminal e.packages_by_terminal

  -- The key of an operation, as the code computes it.
  abbrev key_of : String → Operation → String
  key_of path o = service_package_key path (parse_operation_id o.operation_id).0

  add_packages-Backed :
      (path : String) (o : Operation) (packages : List String) (e : Evidence)
      → Declares path o
      → ((p : String) → In p packages → From path p (Cites o))
      → Backed e
      → Backed (add_packages (key_of path o) (openapi_terminal path) packages e)
  unfolding add_packages
  add_packages-Backed path o [] e d own h = h
  add_packages-Backed path o (p ∷ rest) e d own (h, g) =
      add_packages-Backed path o rest _ d (λ q m. own q (inr m))
        (
          AllIn-add BacksService (key_of path o) p e.candidates_by_service h
              (path, o, d, refl, own p (inl refl)),
          AllIn-add BacksTerminal (openapi_terminal path) p e.packages_by_terminal g
              (path, o, d, refl, own p (inl refl)),
        )

  add_keyed-Backed :
      (path : String) (o : Operation) (e : Evidence)
      → Declares path o
      → Backed e
      → Backed (add_keyed (key_of path o) path o e)
  add_keyed-Backed path o e d (h, g) = elim (Bool-cases (key_of path o == "")) [
    | inl t ↦ rw t (h, g)
    | inr f ↦ rw f (
        add_packages-Backed path o (operation_proto_packages path o) (opened (key_of path o) e) d
          (λ p m. In-operation_proto_packages path p o m)
          (
            AllIn-insert BacksService (key_of path o)
                (set_of (key_of path o) e.candidates_by_service) e.candidates_by_service h
                (λ p i. h _ p i),
            g,
          ))
  ]

  add_operations-Backed :
      (path : String) (item : PathItem) (l : List (String × Option Operation)) (e : Evidence)
      → In (path, item) all
      → ((x : String × Option Operation) → In x l → In x (path_operations item))
      → Backed e
      → Backed (add_operations path l e)
  unfolding add_operations
  add_operations-Backed path item [] e i sub h = h
  add_operations-Backed path item ((method, none) ∷ rest) e i sub h =
      add_operations-Backed path item rest e i (λ x m. sub x (inr m)) h
  add_operations-Backed path item ((method, some o) ∷ rest) e i sub h =
      add_operations-Backed path item rest _ i (λ x m. sub x (inr m))
        (add_keyed-Backed path o e (item, method, i, sub (method, some o) (inl refl)) h)

  add_paths-Backed :
      (l : List (String × PathItem)) (e : Evidence)
      → ((x : String × PathItem) → In x l → In x all)
      → Backed e
      → Backed (add_paths l e)
  unfolding add_paths
  add_paths-Backed [] e sub h = h
  add_paths-Backed ((path, item) ∷ rest) e sub h =
      add_paths-Backed rest _ (λ x m. sub x (inr m))
        (add_operations-Backed path item (path_operations item) e (sub (path, item) (inl refl))
          (λ x m. m) h)

only-In : (set : List String) (p : String) → only set ≡ some p → In p set
only-In [] p h = ground (arith, h)
only-In (q ∷ []) p h = inl (ground (arith, h))
only-In (q ∷ r ∷ rest) p h = ground (arith, h)

-- What stands behind the package of a service.
abbrev pub HasEvidence : List (String × PathItem) → String → String → Type 0
HasEvidence all k p = BacksService all k p ⊎ BacksTerminal all (before 0 k) p

by_rule-HasEvidence :
    (all : List (String × PathItem)) (e : Evidence) (k p : String) (o : Option (List String))
    → Backed all e
    → lookup k e.candidates_by_service ≡ o
    → by_rule k e.packages_by_terminal o ≡ some p
    → HasEvidence all k p
by_rule-HasEvidence all e k p none b l h = ground (arith, h)
by_rule-HasEvidence all e k p (some (q ∷ r ∷ rest)) b l h = ground (arith, h)
by_rule-HasEvidence all e k p (some (q ∷ [])) (c, t) l h =
    inl
      (c k p (subst (λ (x : List String). In p x) (sym (ap or_empty l)) (inl (ground (arith, h)))))
by_rule-HasEvidence all e k p (some []) (c, t) l h = elim (Option-cases (after 0 k)) [
  | inl n ↦ ground (arith, h, n)
  | inr (tag, n) ↦ inr (t (before 0 k) p (only-In _ p (rw n at h)))
]

-- The package that a service gets is named by a reference in an operation of the document: in one
-- with the service's own key, or, for the rule of the terminal, in one whose path has the terminal
-- of the key. In both cases it is a package of that path's terminal.
pub build_service_package_map-HasEvidence :
    (paths : List (String × PathItem)) (k p : String)
    → lookup k (build_service_package_map paths) ≡ some p
    → HasEvidence paths k p
unfolding build_service_package_map lookup
build_service_package_map-HasEvidence paths k p h =
    let e = add_paths paths (record { candidates_by_service = []; packages_by_terminal = [] }) in
    by_rule-HasEvidence paths e k p _
      (add_paths-Backed paths paths _ (λ x m. m) ((λ k p i. elim i [ ]), (λ k p i. elim i [ ])))
      refl (sym (settle-by_rule e k) ∙ h)
