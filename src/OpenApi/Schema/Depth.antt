-- ===== src/OpenApi/Schema/Depth.antt =====
-- The tree that `buildOpenAPISchema` builds from any schema, recursive ones included.
use kratos_core.Prelude.{
  ℕ, zero, suc, String, ◌≡◌, refl, sym, Bool, false, Option, List, [], ◌∷◌, arith, Bool-cases, inl,
  inr,
}
use Prim.Native.String.{◌++◌ as str_append}
use text.Mathlib.TextLemmas.{nil-append, append-nil}
use kratos_core.Prelude.Eq.{◌==◌, ==_iff, string_eq, contains}
use kratos_core.Prelude.Sort.{sort_by}
use kratos_core.OpenApi.Schema.{
  Schema, schema, Fields, no_fields, field, Items, no_items, items, Node, node, Nodes, leaf, child,
  Components, dereference, field_list, by_name, field_path, Build, field_nodes, child_nodes,
  node_of, build_schema,
}

abbrev pub Extends : String → String → Type 0
Extends path long = (rest : String) × (long ≡ str_append path rest)

-- A tree of at most so many levels below its root, each node of it at the same place and with a
-- path that extends its parent's.
abbrev mutual
  pub Fits : ℕ → String → String → Node → Type 0
  Fits n place above (node name path at kind format required description ref enum children) =
      (at ≡ place) × Extends above path × FitAll n place path children

  pub FitAll : ℕ → String → String → Nodes → Type 0
  FitAll n place above leaf = Unit
  FitAll zero place above (child c rest) = ⊥
  FitAll (suc n) place above (child c rest) = Fits n place above c × FitAll (suc n) place above rest

abbrev BuildFits : ℕ → String → Build → Type 0
BuildFits n place build =
    (name path above : String) (required : Bool) (s : Schema)
    → Extends above path
    → Fits n place above (build name path required s)

field_path-Extends : (path name : String) → Extends path (field_path path name)
field_path-Extends path name = elim (Bool-cases (path == "")) [
  | inl e ↦
      let same : path ≡ "" = ground (arith, e, ==_iff path "") in
      (name, rw same (sym (nil-append name)))
  | inr e ↦ (str_append "." name, rw e refl)
]

field_nodes-Fits :
    (n : ℕ) (place : String) (build : Build) (path : String) (required : List String)
    (l : List (String × Schema))
    → BuildFits n place build
    → FitAll (suc n) place path (field_nodes build path required l)
field_nodes-Fits n place build path required [] h = tt
field_nodes-Fits n place build path required ((name, s) ∷ rest) h = (
  h name (field_path path name) path (contains required name) s (field_path-Extends path name),
  field_nodes-Fits n place build path required rest h,
)

child_nodes-Fits :
    (n : ℕ) (place : String) (build : Build) (name path : String) (required : List String)
    (fs : Fields) (its : Items)
    → BuildFits n place build
    → FitAll (suc n) place path (child_nodes build name path required fs its)
child_nodes-Fits n place build name path required no_fields no_items h = tt
child_nodes-Fits n place build name path required no_fields (items s) h =
    (h (str_append name "[]") (str_append path "[]") path false s ("[]", refl), tt)
child_nodes-Fits n place build name path required (field f s rest) its h =
    field_nodes-Fits n place build path required (sort_by by_name (field_list (field f s rest))) h

node_of-Fits :
    (n : ℕ) (children : List String → Fields → Items → Nodes) (name path place above : String)
    (required : Bool) (s : Schema × String)
    → Extends above path
    → ((needs : List String) (fs : Fields) (its : Items)
        → FitAll n place path (children needs fs its))
    → Fits n place above (node_of children name path place required s)
node_of-Fits n children name path place above required
      (schema ref kind format description enum needs fs its, ref_name) e h =
    (refl, e, h needs fs its)

build_schema-BuildFits :
    (levels : ℕ) (document : Option Components) (place : String)
    → BuildFits levels place (λ n p r t. build_schema levels document n p place r t)
unfolding build_schema
build_schema-BuildFits zero document place name path above required s e =
    node_of-Fits zero (λ needs fs its. leaf) name path place above required (dereference document s)
      e (λ needs fs its. tt)
build_schema-BuildFits (suc levels) document place name path above required s e =
    node_of-Fits (suc levels) _ name path place above required (dereference document s) e
      (λ needs fs its.
        child_nodes-Fits levels place _ name path needs fs its
          (build_schema-BuildFits levels document place))

-- From any schema, also one that refers to itself, the expansion ends in a tree of at most
-- `levels` levels below its root; every node has the place that was asked for, and a path that
-- extends its parent's.
pub build_schema-Fits :
    (levels : ℕ) (document : Option Components) (name path place : String) (required : Bool)
    (s : Schema)
    → Fits levels place path (build_schema levels document name path place required s)
build_schema-Fits levels document name path place required s =
    build_schema-BuildFits levels document place name path path required s
      ("", sym (append-nil path))
