-- ===== src/Objects.antt =====
-- What the controller takes from the libraries of objects and change sets: `object.ObjMetadata` of
-- cli-utils, `unstructured.Unstructured` of apimachinery, and `ssa.ChangeSet` of fluxcd/pkg/ssa.
-- Their functions are the fields of `ObjectApi`, and what is relied on is in `ObjectLaws`.
use fork_kustomize_controlle.Prelude.{
  String, Bool, true, false, ◌&&◌, not, List, [], ◌≡◌, ◌↔◌, arith, Eq, ◌==◌, eq_iff, contains, any,
}
use fork_kustomize_controlle.Errors.{Result, ok}
use fork_kustomize_controlle.Api.{Labels}

pub record ObjMetadata : Type 0 where
  pub namespace : String
  pub name : String
  pub group : String
  pub kind : String

-- Equality of the Go structs, field by field.
abbrev pub same_metadata : ObjMetadata → ObjMetadata → Bool
same_metadata a b =
    a.namespace == b.namespace && (a.name == b.name && (a.group == b.group && a.kind == b.kind))

pub same_metadata_iff : (a b : ObjMetadata) → (same_metadata a b ≡ true) ↔ (a ≡ b)
same_metadata_iff a b = ground (
  arith,
  eq_iff a.namespace b.namespace,
  eq_iff a.name b.name,
  eq_iff a.group b.group,
  eq_iff a.kind b.kind,
)

instance abbrev pub metadata_eq : Eq ObjMetadata
metadata_eq = record { beq = same_metadata; beq_iff = same_metadata_iff }

-- `has_sops` says that the object has a field named "sops" at its root.
pub record Unstructured : Type 0 where
  pub group : String
  pub version : String
  pub kind : String
  pub name : String
  pub namespace : String
  pub annotations : Labels
  pub labels : Labels
  pub has_sops : Bool

-- `ssa.Action`
pub data Action : Type 0 where
  created configured unchanged deleted skipped unknown : Action

-- `ssa.ChangeSetEntry`; its `group_version` is the field that the inventory keeps.
pub record ChangeSetEntry : Type 0 where
  pub metadata : ObjMetadata
  pub group_version : String
  pub action : Action

-- An `Unstructured` with the group, version, kind, name and namespace set, and no more.
abbrev pub bare_object : String → String → String → String → String → Unstructured
bare_object group version kind name namespace = record {
  group = group;
  version = version;
  kind = kind;
  name = name;
  namespace = namespace;
  annotations = [];
  labels = [];
  has_sops = false;
}

pub record ObjectApi : Type 0 where
  -- object.ObjMetadata.String, object.ParseObjMetadata
  pub to_string : ObjMetadata → String
  pub parse : String → Result ObjMetadata
  -- object.UnstructuredToObjMetadata
  pub metadata_of : Unstructured → ObjMetadata
  -- object.ObjMetadataSet.Diff
  pub set_diff : List ObjMetadata → List ObjMetadata → List ObjMetadata
  -- sort.Sort of ssa.SortableUnstructureds
  pub sort : List Unstructured → List Unstructured
  -- schema.ParseGroupVersion: the group and the version
  pub parse_group_version : String → Result (String × String)
  -- unstructured.Unstructured.GetAPIVersion
  pub api_version : Unstructured → String

pub record ObjectLaws (api : ObjectApi) : Type 0 where
  -- what was parsed is printed to an id that is parsed to the same
  pub parse-to_string :
      (s : String) (m : ObjMetadata) → api.parse s ≡ ok m → api.parse (api.to_string m) ≡ ok m
  -- the metadata of an object are its namespace, name, group and kind
  pub metadata_of_lem :
      (u : Unstructured)
      → api.metadata_of u
        ≡ record { namespace = u.namespace; name = u.name; group = u.group; kind = u.kind }
  -- the difference has the members of the first set that the second one lacks
  pub contains-set_diff :
      (m : ObjMetadata) (xs ys : List ObjMetadata)
      → contains m (api.set_diff xs ys) ≡ (contains m xs && not (contains m ys))
  -- sorting keeps the objects
  pub any-sort : (p : Unstructured → Bool) (us : List Unstructured) → any p (api.sort us) ≡ any p us
