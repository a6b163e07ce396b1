-- ===== src/Api/Defaults.antt =====
-- The methods of api/v1/kustomization_types.go and reference_types.go, which put in the defaults.
use Prim.Native.Nat.{max}
use fork_kustomize_controlle.Prelude.{
  ℕ, ◌<◌, ◌-◌, String, not, Option, none, some, List, map, ◌≡◌, arith, ◌==◌, if◌then◌else◌,
}
use fork_kustomize_controlle.Prelude.Int.{pos, ◌≤ℤ◌, ltb_ℤ, sub_int64}
use fork_kustomize_controlle.Errors.{Arg, sprintf₂, sprintf₃}
use fork_kustomize_controlle.Api.Types.{
  Kustomization, Duration, PostBuild, CrossNamespaceSourceReference, deletion_policy_mirror_prune,
  substitute_strategy_with_variables,
}

-- 30 * time.Second
abbrev pub half_minute : Duration
half_minute = pos 30000000000

abbrev given_or : Option Duration → Duration → Duration
given_or none d = d
given_or (some t) d = t

unfoldable pub get_timeout : Kustomization → Duration
get_timeout obj =
    let duration = given_or obj.spec.timeout (sub_int64 obj.spec.interval half_minute) in
    if ltb_ℤ duration half_minute then half_minute else duration

unfoldable pub get_requeue_after : Kustomization → Duration
get_requeue_after obj = obj.spec.interval

unfoldable pub get_retry_interval : Kustomization → Duration
unfolding get_requeue_after
get_retry_interval obj = given_or obj.spec.retry_interval (get_requeue_after obj)

unfoldable pub get_deletion_policy : Kustomization → String
get_deletion_policy obj =
    if obj.spec.deletion_policy == ""
    then deletion_policy_mirror_prune
    else obj.spec.deletion_policy

-- The reference without its CEL expression.
unfoldable pub get_depends_on : Kustomization → List (String × String)
get_depends_on obj = map (λ d. (d.name, d.namespace)) obj.spec.depends_on

strategy_of : Option PostBuild → String
strategy_of none = substitute_strategy_with_variables
strategy_of (some pb) =
    if pb.substitute_strategy == ""
    then substitute_strategy_with_variables
    else pb.substitute_strategy

unfoldable pub get_substitute_strategy : Kustomization → String
unfolding strategy_of
get_substitute_strategy obj = strategy_of obj.spec.post_build

-- `String` of a CrossNamespaceSourceReference
unfoldable pub source_string : CrossNamespaceSourceReference → Arg
source_string s =
    if not (s.namespace == "")
    then sprintf₃ "%s/%s/%s" s.kind s.namespace s.name
    else sprintf₂ "%s/%s" s.kind s.name

-- The timeout is never under half a minute, whatever the interval and the timeout of the spec.
pub half_minute-le-get_timeout : (obj : Kustomization) → half_minute ≤ℤ get_timeout obj
unfolding get_timeout
half_minute-le-get_timeout obj = ground arith

-- Without a timeout in the spec, and with an interval that is not negative, the timeout is the
-- interval less half a minute, and half a minute if that is less. No difference wraps around.
pub get_timeout_default :
    (obj : Kustomization) (n : ℕ)
    → obj.spec.timeout ≡ none
    → obj.spec.interval ≡ pos n
    → n < 9223372036854775808
    → get_timeout obj ≡ pos (max 30000000000 (n - 30000000000))
unfolding get_timeout
get_timeout_default obj n t i h = rw (t, i) (ground arith)
