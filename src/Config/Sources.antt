-- ===== src/Config/Sources.antt =====
-- internal/scd/config/rules.go: checkSources and checkTargetSources, the rules on the ids, the ports
-- and the namespaces of the sources.
pub mod Spaces
pub mod Apart
use Prim.Native.String
use Prim.Native.Char.{Char, code}
use scd.Prelude.{
  ℕ, suc, zero, ◌-◌, String, Bool, true, false, not, ◌&&◌, ◌||◌, Option, none, some, List, [], ◌∷◌,
  ◌++◌, ◌==◌, string_eq, nat_eq, append, has_prefix, leb, ltb, if◌then◌else◌, any,
}
use scd.Config.{PortRange, Source, Target, Subscription, Resources, candidate_type}
use scd.Config.Issues.{
  Issue, Key, Place, issue, when, key, source_key, subscription, invalid_source_id, duplicate_id,
  overlapping_ids, overlapping_range, ends_before_start, too_few_ports, required_for_sockets,
  unsupported_type, overlaps_prefix, in_namespace,
}

-- The expression [a-z0-9]([a-z0-9-]{0,14}[a-z0-9])?
unfoldable pub id_char : ℕ → Bool
id_char c = leb b'a' c && leb c b'z' || leb b'0' c && leb c b'9'

-- What may follow a first character: at most `left` characters, the last of them no dash.
unfoldable pub id_rest : ℕ → ℕ → String → Bool
unfolding id_char
id_rest left before String.[] = id_char before
id_rest zero before (String.◌∷◌ c s) = false
id_rest (suc left) before (String.◌∷◌ c s) =
    (id_char (code c) || code c == b'-') && id_rest left (code c) s

unfoldable pub valid_source_id : String → Bool
unfolding id_rest
valid_source_id String.[] = false
valid_source_id (String.◌∷◌ c s) = id_char (code c) && id_rest 15 (code c) s

abbrev pub prefix_of : Source → String
prefix_of src = append src.id "-"

unfoldable pub ranges_meet : Option PortRange → Option PortRange → Bool
ranges_meet (some pr) (some op) = leb pr.start op.last && leb op.start pr.last
ranges_meet _ _ = false

-- The body of the loop over the sources before this one: the switch on the ids, and the ports.
unfoldable pub clashes : Place → ℕ → Source → Source → List Issue
unfolding ranges_meet
clashes n j src other =
    (if not (src.id == "") && src.id == other.id
      then issue n (source_key j "id") (duplicate_id src.id) ∷ []
      else when
          (not (src.id == "")
            && (not (other.id == "")
                && (has_prefix src.id (prefix_of other) || has_prefix other.id (prefix_of src))))
          (issue n (source_key j "id") (overlapping_ids src.id other.id)))
    ++ when (ranges_meet src.port_range other.port_range)
        (issue n (source_key j "portRange") (overlapping_range other.id))

unfoldable pub clashes_all : Place → ℕ → Source → List Source → List Issue
clashes_all n j src [] = []
clashes_all n j src (other ∷ rest) = clashes n j src other ++ clashes_all n j src rest

unfoldable pub id_issues : Place → ℕ → Source → List Source → List Issue
id_issues n j src before =
    if not (src.id == "") && not (valid_source_id src.id)
    then issue n (source_key j "id") invalid_source_id ∷ []
    else clashes_all n j src before

-- The loop over the sources of a subscription; those before the j-th are at hand.
unfoldable pub ids_issues : Place → ℕ → List Source → List Source → List Issue
ids_issues n j before [] = []
ids_issues n j before (src ∷ rest) =
    id_issues n j src before ++ ids_issues n (suc j) (before ++ src ∷ []) rest

-- pr.End-pr.Start+1 is compared where the range does not end before it starts.
unfoldable pub range_issues : Place → ℕ → Source → Option PortRange → Bool → List Issue
range_issues n j src (some pr) need =
    if ltb 0 pr.start && (ltb 0 pr.last && ltb pr.last pr.start)
    then issue n (source_key j "portRange.end") ends_before_start ∷ []
    else when
        (ltb 0 src.max_active && (ltb 0 pr.start && ltb (suc pr.last - pr.start) src.max_active))
        (issue n (source_key j "portRange") (too_few_ports (suc pr.last - pr.start) src.max_active))
range_issues n j src none need = when need (issue n (source_key j "portRange") required_for_sockets)

-- One row of the table of fixed tags: each tag is reported once.
unfoldable pub fixed_issues : Place → Source → String → (String → Bool) → List String → List Issue
fixed_issues n src name inside [] = []
fixed_issues n src name inside (tag ∷ tags) =
    when (inside tag) (issue n (key name) (in_namespace tag src.id))
    ++ fixed_issues n src name inside tags

-- The table of fixed tags, for an enabled source.
unfoldable pub fixed_part : Place → Source → Target → List Issue
unfolding fixed_issues
fixed_part n src t =
    let p = prefix_of src in
    fixed_issues n src "target.fixedOutbounds"
      (λ tag. has_prefix tag (append t.observatory_prefix p) || has_prefix tag p) t.fixed_outbounds
    ++ (fixed_issues n src "target.fixedInbounds" (λ tag. has_prefix tag (append "in-" p))
          t.fixed_inbounds
        ++ fixed_issues n src "target.fixedRouting" (λ tag. has_prefix tag (append "route-" p))
            t.fixed_routing)

unfoldable pub namespace_issues : Place → ℕ → Source → Target → List Issue
unfolding fixed_part
namespace_issues n j src t =
    let obs = t.observatory_prefix in
    let p = prefix_of src in
    when (not (obs == "") && (has_prefix obs p || has_prefix p obs))
      (issue n (source_key j "id") (overlaps_prefix p obs))
    ++ (if not src.enabled then [] else fixed_part n src t)

unfoldable pub target_source_issues : Place → ℕ → Source → Target → Resources → List Issue
unfolding range_issues candidate_type
target_source_issues n j src t res =
    range_issues n j src src.port_range (res.inbounds || res.routing)
    ++ (when (candidate_type src.type_name && (not res.inbounds || not res.routing))
          (issue n (source_key j "type") (unsupported_type src.type_name))
        ++ (if not (valid_source_id src.id) then [] else namespace_issues n j src t))

-- checkTargetSources
unfoldable pub check_target_sources : Place → ℕ → List Source → Target → Resources → List Issue
check_target_sources n j [] t res = []
check_target_sources n j (src ∷ rest) t res =
    target_source_issues n j src t res ++ check_target_sources n (suc j) rest t res

-- The body of the loop of checkSources.
unfoldable pub subscription_issues : ℕ → Subscription → Resources → List Issue
subscription_issues i sub res =
    ids_issues (subscription i) 0 [] sub.sources
    ++ check_target_sources (subscription i) 0 sub.sources sub.target res

unfoldable pub check_sources : ℕ → List Subscription → Resources → List Issue
check_sources i [] res = []
check_sources i (sub ∷ subs) res = subscription_issues i sub res ++ check_sources (suc i) subs res
