-- ===== src/Outbound.antt =====
-- internal/scd/outbound: ForTarget, and what the other modules use of the rest. An outbound is built
-- for and by a library of Xray, so these operations are a parameter.
use scd.Prelude.{ℕ, String, Bool, ◌&&◌, Option, ◌≡◌, ◌==◌, string_eq, if◌then◌else◌}
use scd.Country
use scd.Xray.{Result, Handler}

-- outbound.Spec
pub record Spec : Type 0 where
  pub tag : String
  pub json : String

-- normalize.Normalized: what names the outbound, and the rest as text.
pub record Normalized : Type 0 where
  pub kind : String
  pub profile : String
  pub tag : String
  pub line : ℕ
  pub raw : String
  pub label : String
  pub country : Option Country.Info
  pub city : String
  pub security : String
  pub flow : String
  pub rest : String

abbrev flow_vision : String
flow_vision = "xtls-rprx-vision"

abbrev flow_vision_udp443 : String
flow_vision_udp443 = "xtls-rprx-vision-udp443"

unfoldable pub for_target : Normalized → String → Bool → Normalized
for_target n tag override =
    if override && (n.security == "reality" && n.flow == flow_vision)
    then record n { tag = tag; flow = flow_vision_udp443 }
    else record n { tag = tag }

-- Build, Spec.WithTag and ToProto.
pub record Builder : Type 0 where
  pub build : Normalized → Spec
  pub with_tag : Spec → String → Spec
  pub to_proto : Spec → Result Handler

-- Build keeps the tag, and WithTag sets it.
pub record Tagging (b : Builder) : Type 0 where
  pub build_tag : (n : Normalized) → (b.build n).tag ≡ n.tag
  pub with_tag_tag : (s : Spec) (tag : String) → (b.with_tag s tag).tag ≡ tag
