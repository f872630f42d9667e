-- ===== src/Apply.antt =====
-- internal/scd/apply: the replacement of the resources of one source in Xray. This file has report.go
-- and namespace.go's Owns; each algorithm has a module of its own.
pub mod Steps
pub mod Cap
pub mod Outbounds
pub mod Tunnels
pub mod Orphans
pub mod Slots
pub mod Plan
use scd.Prelude.{
  ℕ, suc, ◌+◌, ◌-◌, String, Bool, true, false, ◌||◌, Option, none, some, List, [], ◌∷◌, ◌++◌,
  append, has_prefix,
}
use scd.Vless.{Skip}
use scd.Xray.{Kind, outbound, inbound, routing, Error}

pub data Status : Type 0 where
  removed added replaced failed : Status

pub record Item : Type 0 where
  pub id : String
  pub status : Status
  pub message : String

-- Times are numbers of milliseconds.
pub record Report : Type 0 where
  pub kind : Kind
  pub source_id : String
  pub subscription_id : String
  pub target_address : String
  pub applied_at : ℕ
  pub duration_ms : ℕ
  pub added : ℕ
  pub replaced : ℕ
  pub removed : ℕ
  pub failed : ℕ
  pub deleted_ids : List String
  pub applied_ids : List String
  pub items : List Item
  pub skipped : List Skip

-- The readings of the clock that an apply takes: at its start, for the report of a failure, at its end,
-- and for appliedAt.
pub record Times : Type 0 where
  pub started : ℕ
  pub failed : ℕ
  pub finished : ℕ
  pub applied : ℕ

pub record Meta : Type 0 where
  pub source_id : String
  pub subscription_id : String
  pub target_address : String
  pub times : Times
  pub max_outbounds : ℕ

unfoldable pub new_report : Kind → Meta → ℕ → List Skip → Report
new_report kind m started_at skipped = record {
  kind = kind;
  source_id = m.source_id;
  subscription_id = m.subscription_id;
  target_address = m.target_address;
  applied_at = started_at;
  duration_ms = 0;
  added = 0;
  replaced = 0;
  removed = 0;
  failed = 0;
  deleted_ids = [];
  applied_ids = [];
  items = [];
  skipped = skipped;
}

abbrev pub kind_name : Kind → String
kind_name outbound = "outbound"
kind_name inbound = "inbound"
kind_name routing = "routing"

-- r.Failed = 1 and the item of the failure.
unfoldable pub fail : Report → String → String → Report
fail r id message = record r {
  failed = 1;
  items = r.items ++ record { id = id; status = failed; message = message } ∷ [];
}

unfoldable pub failed_report : Kind → Meta → List Skip → Error → Report
unfolding fail new_report
failed_report kind m skipped e =
    fail (new_report kind m m.times.failed skipped) (kind_name kind) e.message

-- The bookkeeping of one removal, and of one addition.
unfoldable pub note_removed : Report → String → Report
note_removed r tag = record r {
  removed = suc r.removed;
  deleted_ids = r.deleted_ids ++ tag ∷ [];
  items = r.items ++ record { id = tag; status = removed; message = "" } ∷ [];
}

-- countAddition, with the id and the item of the addition.
unfoldable pub note_added : Report → String → Bool → Report
note_added r tag true = record r {
  replaced = suc r.replaced;
  applied_ids = r.applied_ids ++ tag ∷ [];
  items = r.items ++ record { id = tag; status = replaced; message = "" } ∷ [];
}
note_added r tag false = record r {
  added = suc r.added;
  applied_ids = r.applied_ids ++ tag ∷ [];
  items = r.items ++ record { id = tag; status = added; message = "" } ∷ [];
}

pub record Namespace : Type 0 where
  pub obs_prefix : String
  pub source_id : String

abbrev pub Owner : Type 0
Owner = Kind → String → Bool

unfoldable pub owns : Namespace → Owner
owns n outbound tag =
    has_prefix tag (append n.obs_prefix (append n.source_id "-"))
    || has_prefix tag (append n.source_id "-")
owns n inbound tag = has_prefix tag (append "in-" (append n.source_id "-"))
owns n routing tag = has_prefix tag (append "route-" (append n.source_id "-"))
