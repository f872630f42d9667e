-- ===== src/Tests/Applying.antt =====
-- The replacement of a source's resources (internal/scd/apply) at concrete inputs.
use scd.Prelude.{
  Distinct, inl, ◌==◌, ℕ, ◌≤◌, ◌≡◌, refl, inr, String, Bool, true, false, not, List, [], ◌∷◌, ◌++◌,
  map, arith, string_eq, contains, select, All,
}
use scd.Xray.{World, Result, ok, Handler, outbound}
use scd.Apply.{Meta, Namespace, Report, owns}
use scd.Apply.Outbounds.Restores.{outbounds-restores}
use scd.Apply.Cap.{capped_add, count_owned, counts}
use scd.Apply.Cap.Limit.{Faithful, capped_add-Within}
use scd.Outbound.{Spec}
use scd.Apply.Outbounds.{outbounds}
use scd.Apply.Outbounds.Calls.{harmless, outbounds-Harmless}
use scd.Apply.Outbounds.Counts.{Counted, outbounds-Counted}
use scd.Apply.Outbounds.Plain.{plain, ours}
use scd.Apply.Outbounds.Replaces.{outbounds-replaces}

abbrev pub handler : String → Handler
handler tag = record { tag = tag; config = "c" }

abbrev pub spec : String → Spec
spec tag = record { tag = tag; json = "c" }

abbrev pub made : Spec → Handler
made e = record { tag = e.tag; config = e.json }

abbrev pub builds : Spec → Result Handler
builds e = ok (made e)

abbrev pub source : Namespace
source = record { obs_prefix = "obs-"; source_id = "de" }

abbrev pub meta : Meta
meta = record {
  source_id = "de";
  subscription_id = "sub";
  target_address = "127.0.0.1:10085";
  times = record { started = 1000; failed = 1002; finished = 1040; applied = 1041 };
  max_outbounds = 0;
}

-- A foreign outbound, a fixed one and two of the source.
abbrev pub listed : List Handler
listed = handler "direct" ∷ handler "de-fixed" ∷ handler "de-1" ∷ handler "obs-de-2" ∷ []

abbrev pub xray : World (List Handler)
xray = record { server = listed; calls = [] }

abbrev pub fixed_tags : List String
fixed_tags = "de-fixed" ∷ []

abbrev pub none_bad : Handler → Bool
none_bad h = false

abbrev pub new_entries : List Spec
new_entries = spec "obs-de-1" ∷ spec "obs-de-3" ∷ []

plain-Faithful : Faithful (plain none_bad) (λ hs. hs)
plain-Faithful = record {
  list_keeps = λ s. refl;
  list_true = λ s hs p. cc;
  add_appends = λ h s. inr refl;
}

one_free_slot :
    All (λ (s : Namespace × ℕ). count_owned fixed_tags (owns s.0) listed ≤ s.1) ((source, 3) ∷ [])
unfolding select counts contains owns
one_free_slot = (omega arith, tt)

capped_add-Within_example :
    All
      (λ (s : Namespace × ℕ).
        count_owned fixed_tags
          (owns s.0)
          (capped_add
            (plain none_bad)
            fixed_tags
            ((source, 3) ∷ [])
            (handler "obs-de-3")
            xray).1.server
        ≤ s.1)
      ((source, 3) ∷ [])
capped_add-Within_example =
    capped_add-Within (plain none_bad) (λ hs. hs) plain-Faithful fixed_tags ((source, 3) ∷ [])
      (handler "obs-de-3") xray one_free_slot

outbounds-Harmless_example :
    All
      (λ c. harmless fixed_tags (owns source) new_entries c ≡ true)
      (outbounds (plain none_bad) builds fixed_tags (owns source) new_entries meta xray).1.calls
outbounds-Harmless_example =
    outbounds-Harmless (plain none_bad) builds fixed_tags (owns source) new_entries meta xray tt

new_entries_free : All (λ e. contains fixed_tags e.tag ≡ false) new_entries
unfolding contains
new_entries_free = (refl, (refl, tt))

outbounds-replaces_example :
    (r : Report) × (((outbounds
          (plain none_bad)
          builds
          fixed_tags
          (owns source)
          new_entries
          meta
          xray).0
        ≡ ok r)
      × (r.failed ≡ 0)
      × ((outbounds (plain none_bad) builds fixed_tags (owns source) new_entries meta xray).1.server
          ≡ select (λ h. not (ours fixed_tags (owns source) h)) listed ++ map made new_entries))
outbounds-replaces_example =
    outbounds-replaces none_bad builds made fixed_tags (owns source) new_entries meta xray
      new_entries_free ((refl, refl), ((refl, refl), tt))

outbounds-Counted_example :
    Counted outbounds-replaces_example.0
    × (outbounds-replaces_example.0.failed ≡ 0
        → outbounds-replaces_example.0.applied_ids ≡ map (λ e. e.tag) new_entries)
outbounds-Counted_example =
    outbounds-Counted (plain none_bad) builds fixed_tags (owns source) new_entries meta xray
      outbounds-replaces_example.0 outbounds-replaces_example.1.0

-- A server that refuses the second new entry.
abbrev third_bad : Handler → Bool
third_bad h = h.tag == "obs-de-3"

front_owned : owns source outbound "obs-de-1" ≡ true
unfolding owns
front_owned = refl

listed-Distinct : Distinct (map (λ h. h.tag) listed)
unfolding contains
listed-Distinct = (refl, (refl, (refl, (refl, tt))))

outbounds-restores_example :
    (r : Report) × (((outbounds
          (plain third_bad)
          builds
          fixed_tags
          (owns source)
          new_entries
          meta
          xray).0
        ≡ ok r)
      × (r.failed ≡ 1)
      × ((outbounds
            (plain third_bad)
            builds
            fixed_tags
            (owns source)
            new_entries
            meta
            xray).1.server
          ≡ select (λ h. not (ours fixed_tags (owns source) h)) listed
            ++ select (ours fixed_tags (owns source)) listed))
outbounds-restores_example =
    outbounds-restores third_bad builds made fixed_tags (owns source) (spec "obs-de-1" ∷ [])
      (spec "obs-de-3") [] meta xray new_entries_free ((front_owned, refl), tt) ((refl, refl), tt)
      (inr (refl, refl)) listed-Distinct (refl, (refl, (refl, (refl, tt)))) (inl refl)
