-- ===== src/Manifest/Built.antt =====
-- internal/scd/manifest/manifest.go: Build.
use scd.Prelude.{
  ℕ, suc, ◌+◌, ◌≡◌, refl, ap, ◌∙◌, sym, ◌⊎◌, inl, inr, String, true, false, List, [], ◌∷◌, ◌++◌,
  map, arith, string_eq, contains, length, length-append, Distinct, Bool-cases, contains-append,
  map-append, Distinct-append, subst,
}
use scd.Vless.{Skip}
use scd.Xray.{Result, ok, err, Handler}
use scd.Outbound.{Normalized, Builder}
use scd.Manifest.{
  Entry, Manifest, Summary, Counter, counts_unsupported_scheme, counts_unsupported_value,
  counts_unsupported_combo, counts_invalid_uri, counts_missing_required_field, counts_duplicate_tag,
  counts_wireguard_invalid, counts_masque_invalid, no_counter, counter_of, count_code, skip, keep,
  build_entry, build_link, build_lines, build, empty_manifest, duplicate_skip, rejected_skip,
  entry_of,
}
use scd.Manifest.Filtered.{Counted}

-- The counters that the codes leave alone.
abbrev Same : Summary → Summary → Type 0
Same s t =
    (t.parsed ≡ s.parsed)
    × (t.skipped ≡ s.skipped)
    × (t.filtered ≡ s.filtered)
    × (t.total_lines ≡ s.total_lines)

Same-count_code : (code : Counter) (s : Summary) → Same s (count_code code s)
unfolding count_code
Same-count_code counts_unsupported_scheme s = (refl, refl, refl, refl)
Same-count_code counts_unsupported_value s = (refl, refl, refl, refl)
Same-count_code counts_unsupported_combo s = (refl, refl, refl, refl)
Same-count_code counts_invalid_uri s = (refl, refl, refl, refl)
Same-count_code counts_missing_required_field s = (refl, refl, refl, refl)
Same-count_code counts_duplicate_tag s = (refl, refl, refl, refl)
Same-count_code counts_wireguard_invalid s = (refl, refl, refl, refl)
Same-count_code counts_masque_invalid s = (refl, refl, refl, refl)
Same-count_code no_counter s = (refl, refl, refl, refl)

module _ {F : Type 0} (b : Builder) (all : ℕ) where
  abbrev tags : List (Entry F) → List String
  tags = map (λ e. e.tag)

  -- In the loop, with the lines still to read.
  record Building (left : ℕ) (acc : List String × Manifest F) : Type 0 where
    pub parsed : acc.1.summary.parsed ≡ length acc.1.entries
    pub skipped : acc.1.summary.skipped ≡ length acc.1.skipped
    pub filtered : acc.1.summary.filtered ≡ 0
    pub total : acc.1.summary.total_lines ≡ (acc.1.summary.parsed + acc.1.summary.skipped) + left
    pub lines : acc.1.summary.total_lines ≡ all
    pub seen : (t : String) → contains (tags acc.1.entries) t ≡ true → contains acc.0 t ≡ true
    pub distinct : Distinct (tags acc.1.entries)

  skip-Building :
      (n : ℕ) (s : Skip) (seen : List String) (m : Manifest F)
      → Building (suc n) (seen, m)
      → Building n (seen, skip s m)
  unfolding skip
  skip-Building n s seen m i =
      let same =
        Same-count_code (counter_of s.code)
          (record m.summary { skipped = suc m.summary.skipped }) in
      record {
        parsed = same.0 ∙ i.parsed;
        skipped = omega (arith, same.1, i.skipped, length-append m.skipped (s ∷ []));
        filtered = same.2 ∙ i.filtered;
        total = omega (arith, same.0, same.1, same.3, i.total);
        lines = same.3 ∙ i.lines;
        seen = i.seen;
        distinct = i.distinct;
      }

  more_seen :
      (es : List (Entry F)) (e : Entry F) (seen : List String) (t : String)
      → (contains (tags es) t ≡ true → contains seen t ≡ true)
      → contains (tags (es ++ e ∷ [])) t ≡ true
      → contains (e.tag ∷ seen) t ≡ true
  unfolding contains
  more_seen es e seen t h c = ground (
    arith,
    ap (λ l. contains l t) (map-append (λ x. x.tag) es (e ∷ [])),
    contains-append (tags es) (e.tag ∷ []) t,
    h,
  )

  -- An entry whose tag has not been seen.
  keep-Building :
      (n : ℕ) (e : Entry F) (seen : List String) (m : Manifest F)
      → contains seen e.tag ≡ false
      → Building (suc n) (seen, m)
      → Building n (e.tag ∷ seen, keep e m)
  unfolding keep contains
  keep-Building n e seen m fresh i = record {
    parsed = omega (arith, i.parsed, length-append m.entries (e ∷ []));
    skipped = i.skipped;
    filtered = i.filtered;
    total = omega (arith, i.total);
    lines = i.lines;
    seen = λ t c. more_seen m.entries e seen t (i.seen t) c;
    distinct =
        subst Distinct (sym (map-append (λ x. x.tag) m.entries (e ∷ [])))
          (Distinct-append (tags m.entries) e.tag i.distinct (ground (arith, i.seen e.tag, fresh)));
  }

  build_entry-Building :
      (n : ℕ) (x : Normalized) (r : Result Handler) (seen : List String) (m : Manifest F)
      → contains seen x.tag ≡ false
      → Building (suc n) (seen, m)
      → Building n (build_entry b x r (seen, m))
  unfolding build_entry
  build_entry-Building n x (err e) seen m f i = skip-Building n (rejected_skip x e) seen m i
  build_entry-Building n x (ok h) seen m f i = keep-Building n (entry_of x (b.build x)) seen m f i

  build_link-Building :
      (n : ℕ) (line : Skip ⊎ Normalized) (seen : List String) (m : Manifest F)
      → Building (suc n) (seen, m)
      → Building n (build_link b line (seen, m))
  unfolding build_link
  build_link-Building n (inl s) seen m i = skip-Building n s seen m i
  build_link-Building n (inr x) seen m i = elim (Bool-cases (contains seen x.tag)) [
    | inl old ↦ rw old (skip-Building n (duplicate_skip x) seen m i)
    | inr new ↦ rw new (build_entry-Building n x (b.to_proto (b.build x)) seen m new i)
  ]

  build_lines-Building :
      (lines : List (Skip ⊎ Normalized)) (acc : List String × Manifest F)
      → Building (length lines) acc
      → Building 0 (build_lines b lines acc)
  unfolding build_lines
  build_lines-Building [] acc i = i
  build_lines-Building (line ∷ lines) (seen, m) i =
      build_lines-Building lines (build_link b line (seen, m))
        (build_link-Building (length lines) line seen m i)

-- A manifest that Build makes has no two entries of one tag, counts its entries and its skipped lines,
-- counts no line as filtered, and has as many lines as entries and skipped lines together, one for each
-- line of the text. The parser and the normalizer of a line may do what they want.
pub build-Counted :
    (F : Type 0) (b : Builder) (lines : List (Skip ⊎ Normalized)) (source_file now : String)
    → let m = build {F = F} b lines source_file now in
      Counted m
      × Distinct (map (λ e. e.tag) m.entries)
      × (m.summary.total_lines ≡ length lines)
      × (m.summary.filtered ≡ 0)
      × (length m.entries + length m.skipped ≡ length lines)
unfolding build contains
build-Counted F b lines source_file now =
    let done =
      build_lines-Building {F = F} b (length lines) lines
        ([], empty_manifest (length lines) source_file now)
        (record {
          parsed = refl;
          skipped = refl;
          filtered = refl;
          total = omega arith;
          lines = refl;
          seen = λ t c. cc;
          distinct = tt;
        }) in
    (
      (done.parsed, done.skipped, omega (arith, done.total, done.filtered)),
      done.distinct,
      done.lines,
      done.filtered,
      omega (arith, done.parsed, done.skipped, done.total, done.lines),
    )
