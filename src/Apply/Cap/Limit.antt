-- ===== src/Apply/Cap/Limit.antt =====
-- internal/scd/apply/cap.go: what the check of maxActive guarantees.
use scd.Prelude.{
  ℕ, ◌+◌, ◌<◌, ◌≤◌, ◌≡◌, refl, sym, ap, ◌∙◌, subst, ◌⊎◌, inl, inr, String, true, Option, none, List,
  [], ◌∷◌, ◌++◌, string_eq, select, if◌then◌else◌, All, arith,
}
use scd.Xray.{Server, World, Error, Result, ok, err, Handler, outbound, list, add}
use scd.Apply.{Owner, Namespace, owns}
use scd.Apply.Cap.{check_cap, check_all, capped_add, count_owned, counts, refuse}
use scd.Apply.Steps.{guarded_lem, and_then_lem}

-- A list of the outbounds leaves them as they are, and when it succeeds it is true. An add appends
-- its outbound or does nothing, and its answer does not tell which.
pub record Faithful {S : Type 0} (srv : Server S) (view : S → List Handler) : Type 0 where
  pub list_keeps : (s : S) → view (srv.list outbound s).1 ≡ view s
  pub list_true : (s : S) (hs : List Handler) → (srv.list outbound s).0 ≡ ok hs → hs ≡ view s
  pub add_appends :
      (h : Handler) (s : S)
      → (view (srv.add outbound h s).1 ≡ view s)
        ⊎ (view (srv.add outbound h s).1 ≡ view s ++ h ∷ [])

pub count_owned-append :
    (fixed : List String) (o : Owner) (hs : List Handler) (h : Handler)
    → count_owned fixed o (hs ++ h ∷ [])
      ≡ count_owned fixed o hs + (if counts fixed o h then 1 else 0)
unfolding select
count_owned-append fixed o [] h = ground arith
count_owned-append fixed o (x ∷ xs) h = ground (arith, count_owned-append fixed o xs h)

refuse_lem :
    (fixed : List String) (o : Owner) (limit : ℕ) (r : Result (List Handler)) (hs : List Handler)
    → ((xs : List Handler) → r ≡ ok xs → xs ≡ hs)
    → refuse fixed o limit r ≡ none
    → count_owned fixed o hs < limit
unfolding refuse
refuse_lem fixed o limit (err e) hs true_list h = cc
refuse_lem fixed o limit (ok xs) hs true_list h =
    subst (λ l. count_owned fixed o l < limit) (true_list xs refl) (ground arith)

module _ {S : Type 0} (srv : Server S) (view : S → List Handler) (faithful : Faithful srv view)
    (fixed : List String) where
  check_cap_lem :
      (o : Owner) (limit : ℕ) (w : World S)
      → (check_cap srv fixed o limit w).0 ≡ none
      → count_owned fixed o (view w.server) < limit
  unfolding check_cap list
  check_cap_lem o limit w h =
      refuse_lem fixed o limit (srv.list outbound w.server).0 (view w.server)
        (faithful.list_true w.server) h

  check_cap-view :
      (o : Owner) (limit : ℕ) (w : World S)
      → view (check_cap srv fixed o limit w).1.server ≡ view w.server
  unfolding check_cap list
  check_cap-view o limit w = faithful.list_keeps w.server

  -- The source with its limit is either not the tag's or has room for one more.
  abbrev Room : Handler → List Handler → (Namespace × ℕ) → Type 0
  Room h hs s = owns s.0 outbound h.tag ≡ true → count_owned fixed (owns s.0) hs < s.1

  after : Option Error × World S → List Handler
  after r = view r.1.server

  check_all-view :
      (sources : List (Namespace × ℕ)) (h : Handler) (w : World S)
      → view (check_all srv fixed sources h w).1.server ≡ view w.server
  unfolding check_all after
  check_all-view [] h w = refl
  check_all-view ((n, limit) ∷ sources) h w =
      let cap = check_cap srv fixed (owns n) limit in
      let kept = check_cap-view (owns n) limit w in
      elim (guarded_lem (owns n outbound h.tag) cap (check_all srv fixed sources h) w) [
        | inl p ↦ ap after p.1 ∙ check_all-view sources h w
        | inr (inl p) ↦ ap after p.1 ∙ (check_all-view sources h (cap w).1 ∙ kept)
        | inr (inr p) ↦ ap after p.1 ∙ kept
      ]

  check_all_lem :
      (sources : List (Namespace × ℕ)) (h : Handler) (w : World S)
      → (check_all srv fixed sources h w).0 ≡ none
      → All (Room h (view w.server)) sources
  unfolding check_all
  check_all_lem [] h w e = tt
  check_all_lem ((n, limit) ∷ sources) h w e =
      let cap = check_cap srv fixed (owns n) limit in
      elim (guarded_lem (owns n outbound h.tag) cap (check_all srv fixed sources h) w) [
        | inl p ↦ (λ o. cc, check_all_lem sources h w (sym (ap (λ r. r.0) p.1) ∙ e))
        | inr (inl p) ↦ (
          λ o. check_cap_lem (owns n) limit w p.0,
          subst (λ hs. All (Room h hs) sources) (check_cap-view (owns n) limit w)
              (check_all_lem sources h (cap w).1 (sym (ap (λ r. r.0) p.1) ∙ e)),
        )
        | inr (inr p) ↦ absurd (p.0 e)
      ]

  abbrev Within : List Handler → (Namespace × ℕ) → Type 0
  Within hs s = count_owned fixed (owns s.0) hs ≤ s.1

  room_lem :
      (h : Handler) (hs : List Handler) (sources : List (Namespace × ℕ))
      → All (Room h hs) sources
      → All (Within hs) sources
      → All (Within (hs ++ h ∷ [])) sources
  unfolding counts
  room_lem h hs [] r a = tt
  room_lem h hs ((n, limit) ∷ sources) r a =
      (ground (arith, count_owned-append fixed (owns n) hs h, r.0), room_lem h hs sources r.1 a.1)

  -- An AddOutbound of a Capped client, sent or not, leaves every source within its maxActive outbounds
  -- if it was before; a list of the server is true, and an add appends its outbound or does nothing.
  pub capped_add-Within :
      (sources : List (Namespace × ℕ)) (h : Handler) (w : World S)
      → All (λ s. count_owned fixed (owns s.0) (view w.server) ≤ s.1) sources
      → All
          (λ s.
            count_owned fixed (owns s.0) (view (capped_add srv fixed sources h w).1.server) ≤ s.1)
          sources
  unfolding capped_add add after
  capped_add-Within sources h w a =
      let checked = check_all srv fixed sources h w in
      let same = sym (check_all-view sources h w) in
      elim (and_then_lem checked (λ v. add srv outbound h v)) [
        | inr p ↦ subst (λ hs. All (Within hs) sources) (same ∙ sym (ap after p.1)) a
        | inl p ↦ elim (faithful.add_appends h checked.1.server) [
          | inl k ↦ subst (λ hs. All (Within hs) sources) (same ∙ sym (ap after p.1 ∙ k)) a
          | inr k ↦
              subst (λ hs. All (Within hs) sources)
                (ap (λ hs. hs ++ h ∷ []) same ∙ sym (ap after p.1 ∙ k))
                (room_lem h (view w.server) sources (check_all_lem sources h w p.0) a)
        ]
      ]
