-- ===== src/Apply/Outbounds/Failing.antt =====
-- internal/scd/apply/outbounds.go on the plain model of Xray: additions up to the one that fails.
use scd.Prelude.{
  ◌≡◌, refl, ◌∙◌, sym, subst, ◌⊎◌, inl, inr, ◌≢◌, String, Bool, true, false, Option, none, some,
  List, [], ◌∷◌, ◌++◌, string_eq, All, map,
}
use scd.Xray.{World, Error, Result, ok, err, Handler, outbound, add}
use scd.Apply.Steps.{and_then, and_then-none}
use scd.Outbound.{Spec}
use scd.Apply.Outbounds.{Progress, added_one, send_one, add_one, add_all}
use scd.Apply.Outbounds.Plain.{plain, plain_add}
use scd.Apply.Outbounds.Replaces.{Good, add_all-Appends}

module _ (bad : Handler → Bool) (to_proto : Spec → Result Handler) (made : Spec → Handler) where
  abbrev P : Type 0
  P = Progress (List Handler)

  -- An entry that cannot be built, or whose outbound is refused.
  abbrev pub Fails : Spec → Type 0
  Fails e =
      ((x : Error) × (to_proto e ≡ err x)) ⊎ ((to_proto e ≡ ok (made e)) × (bad (made e) ≡ true))

  -- An addition that fails changes nothing that the rollback reads.
  abbrev Stops : P → Option Error × P → Type 0
  Stops p r =
      (r.0 ≢ none)
      × (r.1.world.server ≡ p.world.server)
      × (r.1.added ≡ p.added)
      × (r.1.backups ≡ p.backups)

  added_one-Stops :
      (tag : String) (p : P) (r : Option Error × World (List Handler))
      → r.0 ≢ none
      → r.1.server ≡ p.world.server
      → Stops p (added_one tag p r)
  unfolding added_one
  added_one-Stops tag p (none, w) n s = absurd (n refl)
  added_one-Stops tag p (some e, w) n s = ((λ q. cc), s, refl, refl)

  plain_add_bad :
      (h : Handler) (b : Bool) (hs : List Handler)
      → b ≡ true
      → ((plain_add b h hs).0 ≢ none) × ((plain_add b h hs).1 ≡ hs)
  plain_add_bad h true hs g = ((λ q. cc), refl)
  plain_add_bad h false hs g = cc

  add_one-Stops : (e : Spec) (p : P) → Fails e → Stops p (add_one (plain bad) to_proto e p)
  unfolding add_one send_one add
  add_one-Stops e p (inl (x, q)) = rw q ((λ z. cc), refl, refl, refl)
  add_one-Stops e p (inr (q, b)) =
      let k = plain_add_bad (made e) (bad (made e)) p.world.server b in
      rw q (
        added_one-Stops e.tag (record p { current_id = e.tag })
          (add (plain bad) outbound (made e) p.world) k.0 k.1)

  and_then-Stops :
      (r : Option Error × P) (next : P → Option Error × P) (p : P)
      → Stops p r
      → Stops p (and_then r next)
  unfolding and_then
  and_then-Stops (none, q) next p s = absurd (s.0 refl)
  and_then-Stops (some e, q) next p s = s

  -- What the additions did before the entry that fails.
  abbrev pub Halted : P → List Handler → List String → Option Error × P → Type 0
  Halted p hs tags r =
      (r.0 ≢ none)
      × (r.1.world.server ≡ p.world.server ++ hs)
      × (r.1.added ≡ p.added ++ tags)
      × (r.1.backups ≡ p.backups)

  and_then_assoc :
      (r : Option Error × P) (f g both : P → Option Error × P)
      → ((q : P) → both q ≡ and_then (f q) g)
      → and_then r both ≡ and_then (and_then r f) g
  unfolding and_then
  and_then_assoc (none, q) f g both e = e q
  and_then_assoc (some x, q) f g both e = refl

  add_all-append :
      (front back : List Spec) (p : P)
      → add_all (plain bad) to_proto (front ++ back) p
        ≡ and_then (add_all (plain bad) to_proto front p) (add_all (plain bad) to_proto back)
  unfolding add_all and_then
  add_all-append [] back p = refl
  add_all-append (e ∷ front) back p =
      and_then_assoc (add_one (plain bad) to_proto e p) (add_all (plain bad) to_proto front)
        (add_all (plain bad) to_proto back) (add_all (plain bad) to_proto (front ++ back))
        (add_all-append front back)

  first-Stops :
      (e : Spec) (rest : List Spec) (p : P)
      → Fails e
      → Stops p (add_all (plain bad) to_proto (e ∷ rest) p)
  unfolding add_all
  first-Stops e rest p f =
      and_then-Stops (add_one (plain bad) to_proto e p) (add_all (plain bad) to_proto rest) p
        (add_one-Stops e p f)

  pub add_all-Halted :
      (front : List Spec) (e : Spec) (rest : List Spec) (p : P)
      → All (Good bad to_proto made) front
      → Fails e
      → Halted p
          (map made front)
          (map (λ e. e.tag) front)
          (add_all (plain bad) to_proto (front ++ e ∷ rest) p)
  add_all-Halted front e rest p good f =
      let (n, s, a, b, _) = add_all-Appends bad to_proto made front p good in
      let q = (add_all (plain bad) to_proto front p).1 in
      let (n', s', a', b') = first-Stops e rest q f in
      subst (Halted p (map made front) (map (λ e. e.tag) front))
        (sym (
          add_all-append front (e ∷ rest) p
          ∙ and_then-none (add_all (plain bad) to_proto front p)
              (add_all (plain bad) to_proto (e ∷ rest)) n))
        (n', s' ∙ s, a' ∙ a, b' ∙ b)
