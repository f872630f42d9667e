-- ===== src/Config/Cycles/Topological.antt =====
-- internal/scd/config/rules.go: an order of the sources in which each stands before what it depends on.
use scd.Prelude.{String, List, [], ◌∷◌, inl, inr, string_eq, Among, All, sym, subst}
use scd.Config.Cycles.{Edges, targets}

-- A chain of edges, one at least.
pub data Walk (edges : Edges) (a : String) : String → Type 0 where
  edge : {b : String} → Among b (targets edges a) → Walk edges a b
  step : {b c : String} → Walk edges a b → Among c (targets edges b) → Walk edges a c

-- Each node is listed before all that it has edges to.
abbrev pub Topo : Edges → List String → Type 0
Topo edges [] = Unit
Topo edges (x ∷ rest) = All (λ y. Among y rest) (targets edges x) × Topo edges rest

pub All-Among {κ} :
    (P : String → Type κ) (xs : List String) (a : String) → All P xs → Among a xs → P a
All-Among P [] a h m = elim m [ ]
All-Among P (x ∷ xs) a h (inl p) = subst P (sym p) h.0
All-Among P (x ∷ xs) a h (inr m) = All-Among P xs a h.1 m

module _ (edges : Edges) where
  target-Among :
      (fin : List String) (a b : String)
      → Topo edges fin
      → Among a fin
      → Among b (targets edges a)
      → Among b fin
  target-Among [] a b t m e = elim m [ ]
  target-Among (x ∷ rest) a b t (inl p) e = inr (
      All-Among (λ y. Among y rest) (targets edges x) b t.0
        (subst (λ z. Among b (targets edges z)) p e))
  target-Among (x ∷ rest) a b t (inr m) e = inr (target-Among rest a b t.1 m e)

  -- A walk from the first node goes on among the later ones.
  Walk-Among :
      (x : String) (rest : List String) {b : String}
      → Topo edges (x ∷ rest)
      → Walk edges x b
      → Among b rest
  Walk-Among x rest t (edge {b} e) = All-Among (λ y. Among y rest) (targets edges x) b t.0 e
  Walk-Among x rest t (step {b} {c} w e) = target-Among rest b c t.1 (Walk-Among x rest t w) e

  pub no_return : (fin : List String) (v : String) → Topo edges fin → Among v fin → ¬ Walk edges v v
  no_return [] v t m w = elim m [ ]
  no_return (x ∷ rest) v t (inl p) w =
      no_return rest x t.1 (Walk-Among x rest t (subst (λ z. Walk edges z z) p w))
        (subst (λ z. Walk edges z z) p w)
  no_return (x ∷ rest) v t (inr m) w = no_return rest v t.1 m w
