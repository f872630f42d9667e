-- ===== src/Topology/Ports.antt =====
-- internal/scd/topology/topology.go: the ports of the tunnels.
use scd.Prelude.{
  ℕ, suc, ◌+◌, ◌≤◌, ◌<◌, ◌≡◌, refl, String, true, false, Option, none, some, List, [], ◌∷◌, map,
  arith, nat_eq, string_eq, contains, leb, length, length-take-le, All, All-map, Distinct,
  Bool-cases, inl, inr,
}
use scd.Sort.{stable_sort}
use scd.Config.{PortRange, Source, Target, SourceSelection, candidate_type}
use scd.Selection.{Floats, rank}
use scd.Selection.Pick.{pick-Distinct}
use scd.Outbound.{Builder}
use scd.Manifest.{Entry, Manifest, selection_candidate}
use scd.Topology.{
  Tunnel, new_tunnel, by_tag, capacity, allocate, active, allocated, build_source, tag_order,
}

later_ports :
    (port : ℕ) (tns : List Tunnel)
    → All (λ tn. suc port ≤ tn.port) tns
    → contains (map (λ tn. tn.port) tns) port ≡ false
unfolding contains
later_ports port [] h = refl
later_ports port (tn ∷ tns) h = ground (arith, later_ports port tns h.1, h.0)

module _ {F : Type 0} (b : Builder) (source_id : String) (t : Target) (listen : String) where
  allocate_bounds :
      (low port : ℕ) (es : List (Entry F))
      → low ≤ port
      → All
          (λ tn. (low ≤ tn.port) × (tn.port < port + length es))
          (allocate b source_id t listen port es)
  unfolding allocate new_tunnel
  allocate_bounds low port [] l = tt
  allocate_bounds low port (e ∷ es) l = (
    (l, omega arith),
    All-map (λ tn h. (h.0, omega (arith, h.1))) (allocate b source_id t listen (suc port) es)
        (allocate_bounds low (suc port) es (omega arith)),
  )

  allocate-Distinct :
      (port : ℕ) (es : List (Entry F))
      → Distinct (map (λ tn. tn.port) (allocate b source_id t listen port es))
  unfolding allocate new_tunnel
  allocate-Distinct port [] = tt
  allocate-Distinct port (e ∷ es) = (
    later_ports port (allocate b source_id t listen (suc port) es) (
        All-map (λ tn h. h.0) (allocate b source_id t listen (suc port) es)
          (allocate_bounds (suc port) (suc port) es (omega arith))),
    allocate-Distinct (suc port) es,
  )

length-by_tag :
    {F : Type 0} (es : List (Entry F)) (pr : PortRange) → length (by_tag es pr).0 ≤ capacity pr
unfolding by_tag
length-by_tag es pr = elim (Bool-cases (leb (length (stable_sort tag_order es)) (capacity pr))) [
  | inl l ↦ rw l (ground arith)
  | inr l ↦ rw l (length-take-le (capacity pr) (stable_sort tag_order es))
]

module _ {F : Type 0} (floats : Floats F) (b : Builder) where
  length-active :
      (m : Manifest F) (src : Source) (pr : PortRange) (s : Option SourceSelection)
      → (candidate_type src.type_name ≡ true → src.max_active ≤ capacity pr)
      → length (active floats b m src pr s).0 ≤ capacity pr
  unfolding active
  length-active m src pr none h = elim (Bool-cases (candidate_type src.type_name)) [
    | inl c ↦ rw c (omega arith)
    | inr c ↦ rw c (length-by_tag m.entries pr)
  ]
  length-active m src pr (some s) h = elim (Bool-cases (candidate_type src.type_name)) [
    | inr c ↦ rw c (length-by_tag m.entries pr)
    | inl c ↦
        let ranked = rank floats selection_candidate s.strategy m.entries in
        rw c (omega (arith, (pick-Distinct selection_candidate ranked src.max_active).1, h c))
  ]

  allocated-Ports :
      (m : Manifest F) (src : Source) (t : Target) (pr : PortRange) (l : Option String)
      → (candidate_type src.type_name ≡ true → src.max_active ≤ capacity pr)
      → let tunnels = (allocated floats b m src t l (some pr)).0 in
        Distinct (map (λ tn. tn.port) tunnels)
        × All (λ tn. (pr.start ≤ tn.port) × (tn.port ≤ pr.last)) tunnels
  unfolding allocated
  allocated-Ports m src t pr none h = (tt, tt)
  allocated-Ports m src t pr (some listen) h =
      let es = (active floats b m src pr src.selection).0 in
      let few = length-active m src pr src.selection h in
      (
        allocate-Distinct b src.id t listen pr.start es,
        All-map (λ tn k. (k.0, omega (arith, k.0, k.1, few)))
            (allocate b src.id t listen pr.start es)
            (allocate_bounds b src.id t listen pr.start pr.start es (omega arith)),
      )

  -- With portRange pr, no two tunnels of a source have the same port, and each port lies in pr. For a
  -- source of candidates maxActive is at most the number of ports, as the rules of the config demand.
  pub build_source-Ports :
      (m : Manifest F) (src : Source) (t : Target) (pr : PortRange)
      → src.port_range ≡ some pr
      → (candidate_type src.type_name ≡ true → src.max_active ≤ capacity pr)
      → let tunnels = (build_source floats b m src t).0 in
        Distinct (map (λ tn. tn.port) tunnels)
        × All (λ tn. (pr.start ≤ tn.port) × (tn.port ≤ pr.last)) tunnels
  unfolding build_source
  build_source-Ports m src t pr r h = rw r (allocated-Ports m src t pr t.inbound_socks h)
