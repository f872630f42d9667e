-- ===== src/Xray.antt =====
-- internal/scd/xrayapi/client.go: the API of Xray, a program of its own, as the code calls it. What a
-- server answers is not fixed: it is a parameter, with a state of any type.
use scd.Prelude.{String, Bool, Option, List, ◌∷◌}

-- xrayapi.Error, with whether errors.Is finds apply.ErrCapReached in it, as in an error of a client that
-- apply.Capped made.
pub record Error : Type 0 where
  pub message : String
  pub unavailable : Bool
  pub is_cap_reached : Bool

pub data Result {ℓ} (A : Type ℓ) : Type ℓ where
  ok : A → Result A
  err : Error → Result A

pub data Kind : Type 0 where
  outbound inbound routing : Kind

-- An outbound or inbound config, or a routing rule: its tag and what else it holds.
pub record Handler : Type 0 where
  pub tag : String
  pub config : String

pub data Call : Type 0 where
  lists : Kind → Call
  adds : Kind → Handler → Call
  removes : Kind → String → Call

-- A server with its state: each call may change the state and fail. An error of `add` or `remove`
-- does not tell whether it happened.
pub record Server (S : Type 0) : Type 0 where
  pub list : Kind → S → Result (List Handler) × S
  pub add : Kind → Handler → S → Option Error × S
  pub remove : Kind → String → S → Option Error × S

-- The server's state and the calls so far, the newest first.
pub record World (S : Type 0) : Type 0 where
  pub server : S
  pub calls : List Call

module _ {S : Type 0} (srv : Server S) where
  unfoldable pub list : Kind → World S → Result (List Handler) × World S
  list kind w =
      let (r, s) = srv.list kind w.server in
      (r, record { server = s; calls = lists kind ∷ w.calls })

  unfoldable pub add : Kind → Handler → World S → Option Error × World S
  add kind h w =
      let (r, s) = srv.add kind h w.server in
      (r, record { server = s; calls = adds kind h ∷ w.calls })

  unfoldable pub remove : Kind → String → World S → Option Error × World S
  remove kind tag w =
      let (r, s) = srv.remove kind tag w.server in
      (r, record { server = s; calls = removes kind tag ∷ w.calls })
