-- ===== src/Config/Rules.antt =====
-- internal/scd/config/rules.go: the rules on subscriptions, targets and schedules, and checkRules.
-- Whether a text is a cron schedule, an IP address or a listen address is asked of a parameter.
pub mod Accepted
use scd.Prelude.{
  ℕ, zero, suc, ◌+◌, String, Bool, true, false, not, ◌&&◌, ◌||◌, Option, none, some, List, [], ◌∷◌,
  ◌++◌, ◌==◌, string_eq, nat_eq, if◌then◌else◌, ◌>>=◌, any, select, is_empty, length, contains, ltb,
  append,
}
use scd.Config.{
  Source, Subscription, Target, Resources, Balancer, BalancerMonitor, BalancerSelection, Monitor,
}
use scd.Config.Issues.{
  Issue, Key, Place, Message, issue, when, key, balancer_key, root, subscription,
  no_subscription_enabled, duplicate_address, required_for_sockets, required_for_daemon,
  required_when_enabled, requires_every_kind, requires_monitor, requires_outbounds,
  requires_outbounds_and_inbounds, not_an_address, duplicate_tag, bad_schedule, no_sources,
  no_prefix,
}
use scd.Config.Sources.{check_sources}
use scd.Config.Dependencies.{check_dependencies}
use scd.Config.Cross.{check_cross_dependencies}

-- cron.Parse, net.ParseIP and listenaddr.Parse: whether they accept a text.
pub record Parsers : Type 0 where
  pub schedule : String → Bool
  pub ip : String → Bool
  pub listen : String → Bool

pub record StatusServer : Type 0 where
  pub enabled : Bool
  pub listen : String

-- The runtime and statusServer sections, the resources and the subscriptions.
pub record App : Type 0 where
  pub subscriptions : List Subscription
  pub mode : String
  pub schedule : String
  pub resources : Resources
  pub status_server : StatusServer

-- The addresses that occur more than once, in the order of their first occurrence.
unfoldable pub repeated : List String → List String → List String
repeated before [] = []
repeated before (a ∷ rest) =
    let more = repeated (a ∷ before) rest in
    if not (a == "") && (not (contains before a) && contains rest a) then a ∷ more else more

abbrev addresses : List Subscription → List String
addresses [] = []
addresses (s ∷ subs) = s.target.address ∷ addresses subs

abbrev address_issues : List String → List Issue
address_issues [] = []
address_issues (a ∷ rest) =
    issue root (key "subscriptions") (duplicate_address a) ∷ address_issues rest

unfoldable pub check_subscriptions : List Subscription → List Issue
unfolding repeated
check_subscriptions subs =
    if is_empty subs
    then []
    else when (not (any (λ s. s.enabled) subs))
        (issue root (key "subscriptions") no_subscription_enabled)
      ++ address_issues (repeated [] (addresses subs))

module _ (parsers : Parsers) where
  unfoldable pub check_cron : Place → Key → String → List Issue
  check_cron n k expr = when (not (parsers.schedule expr)) (issue n k (bad_schedule expr))

  unfoldable pub check_schedule : Place → Key → String → Bool → List Issue
  unfolding check_cron
  check_schedule n k expr enabled =
      if not (expr == "")
      then check_cron n k expr
      else when enabled (issue n k required_when_enabled)

  abbrev monitor_of : Place → ℕ → Option BalancerMonitor → List Issue
  monitor_of n i none = []
  monitor_of n i (some bm) =
      check_schedule n (balancer_key i "monitor.schedule") bm.schedule bm.enabled
      ++ (when (bm.enabled && not bm.has_socks5)
            (issue n (balancer_key i "monitor.socks5") required_when_enabled)
          ++ (when (bm.enabled && not bm.has_request)
                (issue n (balancer_key i "monitor.request") required_when_enabled)
              ++ when (bm.remote_ping && not bm.enabled)
                  (issue n (balancer_key i "monitor.remotePing.enabled") requires_monitor)))

  abbrev selection_of : Place → ℕ → Target → Option BalancerSelection → List Issue × List Issue
  selection_of n i t none = ([], [])
  selection_of n i t (some bs) = (
    check_schedule n (balancer_key i "selection.schedule") bs.schedule bs.enabled,
    when (bs.enabled && t.observatory_prefix == "")
        (issue n (balancer_key i "selection") no_prefix),
  )

  -- The loop over the balancers, with the tags seen: the issues and the warnings.
  unfoldable pub check_balancers :
      Place → Target → ℕ → List String → List Balancer → List Issue × List Issue
  unfolding check_schedule
  check_balancers n t i seen [] = ([], [])
  check_balancers n t i seen (b ∷ rest) =
      let (is, ws) =
        check_balancers n t (suc i) (if b.tag == "" then seen else b.tag ∷ seen) rest in
      let (sis, sws) = selection_of n i t b.selection in
      (
        when (not (b.tag == "") && contains seen b.tag)
              (issue n (balancer_key i "tag") (duplicate_tag b.tag))
            ++ (monitor_of n i b.monitor ++ (sis ++ is)),
        sws ++ ws,
      )

  abbrev is_set : Option String → Bool
  is_set none = false
  is_set (some s) = true

  -- Xray listens on an IP or "localhost" only.
  abbrev bad_listen : Option String → Bool
  bad_listen none = false
  bad_listen (some s) = not (s == "") && (not (s == "localhost") && not (parsers.ip s))

  unfoldable pub check_target : Place → Target → Resources → List Issue × List Issue
  unfolding check_balancers
  check_target n t res =
      let m = t.monitor in
      let (is, ws) = check_balancers n t 0 [] t.balancers in
      (
        when ((res.inbounds || res.routing) && not (is_set t.inbound_socks))
              (issue n (key "target.inboundSocks") required_for_sockets)
            ++ (when (bad_listen t.inbound_socks)
                  (issue n (key "target.inboundSocks.listen") not_an_address)
                ++ (check_schedule n (key "target.monitor.schedule") m.schedule m.enabled
                    ++ (when (m.enabled && not m.has_request)
                          (issue n (key "target.monitor.request") required_when_enabled)
                        ++ (when (m.enabled && not (is_set t.inbound_socks))
                              (issue n (key "target.inboundSocks") required_when_enabled)
                            ++ (when
                                  (m.enabled
                                    && (not res.outbounds || (not res.inbounds || not res.routing)))
                                  (issue n (key "target.monitor.enabled") requires_every_kind)
                                ++ is))))),
        ws,
      )

  unfoldable pub check_status_server : StatusServer → List Issue
  check_status_server s =
      if not s.enabled
      then []
      else if s.listen == ""
      then issue root (key "statusServer.listen") required_when_enabled ∷ []
      else when (not (parsers.listen s.listen))
          (issue root (key "statusServer.listen") not_an_address)

  unfoldable pub check_resources : Resources → List Issue
  check_resources res =
      when (res.inbounds && not res.outbounds)
        (issue root (key "resources.inbounds.enabled") requires_outbounds)
      ++ when (res.routing && (not res.outbounds || not res.inbounds))
          (issue root (key "resources.routing.enabled") requires_outbounds_and_inbounds)

  unfoldable pub check_runtime : App → List Issue
  unfolding check_cron
  check_runtime app =
      if not (app.schedule == "")
      then check_cron root (key "runtime.schedule") app.schedule
      else when (app.mode == "daemon") (issue root (key "runtime.schedule") required_for_daemon)

  -- What one subscription adds in front of the later ones, after checkDependencies.
  unfoldable pub each_part :
      ℕ
      → Subscription
      → Resources
      → List Issue × List Issue
      → List Issue × List Issue
      → List Issue × List Issue
  unfolding check_target
  each_part i s res d later =
      let t = check_target (subscription i) s.target res in
      let unused =
        when (s.enabled && (not (is_empty s.sources) && not (any (λ src. src.enabled) s.sources)))
          (issue (subscription i) (key "") no_sources) in
      (t.0 ++ (d.0 ++ later.0), t.1 ++ (d.1 ++ (unused ++ later.1)))

  -- The loop over the subscriptions.
  unfoldable pub check_each : ℕ → List Subscription → Resources → Option (List Issue × List Issue)
  unfolding each_part check_dependencies
  check_each i [] res = some ([], [])
  check_each i (s ∷ subs) res = do
    d ← check_dependencies (subscription i) s
    later ← check_each (suc i) subs res
    some (each_part i s res d later)

  unfoldable pub all_parts :
      App → List Issue × List Issue → List Issue × List Issue → List Issue × List Issue
  unfolding check_subscriptions check_sources check_runtime check_resources check_status_server
  all_parts app each cross = (
    check_subscriptions app.subscriptions
        ++ (check_sources 0 app.subscriptions app.resources
            ++ (check_runtime app
                ++ (check_resources app.resources
                    ++ (each.0 ++ (cross.0 ++ check_status_server app.status_server))))),
    each.1 ++ cross.1,
  )

  -- checkRules: the issues and the warnings.
  unfoldable pub check_rules : App → Option (List Issue × List Issue)
  unfolding all_parts check_each check_cross_dependencies
  check_rules app = do
    each ← check_each 0 app.subscriptions app.resources
    cross ← check_cross_dependencies app.subscriptions
    some (all_parts app each cross)
