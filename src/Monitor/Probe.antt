-- ===== src/Monitor/Probe.antt =====
-- internal/scd/monitor/tunnels.go: the probe of a tunnel with its retries. A probe is a parameter: what
-- it answers at each attempt, the first is 0. What each attempt does to the network is not modelled.
use scd.Prelude.{
  ℕ, zero, suc, ◌-◌, String, Bool, true, false, Option, none, some, ◌==◌, string_eq, nat_eq,
  if◌then◌else◌, append, decimal,
}

-- config.TargetMonitorRequestConfig and RetryConfig; an int below zero counts as zero.
pub record Request : Type 0 where
  pub url : String
  pub method : String
  pub expected_status : ℕ
  pub timeout_ms : ℕ

pub record Retry : Type 0 where
  pub attempts : ℕ
  pub delay_ms : ℕ

-- config.SourceMonitorConfig: the timeout of its request, and its retry.
pub record SourceRetry : Type 0 where
  pub attempts : ℕ
  pub delay_ms : Option ℕ

pub record SourceMonitor : Type 0 where
  pub timeout_ms : Option ℕ
  pub retry : Option SourceRetry

abbrev set_timeout : Option ℕ → Request → Request
set_timeout none r = r
set_timeout (some ms) r = record r { timeout_ms = ms }

abbrev or_delay : Option ℕ → ℕ → ℕ
or_delay none ms = ms
or_delay (some ms) old = ms

abbrev set_retry : Option SourceRetry → Retry → Retry
set_retry none r = r
set_retry (some o) r = record {
  attempts = if o.attempts == 0 then r.attempts else o.attempts;
  delay_ms = or_delay o.delay_ms r.delay_ms;
}

-- sourceProbe, of a monitor that has a request.
unfoldable pub source_probe : Request → Retry → Option SourceMonitor → Request × Retry
source_probe request retry none = (request, retry)
source_probe request retry (some m) = (set_timeout m.timeout_ms request, set_retry m.retry retry)

-- socks.Response
pub record Response : Type 0 where
  pub status_code : ℕ
  pub latency_ms : ℕ

-- What an attempt comes to; a shutdown during the probe is `stopped`.
pub data Answer : Type 0 where
  response : Response → Answer
  refused : String → Answer
  stopped : Answer

pub data Probed : Type 0 where
  passed : Response → Probed
  failed : String → Probed
  cancelled : Probed

abbrev pub expected_text : ℕ → ℕ → String
expected_text want got =
    append "Expected HTTP " (append (decimal want) (append ", got " (append (decimal got) ".")))

-- The result of an attempt, or the error that the next one follows.
unfoldable pub judge : ℕ → Answer → Probed
judge want stopped = cancelled
judge want (refused msg) = failed msg
judge want (response r) =
    if r.status_code == want then passed r else failed (expected_text want r.status_code)

-- An attempt, and the next one after the pause, unless a shutdown ends the pause.
abbrev pub retry_after : Probed → Bool → Probed → Probed
retry_after (passed r) shut next = passed r
retry_after cancelled shut next = cancelled
retry_after (failed msg) true next = cancelled
retry_after (failed msg) false next = next

-- max(1, attempts) is one attempt and the others.
abbrev pub others : ℕ → ℕ
others attempts = attempts - 1

module _ (want : ℕ) (probe : ℕ → Answer) (shut : ℕ → Bool) where
  -- The loop, with the number of attempts that may follow this one.
  unfoldable pub attempts_left : ℕ → ℕ → Probed
  unfolding judge
  attempts_left zero attempt = judge want (probe attempt)
  attempts_left (suc n) attempt =
      retry_after (judge want (probe attempt)) (shut attempt) (attempts_left n (suc attempt))

  -- probeWithRetry, with the shutdowns during the pauses.
  unfoldable pub probe_with_retry : Retry → Probed
  unfolding attempts_left
  probe_with_retry retry = attempts_left (others retry.attempts) 0
