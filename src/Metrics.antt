-- ===== src/Metrics.antt =====
-- pkg/metrics/metrics.go: the metrics of the platform with the label names that `New` declares.
-- The Prometheus client is not part of the repository: a call on a metric is a `Sample`, and the
-- handlers return the samples that they emit, in order.
pub mod Registry
use axiler_fin.Base.{ℕ, ◌≡◌, Bool, true, false, ◌&&◌, ◌==◌, String, List, [], ◌∷◌, length, All}

-- The fields of `Metrics`.
pub data Metric : Type 0 where
  requests_total request_latency requests_in_flight : Metric
  edge_auth_failures edge_rate_limit_hits edge_suspicious : Metric
  search_requests_total transfers_total transfer_amount : Metric
  service_health health_check_failures : Metric
  vault_auth_duration database_latency : Metric

-- The kinds of vectors.
pub data Kind : Type 0 where
  counter gauge histogram : Kind

-- What a vector is created with. A bucket's bound is in thousandths.
pub record Opts : Type 0 where
  pub kind : Kind
  pub name : String
  pub help : String
  pub buckets : List ℕ
  pub labels : List String

-- The vectors that `New` creates.
unfoldable pub options : Metric → Opts
options requests_total = record {
  kind = counter;
  name = "http_requests_total";
  help = "Total HTTP requests";
  buckets = [];
  labels = "service" ∷ "endpoint" ∷ "method" ∷ "status" ∷ "tenant" ∷ [];
}
options request_latency = record {
  kind = histogram;
  name = "http_request_duration_seconds";
  help = "HTTP request latency in seconds";
  buckets = 1 ∷ 5 ∷ 10 ∷ 25 ∷ 50 ∷ 100 ∷ 250 ∷ 500 ∷ 1_000 ∷ [];
  labels = "service" ∷ "endpoint" ∷ "tenant" ∷ [];
}
options requests_in_flight = record {
  kind = gauge;
  name = "http_requests_in_flight";
  help = "HTTP requests currently being processed";
  buckets = [];
  labels = "service" ∷ "endpoint" ∷ [];
}
options edge_auth_failures = record {
  kind = counter;
  name = "edge_auth_failures_total";
  help = "Authentication failures at edge";
  buckets = [];
  labels = "reason" ∷ [];
}
options edge_rate_limit_hits = record {
  kind = counter;
  name = "edge_ratelimit_hits_total";
  help = "Rate limit rejections";
  buckets = [];
  labels = "tenant" ∷ [];
}
options edge_suspicious = record {
  kind = counter;
  name = "edge_suspicious_activity_total";
  help = "Suspicious activity detected at edge";
  buckets = [];
  labels = "reason" ∷ [];
}
options search_requests_total = record {
  kind = counter;
  name = "search_requests_total";
  help = "Total search requests";
  buckets = [];
  labels = "tenant" ∷ "status" ∷ [];
}
options transfers_total = record {
  kind = counter;
  name = "transfers_total";
  help = "Total transfer operations";
  buckets = [];
  labels = "tenant" ∷ "outcome" ∷ [];
}
options transfer_amount = record {
  kind = histogram;
  name = "transfer_amount_usd";
  help = "Transfer amounts in USD";
  buckets = 10_000 ∷ 100_000 ∷ 500_000 ∷ 1_000_000 ∷ 5_000_000 ∷ 10_000_000 ∷ 50_000_000 ∷ [];
  labels = "tenant" ∷ [];
}
options service_health = record {
  kind = gauge;
  name = "service_health_status";
  help = "Service health status (1=healthy, 0=unhealthy)";
  buckets = [];
  labels = "service" ∷ [];
}
options health_check_failures = record {
  kind = counter;
  name = "health_check_failures_total";
  help = "Health check failures";
  buckets = [];
  labels = "service" ∷ "reason" ∷ [];
}
options vault_auth_duration = record {
  kind = histogram;
  name = "vault_auth_duration_seconds";
  help = "Duration of Vault authentication";
  buckets = 10 ∷ 50 ∷ 100 ∷ 500 ∷ 1_000 ∷ [];
  labels = "service" ∷ [];
}
options database_latency = record {
  kind = histogram;
  name = "database_query_duration_seconds";
  help = "Database query latency";
  buckets = 1 ∷ 5 ∷ 10 ∷ 50 ∷ 100 ∷ 500 ∷ [];
  labels = "service" ∷ "query" ∷ [];
}

-- A call `m.WithLabelValues(labels...)` with the update made on what it returns.
pub data Sample (F : Type 0) : Type 0 where
  inc dec : Metric → List String → Sample F
  set observe : Metric → List String → F → Sample F

module _ {F : Type 0} where
  abbrev pub metric_of : Sample F → Metric
  metric_of (inc m labels) = m
  metric_of (dec m labels) = m
  metric_of (set m labels x) = m
  metric_of (observe m labels x) = m

  abbrev pub labels_of : Sample F → List String
  labels_of (inc m labels) = labels
  labels_of (dec m labels) = labels
  labels_of (set m labels x) = labels
  labels_of (observe m labels x) = labels

  -- Counters and gauges have `Inc`, gauges alone `Dec` and `Set`, histograms alone `Observe`.
  abbrev has_method : Kind → Sample F → Bool
  has_method counter (inc m labels) = true
  has_method counter s = false
  has_method gauge (observe m labels x) = false
  has_method gauge s = true
  has_method histogram (observe m labels x) = true
  has_method histogram s = false

  -- `WithLabelValues` panics unless there is a value for each label name.
  abbrev is_labelled : Sample F → Bool
  is_labelled s = length (labels_of s) == length ((options (metric_of s)).labels)

  -- The call fits the vector as `New` creates it.
  abbrev pub IsTyped : Sample F → Type 0
  IsTyped s = (is_labelled s && has_method ((options (metric_of s)).kind) s) ≡ true

  abbrev pub AllTyped : List (Sample F) → Type 0
  AllTyped = All IsTyped
