-- ===== src/Metrics.antt =====
-- teamspeak_prometheus/metrics.py: the 41 passthrough gauges. `prometheus_client` and Python's floats
-- are parameters.
pub mod Series
pub mod Staging
pub mod Labels
pub mod Registry
pub mod Registered
use teamspeak_prometheus.Base.{
  ℕ, suc, ◌-◌, ◌≡◌, refl, ◌≢◌, Text, codes, Bool, true, false, Option, none, some, List, [], ◌∷◌,
  ◌++◌, if◌then◌else◌, same, leb, length, take, list_eq, nat_eq,
}
use teamspeak_prometheus.Base.Dict
use teamspeak_prometheus.Base.Dict.{Dict}
use teamspeak_prometheus.Exec.{Result, ok, err, Exception, unexpected}

-- `METRICS_NAMES`
abbrev pub metrics_names : List Text
metrics_names =
    codes "connection_bandwidth_received_last_minute_total"
    ∷ codes "connection_bandwidth_received_last_second_total"
    ∷ codes "connection_bandwidth_sent_last_minute_total"
    ∷ codes "connection_bandwidth_sent_last_second_total"
    ∷ codes "connection_bytes_received_control"
    ∷ codes "connection_bytes_received_keepalive"
    ∷ codes "connection_bytes_received_speech"
    ∷ codes "connection_bytes_received_total"
    ∷ codes "connection_bytes_sent_control"
    ∷ codes "connection_bytes_sent_keepalive"
    ∷ codes "connection_bytes_sent_speech"
    ∷ codes "connection_bytes_sent_total"
    ∷ codes "connection_filetransfer_bandwidth_received"
    ∷ codes "connection_filetransfer_bandwidth_sent"
    ∷ codes "connection_filetransfer_bytes_received_total"
    ∷ codes "connection_filetransfer_bytes_sent_total"
    ∷ codes "connection_packets_received_control"
    ∷ codes "connection_packets_received_keepalive"
    ∷ codes "connection_packets_received_speech"
    ∷ codes "connection_packets_received_total"
    ∷ codes "connection_packets_sent_control"
    ∷ codes "connection_packets_sent_keepalive"
    ∷ codes "connection_packets_sent_speech"
    ∷ codes "connection_packets_sent_total"
    ∷ codes "virtualserver_channelsonline"
    ∷ codes "virtualserver_client_connections"
    ∷ codes "virtualserver_clientsonline"
    ∷ codes "virtualserver_maxclients"
    ∷ codes "virtualserver_month_bytes_downloaded"
    ∷ codes "virtualserver_month_bytes_uploaded"
    ∷ codes "virtualserver_query_client_connections"
    ∷ codes "virtualserver_queryclientsonline"
    ∷ codes "virtualserver_reserved_slots"
    ∷ codes "virtualserver_total_bytes_downloaded"
    ∷ codes "virtualserver_total_bytes_uploaded"
    ∷ codes "virtualserver_total_packetloss_control"
    ∷ codes "virtualserver_total_packetloss_keepalive"
    ∷ codes "virtualserver_total_packetloss_speech"
    ∷ codes "virtualserver_total_packetloss_total"
    ∷ codes "virtualserver_total_ping"
    ∷ codes "virtualserver_uptime"
    ∷ []

-- `VIRTUALSERVER_LABEL`
abbrev pub virtualserver_label : Text
virtualserver_label = codes "virtualserver_name"

abbrev pub max_label_length : ℕ
max_label_length = 256

-- Floats as far as the program uses them: `parse` is `float(text)`, and `none` a `ValueError`.
pub record Floats : Type 1 where
  pub Float : Type 0
  pub parse : Text → Option Float
  pub of_ℕ : ℕ → Float
  pub subtract : Float → Float → Float
  -- `a <= b` and `a == b`
  pub at_most : Float → Float → Bool
  pub equal : Float → Float → Bool

-- Gauges and counters as `prometheus_client` offers them: `set g label v` is
-- `g.labels(label).set(v)`, and `remove` is `none` where it raises `KeyError`.
pub record Prometheus (Float : Type 0) : Type 1 where
  pub Gauge : Type 0
  pub new : Gauge
  pub set : Gauge → Text → Float → Gauge
  pub remove : Gauge → Text → Option Gauge
  pub series : Gauge → Text → Option Float
  -- a gauge without labels, and a counter with one
  pub Single : Type 0
  pub put : Single → Float → Single
  pub value : Single → Float
  pub Counter : Type 0
  pub inc : Counter → Text → Counter
  pub count : Counter → Text → ℕ

pub record IsLawful {Float : Type 0} (P : Prometheus Float) : Type 0 where
  pub series-new : (l : Text) → P.series P.new l ≡ none
  pub series-set :
      (g : P.Gauge) (l k : Text) (v : Float)
      → P.series (P.set g l v) k ≡ (if same k l then some v else P.series g k)
  pub remove-none : (g : P.Gauge) (l : Text) → P.remove g l ≡ none → P.series g l ≡ none
  pub remove-some :
      (g h : P.Gauge) (l k : Text)
      → P.remove g l ≡ some h
      → P.series h k ≡ (if same k l then none else P.series g k)
  pub value-put : (g : P.Single) (v : Float) → P.value (P.put g v) ≡ v
  pub count-inc :
      (c : P.Counter) (l k : Text)
      → P.count (P.inc c l) k ≡ (if same k l then suc (P.count c k) else P.count c k)

-- A value of a `serverinfo` mapping: what the server sent, or a float that was staged.
pub data Field (Float : Type 0) : Type 0 where
  sent : Option Text → Field Float
  staged : Float → Field Float

-- `label_value`
unfoldable pub label_value : Text → Text
label_value text =
    if leb (length text) max_label_length
    then text
    else take (max_label_length - 1) text ++ codes "…"

module _ (F : Floats) where
  open F use {Float, parse}

  abbrev to_float : Option (Field Float) → Option Float
  to_float none = none
  to_float (some (sent none)) = none
  to_float (some (sent (some text))) = parse text
  to_float (some (staged v)) = some v

  -- `float(serverinfo[name])`; `none` is a `KeyError`, `TypeError` or `ValueError`
  unfoldable pub numeric : Dict Text (Field Float) → Text → Option Float
  numeric serverinfo name = to_float (Dict.get serverinfo name)

  -- the loop of `contract_values` over the names left
  unfoldable pub contract_loop :
      Dict Text (Field Float) → List Text → Dict Text Float → Dict Text Float
  unfolding numeric
  contract_loop serverinfo [] values = values
  contract_loop serverinfo (name ∷ names) values = elim (numeric serverinfo name) [
    | none ↦ contract_loop serverinfo names values
    | some v ↦ contract_loop serverinfo names (Dict.put values name v)
  ]

  unfoldable pub contract_values : Dict Text (Field Float) → Dict Text Float
  unfolding contract_loop
  contract_values serverinfo = contract_loop serverinfo metrics_names Dict.empty

module _ (F : Floats) (P : Prometheus F.Float) where
  open F use {Float}
  open P use {Gauge, new, set, remove}

  -- `_remove_series`: a `KeyError` is suppressed
  unfoldable pub remove_series : Gauge → Text → Gauge
  remove_series g label = elim (remove g label) [ none ↦ g | some h ↦ h ]

  -- `build_gauges`
  unfoldable pub build_gauges : List Text → Dict Text Gauge → Dict Text Gauge
  build_gauges [] gauges = gauges
  build_gauges (name ∷ names) gauges = build_gauges names (Dict.put gauges name new)

  -- the loop of `update_gauges` over the names left, with what was skipped so far
  unfoldable pub update_loop :
      Text
      → Dict Text (Field Float)
      → List Text
      → List Text
      → Dict Text Gauge
      → Result (List Text) × Dict Text Gauge
  unfolding numeric remove_series
  update_loop label serverinfo [] skipped gauges = (ok skipped, gauges)
  update_loop label serverinfo (name ∷ names) skipped gauges = elim (Dict.get gauges name) [
    | none ↦ (err unexpected, gauges)
    | some gauge ↦ elim (numeric F serverinfo name) [
      | none ↦
          update_loop label serverinfo names (skipped ++ name ∷ [])
            (Dict.put gauges name (remove_series gauge label))
      | some v ↦
          update_loop label serverinfo names skipped (Dict.put gauges name (set gauge label v))
    ]
  ]

  unfoldable pub update_gauges :
      Dict Text Gauge → Text → Dict Text (Field Float) → Result (List Text) × Dict Text Gauge
  unfolding update_loop
  update_gauges gauges label serverinfo = update_loop label serverinfo metrics_names [] gauges
