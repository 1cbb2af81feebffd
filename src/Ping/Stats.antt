-- ===== src/Ping/Stats.antt =====
-- stats.rs: the running statistics of a ping session. An f64 is a value of a type `F`, whose
-- operations are those of the standard library, a parameter; so is the clock.
pub mod Answers
pub mod Totals
use mathlib.Core.Option
use verkkokyyla.Prelude.Machine.{bump_u64}
use verkkokyyla.Prelude.Text.{Text}
use verkkokyyla.Prelude.{ℕ, Bool, List, [], ◌∷◌, ◌++◌, Option, none, some, ltb, ◌==◌, if◌then◌else◌}

-- The operations on f64 that the file uses; `ms_of` is `as_secs_f64() * 1000.0` of a duration in
-- nanoseconds, and `of_nat` is `as f64`.
pub record Floats (F : Type 0) : Type 0 where
  pub zero_f : F
  pub sixteen : F
  pub add : F → F → F
  pub sub : F → F → F
  pub mul : F → F → F
  pub div : F → F → F
  pub abs : F → F
  pub min_f : F → F → F
  pub max_f : F → F → F
  pub sqrt : F → F
  pub of_nat : ℕ → F
  pub ms_of : ℕ → F

pub data ProbeOutcome : Type 0 where
  rtt : ℕ → ProbeOutcome
  timeout : ProbeOutcome
  error : Text → ProbeOutcome

pub record ProbeRecord : Type 0 where
  pub seq : ℕ
  pub outcome : ProbeOutcome
  pub recorded_at : Text

pub record StatsEngine (F : Type 0) : Type 0 where
  pub history : List ProbeRecord
  pub count : ℕ
  pub loss_count : ℕ
  pub rtt_count : ℕ
  pub min_ms : Option F
  pub max_ms : Option F
  pub mean_ms : F
  pub m2_ms : F
  pub jitter_ms : Option F
  pub last_rtt_ms : Option F

pub record StatsSnapshot (F : Type 0) : Type 0 where
  pub count : ℕ
  pub loss_count : ℕ
  pub loss_fraction : F
  pub min_ms : Option F
  pub avg_ms : Option F
  pub max_ms : Option F
  pub stddev_ms : Option F
  pub jitter_ms : Option F

module _ {F : Type 0} (f : Floats F) where
  abbrev pub new_stats : StatsEngine F
  new_stats = record {
    history = [];
    count = 0;
    loss_count = 0;
    rtt_count = 0;
    min_ms = none;
    max_ms = none;
    mean_ms = f.zero_f;
    m2_ms = f.zero_f;
    jitter_ms = none;
    last_rtt_ms = none;
  }

  -- The estimator of RFC 3550 for one more difference.
  abbrev pub next_jitter : Option F → F → F
  next_jitter jitter d =
      let j = Option.get_or jitter f.zero_f in f.add j (f.div (f.sub d j) f.sixteen)

  abbrev pub jitter_after : Option F → Option F → F → Option F
  jitter_after none jitter ms = jitter
  jitter_after (some prev) jitter ms = some (next_jitter jitter (f.abs (f.sub ms prev)))

  -- `Some(old.map_or(ms, |m| pick(m, ms)))`.
  abbrev pub extreme : (F → F → F) → Option F → F → Option F
  extreme pick none ms = some ms
  extreme pick (some m) ms = some (pick m ms)

  unfoldable pub feed_rtt : StatsEngine F → F → StatsEngine F
  feed_rtt e ms =
      let rtt_count = bump_u64 e.rtt_count in
      let delta = f.sub ms e.mean_ms in
      let mean = f.add e.mean_ms (f.div delta (f.of_nat rtt_count)) in
      let delta2 = f.sub ms mean in
      record e {
        rtt_count = rtt_count;
        mean_ms = mean;
        m2_ms = f.add e.m2_ms (f.mul delta delta2);
        min_ms = extreme f.min_f e.min_ms ms;
        max_ms = extreme f.max_f e.max_ms ms;
        jitter_ms = jitter_after e.last_rtt_ms e.jitter_ms ms;
        last_rtt_ms = some ms;
      }

  abbrev pub feed_loss : StatsEngine F → StatsEngine F
  feed_loss e = record e { loss_count = bump_u64 e.loss_count; last_rtt_ms = none }

  abbrev pub feed_outcome : StatsEngine F → ProbeOutcome → StatsEngine F
  feed_outcome e (rtt ns) = feed_rtt e (f.ms_of ns)
  feed_outcome e timeout = feed_loss e
  feed_outcome e (error message) = feed_loss e

  -- `now` is the clock, by the number of the probe.
  unfoldable pub feed : (ℕ → Text) → StatsEngine F → ProbeOutcome → StatsEngine F
  feed now e outcome =
      let seq = bump_u64 e.count in
      let fed = feed_outcome (record e { count = seq }) outcome in
      let entry : ProbeRecord = record { seq = seq; outcome = outcome; recorded_at = now seq } in
      record fed { history = fed.history ++ entry ∷ [] }

  unfoldable pub snapshot : StatsEngine F → StatsSnapshot F
  snapshot e =
      let has_rtt = ltb 0 e.rtt_count in
      record {
        count = e.count;
        loss_count = e.loss_count;
        loss_fraction =
            if e.count == 0 then f.zero_f else f.div (f.of_nat e.loss_count) (f.of_nat e.count);
        min_ms = e.min_ms;
        avg_ms = if has_rtt then some e.mean_ms else none;
        max_ms = e.max_ms;
        stddev_ms = if has_rtt then some (f.sqrt (f.div e.m2_ms (f.of_nat e.rtt_count))) else none;
        jitter_ms = e.jitter_ms;
      }
