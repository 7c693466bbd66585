-- ===== src/Bridge/Health.antt =====
-- health.py: the heartbeat of the browser frontend. Clock readings are whole milliseconds, and the
-- clock is monotonic, so that a difference below 0 does not occur.
use dext.Base.{ℕ, ◌-◌, String, Bool, false, Option, none, some, leb}

pub record FrontendHeartbeat : Type 0 where
  pub owner_tab_id : String
  pub url : String
  pub current_job_id : Option String
  pub auto_mode : Bool
  pub paused : Bool
  pub client_timestamp_ms : Option ℕ
  pub received_at : ℕ

pub record FrontendHealthSnapshot : Type 0 where
  pub alive : Bool
  pub last_seen_ago : Option ℕ
  pub owner_tab_id : Option String
  pub url : Option String
  pub current_job_id : Option String
  pub auto_mode : Bool
  pub paused : Bool
  pub client_timestamp_ms : Option ℕ
  pub stale_after : ℕ

pub record FrontendHealth : Type 0 where
  pub stale_after : ℕ
  pub latest : Option FrontendHeartbeat

-- `FrontendHealth.record`, with the clock's reading in the heartbeat
unfoldable pub record_heartbeat : FrontendHeartbeat → FrontendHealth → FrontendHealth
record_heartbeat beat h = record h { latest = some beat }

abbrev pub alive_at : Option FrontendHeartbeat → ℕ → ℕ → Bool
alive_at none stale now = false
alive_at (some beat) stale now = leb (now - beat.received_at) stale

unfoldable pub is_alive : ℕ → FrontendHealth → Bool
is_alive now h = alive_at h.latest h.stale_after now

abbrev snapshot_of : Option FrontendHeartbeat → ℕ → ℕ → FrontendHealthSnapshot
snapshot_of none stale now = record {
  alive = false;
  last_seen_ago = none;
  owner_tab_id = none;
  url = none;
  current_job_id = none;
  auto_mode = false;
  paused = false;
  client_timestamp_ms = none;
  stale_after = stale;
}
snapshot_of (some beat) stale now = record {
  alive = leb (now - beat.received_at) stale;
  last_seen_ago = some (now - beat.received_at);
  owner_tab_id = some beat.owner_tab_id;
  url = some beat.url;
  current_job_id = beat.current_job_id;
  auto_mode = beat.auto_mode;
  paused = beat.paused;
  client_timestamp_ms = beat.client_timestamp_ms;
  stale_after = stale;
}

unfoldable pub snapshot : ℕ → FrontendHealth → FrontendHealthSnapshot
snapshot now h = snapshot_of h.latest h.stale_after now
