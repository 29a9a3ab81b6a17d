-- ===== src/Primitives/Config.antt =====
-- `Timers`, `Limits` and `Config` of crates/miot-primitives/src/lib.rs. Deadlines are in blocks, sizes
-- in bytes.
use akuma_miot.Prelude.{ℕ}

pub record Timers : Type 0 where
  pub claim_window : ℕ
  pub lease : ℕ
  pub work_nag : ℕ
  pub directive_nag : ℕ
  pub max_nudges : ℕ
  pub max_reoffers : ℕ
  pub max_directive_nudges : ℕ

abbrev pub default_timers : Timers
default_timers = record {
  claim_window = 100;
  lease = 150;
  work_nag = 25;
  directive_nag = 20;
  max_nudges = 3;
  max_reoffers = 3;
  max_directive_nudges = 3;
}

pub record Limits : Type 0 where
  pub max_text : ℕ
  pub max_result : ℕ
  pub max_artifact : ℕ
  pub max_title : ℕ
  pub max_subtasks : ℕ
  pub max_tasks : ℕ
  pub max_message : ℕ

abbrev pub default_limits : Limits
default_limits = record {
  max_text = 4096;
  max_result = 16384;
  max_artifact = 65536;
  max_title = 128;
  max_subtasks = 8;
  max_tasks = 512;
  max_message = 2048;
}

pub record Config : Type 0 where
  pub timers : Timers
  pub limits : Limits

abbrev pub default_config : Config
default_config = record { timers = default_timers; limits = default_limits }
