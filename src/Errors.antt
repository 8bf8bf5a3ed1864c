-- ===== src/Errors.antt =====
-- `Error` of crates/mmbus/src/error.rs and `BusConfig` of crates/mmbus/src/config.rs, which the
-- publisher and the subscriber share. The directory and the names of topics are left out.
use mmbus.Prelude.{ℕ, ◌*◌}
use mmbus.Ring.Reader.{Backpressure, error}
use mmbus.Wal.Aggregator.{WalConfig, WalError}

-- `io` stands for every error of the operating system, and `panicked` is a failed assertion.
pub data Error : Type 0 where
  io : Error
  full : Error
  too_large : (size max : ℕ) → Error
  timeout : Error
  too_many_subscribers : ℕ → Error
  already_publishing : Error
  cursor_too_old : (requested oldest : ℕ) → Error
  wal_error : WalError → Error
  panicked : Error

pub record BusConfig : Type 0 where
  pub slot_size : ℕ
  pub capacity : ℕ
  pub max_subscribers : ℕ
  pub backpressure : Backpressure
  pub wal : WalConfig

-- `BusConfig::default`, for the default of the log.
unfoldable pub default_config : WalConfig → BusConfig
default_config wal = record {
  slot_size = 64 * 1024;
  capacity = 256;
  max_subscribers = 16;
  backpressure = error;
  wal = wal;
}
