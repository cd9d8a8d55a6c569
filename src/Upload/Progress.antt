-- ===== src/Upload/Progress.antt =====
-- `UploadProgress` of native/src/upload.rs: the counters of one upload. Instants are milliseconds;
-- floating-point numbers are a parameter.
use kotlogram.Base.{ℕ, ◌+◌, ◌-◌, ◌%◌, ◌^◌, Bool, if◌then◌else◌}

pub record UploadProgress : Type 0 where
  pub total : ℕ
  pub sent : ℕ
  pub started : ℕ

unfoldable pub starting_at : ℕ → ℕ → UploadProgress
starting_at total started = record { total = total; sent = 0; started = started }

unfoldable pub set_total : ℕ → UploadProgress → UploadProgress
set_total total p = record p { total = total }

-- fetch_add on an AtomicU64
unfoldable pub add : ℕ → UploadProgress → UploadProgress
add bytes p = record p { sent = (p.sent + bytes) % 2 ^ 64 }

-- What the readout takes of `f64`.
pub record Floats : Type 1 where
  pub Float : Type 0
  pub zero_float : Float
  pub as_secs : ℕ → Float
  pub is_positive : Float → Bool
  pub as_float : ℕ → Float
  pub div : Float → Float → Float

module _ (f : Floats) where
  open f use {Float, zero_float, as_secs, is_positive, as_float, div}

  pub record UploadProgressDto : Type 0 where
    pub sent : ℕ
    pub total : ℕ
    pub elapsed_millis : ℕ
    pub bytes_per_second : Float

  pub snapshot : ℕ → UploadProgress → UploadProgressDto
  snapshot now p = record {
    sent = p.sent;
    total = p.total;
    elapsed_millis = (now - p.started) % 2 ^ 64;
    bytes_per_second =
        let seconds = as_secs (now - p.started) in
        if is_positive seconds then div (as_float p.sent) seconds else zero_float;
  }
