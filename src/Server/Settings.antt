-- ===== src/Server/Settings.antt =====
-- The constructor and the setters of src/tftp_server.cpp, as they change the configuration of
-- src/internal/tftp_server_impl.cpp. A call that throws leaves the configuration as it is.
use tftpserver.Prelude.{
  ℕ, ◌*◌, ◌^◌, ◌≤◌, ◌<◌, ◌≡◌, refl, Bool, true, not, List, [], ◌∷◌, Option, none, some, Bytes,
  arith, if◌then◌else◌, Bool-cases, inl, inr,
}
use tftpserver.Prelude.Int.{ℤ, pos, negsuc}
use tftpserver.Validation.{validate_transfer_size, validate_timeout}
use tftpserver.Server.Client.{Config, initial_root_dir}

unfoldable pub initial_config : Bytes → Config
initial_config root_dir = record {
  root_dir = initial_root_dir root_dir;
  secure_mode = true;
  max_transfer_size = 1073741824;
  timeout_seconds = pos 5;
}

-- `none` is the TftpException of the validation.
unfoldable pub set_max_transfer_size : ℕ → Config → Option Config
set_max_transfer_size size config =
    if not (validate_transfer_size size)
    then none
    else some (record config { max_transfer_size = size })

unfoldable pub set_timeout : ℤ → Config → Option Config
set_timeout seconds config =
    if not (validate_timeout seconds)
    then none
    else some (record config { timeout_seconds = seconds })

unfoldable pub set_secure_mode : Bool → Config → Option Config
set_secure_mode secure config = some (record config { secure_mode = secure })

-- A call of a setter.
pub data Setting : Type 0 where
  secure_mode : Bool → Setting
  max_size : ℕ → Setting
  timeout : ℤ → Setting

unfoldable pub set : Setting → Config → Option Config
set (secure_mode secure) config = set_secure_mode secure config
set (max_size size) config = set_max_transfer_size size config
set (timeout seconds) config = set_timeout seconds config

-- The configuration behind a call, and behind a sequence of calls.
unfoldable pub kept : Config → Option Config → Config
kept config none = config
kept config (some changed) = changed

unfoldable pub configure : Config → List Setting → Config
configure config [] = config
configure config (s ∷ settings) = configure (kept config (set s config)) settings

-- The limits lie in the ranges of the validation, and the timeout in milliseconds fits an `int`.
pub record IsConfig (config : Config) : Type 0 where
  pub size_low : 512 ≤ config.max_transfer_size
  pub size_high : config.max_transfer_size ≤ 1073741824
  pub seconds : ℕ
  pub timeout_is : config.timeout_seconds ≡ pos seconds
  pub seconds_low : 1 ≤ seconds
  pub seconds_high : seconds ≤ 3600
  pub millis_fit : seconds * 1000 < 2 ^ 31

validate_transfer_size_range :
    (size : ℕ) → validate_transfer_size size ≡ true → (512 ≤ size) × (size ≤ 1073741824)
unfolding validate_transfer_size
validate_transfer_size_range size h = ground (arith, h)

pub validate_timeout_range :
    (seconds : ℤ)
    → validate_timeout seconds ≡ true
    → (n : ℕ) × (seconds ≡ pos n) × (1 ≤ n) × (n ≤ 3600)
unfolding validate_timeout
validate_timeout_range (pos n) h = (n, refl, ground (arith, h), ground (arith, h))
validate_timeout_range (negsuc n) h = absurd (ground (arith, h))

pub set-IsConfig :
    (s : Setting) (config : Config) → IsConfig config → IsConfig (kept config (set s config))
unfolding set kept set_max_transfer_size set_timeout set_secure_mode
set-IsConfig (secure_mode secure) config c = record {
  size_low = c.size_low;
  size_high = c.size_high;
  seconds = c.seconds;
  timeout_is = c.timeout_is;
  seconds_low = c.seconds_low;
  seconds_high = c.seconds_high;
  millis_fit = c.millis_fit;
}
set-IsConfig (max_size size) config c = elim (Bool-cases (validate_transfer_size size)) [
  | inr refused ↦ rw refused c
  | inl good ↦
      let (low, high) = validate_transfer_size_range size good in
      rw good (record {
        size_low = low;
        size_high = high;
        seconds = c.seconds;
        timeout_is = c.timeout_is;
        seconds_low = c.seconds_low;
        seconds_high = c.seconds_high;
        millis_fit = c.millis_fit;
      })
]
set-IsConfig (timeout seconds) config c = elim (Bool-cases (validate_timeout seconds)) [
  | inr refused ↦ rw refused c
  | inl good ↦
      let (n, same, low, high) = validate_timeout_range seconds good in
      rw good (record {
        size_low = c.size_low;
        size_high = c.size_high;
        seconds = n;
        timeout_is = same;
        seconds_low = low;
        seconds_high = high;
        millis_fit = omega arith;
      })
]

configure-IsConfig :
    (settings : List Setting) (config : Config)
    → IsConfig config
    → IsConfig (configure config settings)
unfolding configure
configure-IsConfig [] config c = c
configure-IsConfig (s ∷ settings) config c =
    configure-IsConfig settings (kept config (set s config)) (set-IsConfig s config c)

-- Whatever setters are called after the construction, with whatever values: the size limit stays
-- between 512 bytes and 1 GiB and the timeout between 1 second and 1 hour, so that the timeout in
-- milliseconds fits an `int`.
pub initial_config-IsConfig :
    (root_dir : Bytes) (settings : List Setting)
    → IsConfig (configure (initial_config root_dir) settings)
unfolding initial_config
initial_config-IsConfig root_dir settings =
    configure-IsConfig settings (initial_config root_dir) (record {
      size_low = omega arith;
      size_high = omega arith;
      seconds = 5;
      timeout_is = refl;
      seconds_low = omega arith;
      seconds_high = omega arith;
      millis_fit = omega arith;
    })
