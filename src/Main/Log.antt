-- ===== src/Main/Log.antt =====
-- log.c and log.h: the switch and the level; run_state.c: the flag of the main loops; and the
-- arguments of `main`, which set the former.
use embedded_device_forwarde.Prelude.{
  ℕ, List, [], ◌∷◌, Bool, true, false, not, ltb, ◌||◌, if◌then◌else◌, ◌==◌,
}
use embedded_device_forwarde.Prelude.Text.{Text, codes, str_eq}

-- `log_level_t` by its numbers.
abbrev pub level_none : ℕ
level_none = 0

abbrev pub level_error : ℕ
level_error = 1

abbrev pub level_warn : ℕ
level_warn = 2

abbrev pub level_info : ℕ
level_info = 3

abbrev pub level_debug : ℕ
level_debug = 4

abbrev pub level_to_str : ℕ → Text
level_to_str level =
    if level == level_error
    then codes "ERROR"
    else if level == level_warn
    then codes "WARN"
    else if level == level_info
    then codes "INFO"
    else if level == level_debug
    then codes "DEBUG"
    else codes "NONE"

-- `g_log_enable` and `g_log_level`.
pub record Log : Type 0 where
  pub enable : Bool
  pub level : ℕ

abbrev pub log_default : Log
log_default = record { enable = false; level = level_info }

abbrev pub log_init : Bool → ℕ → Log → Log
log_init enable level log = record { enable = enable; level = level }

abbrev pub log_set_level : ℕ → Log → Log
log_set_level level log = record log { level = level }

abbrev pub log_enable : Bool → Log → Log
log_enable enable log = record log { enable = enable }

abbrev pub log_toggle : Log → Log
log_toggle log = record log { enable = not log.enable }

-- Whether `log_write` writes the line: its level and text, which are behind the time.
unfoldable pub log_write : ℕ → Text → Log → List (Text × Text)
log_write level line log =
    if not log.enable || ltb log.level level then [] else (level_to_str level, line) ∷ []

-- `g_running` after `run_state_handle_signal(sig)`; SIGTERM is 15.
abbrev pub sigterm : ℕ
sigterm = 15

abbrev pub run_state_handle_signal : ℕ → Bool → Bool
run_state_handle_signal sig running = if sig == sigterm then false else running

abbrev pub run_state_stop : Bool → Bool
run_state_stop running = false

-- The loop over `argv`, on `enable_log` and `level`.
abbrev pub read_arg : Text → Log → Log
read_arg arg log =
    if str_eq arg (codes "-log")
    then record { enable = true; level = level_info }
    else if str_eq arg (codes "-debug")
    then record { enable = true; level = level_debug }
    else if str_eq arg (codes "-quiet")
    then record log { enable = false }
    else log

unfoldable pub read_args : List Text → Log → Log
read_args [] log = log
read_args (arg ∷ args) log = read_args args (read_arg arg log)
