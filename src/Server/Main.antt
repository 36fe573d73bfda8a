-- ===== src/Server/Main.antt =====
-- src/main.cpp, and the start of the server in src/server.cpp: its options and its port.
use woeful.Base.{
  ℕ, ◌+◌, ◌-◌, ◌*◌, ◌%◌, ◌^◌, Bool, true, false, Option, none, some, [], ltb, if◌then◌else◌, Bytes,
  bytes_eq, codes,
}
use woeful.Config.{
  WoefulConfig, default_config, Expected, value, unexpected, Tinyxml, read_config, get_conf,
  set_conf,
}

-- `THREAD_COUNT`, from what `hardware_concurrency` answers, an `unsigned int`.
unfoldable pub thread_count : ℕ → ℕ
thread_count hardware_concurrency = (hardware_concurrency + 2 ^ 32 - 2) % 2 ^ 32

-- How the program goes on: it ends with `exit(-1)` and a message, ends at once with no port,
-- listens to a port, or ends since it could not bind the port.
pub data Outcome : Type 0 where
  failed : Bytes → Outcome
  no_port : Outcome
  listening : ℕ → Outcome
  failed_to_bind : ℕ → Outcome

-- `MAX_BACKPRESSURE`
abbrev pub max_backpressure : ℕ
max_backpressure = 1024 * 1024 * 1024

-- The options of the app that are numbers or switches.
pub record AppOptions : Type 0 where
  pub max_payload_length : ℕ
  pub idle_timeout : ℕ
  pub max_backpressure : ℕ
  pub close_on_backpressure_limit : Bool
  pub reset_idle_timeout_on_send : Bool
  pub send_pings_automatically : Bool

abbrev pub app_options : AppOptions
app_options = record {
  max_payload_length = 100 * 1024 * 1024;
  idle_timeout = 16;
  max_backpressure = max_backpressure;
  close_on_backpressure_limit = false;
  reset_idle_timeout_on_send = false;
  send_pings_automatically = true;
}

-- `app.listen` and its callback: `binds` tells whether a port can be bound, which is when the
-- callback gets a socket.
unfoldable pub listen : (ℕ → Bool) → ℕ → Outcome
listen binds port = if binds port then listening port else failed_to_bind port

-- `start_wisp_server`, with the test of the port.
unfoldable pub start_wisp_server : (ℕ → Bool) → WoefulConfig → Outcome
unfolding listen
start_wisp_server binds conf = elim conf.port_number [
  | none ↦ no_port
  | some port ↦ listen binds port
]

-- The configuration that `main` sets where no file is named. `num_port` is an `int`; the word is
-- its value as an `unsigned int`.
abbrev pub port_config : ℕ → WoefulConfig
port_config num_port = record default_config { port_number = some num_port }

-- The configuration from a file that was read.
unfoldable pub start_from_file :
    (ℕ → Bool) → Option (Expected WoefulConfig) → Option (WoefulConfig × Outcome)
unfolding start_wisp_server
start_from_file binds none = none
start_from_file binds (some (unexpected e)) = some (default_config, failed e)
start_from_file binds (some (value conf)) =
    let global_conf = set_conf conf default_config in
    some (global_conf, start_wisp_server binds (get_conf global_conf))

unfoldable pub start_from_port : (ℕ → Bool) → ℕ → WoefulConfig × Outcome
unfolding start_wisp_server
start_from_port binds num_port =
    let global_conf = set_conf (port_config num_port) default_config in
    (global_conf, start_wisp_server binds (get_conf global_conf))

-- `main` behind the parsing of the command line, which is CLI11's: the options are arguments. The
-- result is the global configuration and the outcome; `none` means that `read_config` ran out of
-- fuel.
unfoldable pub main : Tinyxml → (ℕ → Bool) → ℕ → ℕ → ℕ → Bytes → Option (WoefulConfig × Outcome)
unfolding start_from_port start_from_file
main xml binds fuel hardware_concurrency num_port filename =
    if ltb hardware_concurrency 3
    then some (default_config, failed (codes "Program requires at least 3 threads"))
    else if bytes_eq filename []
    then some (start_from_port binds num_port)
    else start_from_file binds (read_config xml fuel filename)
