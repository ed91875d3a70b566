-- ===== src/Server.antt =====
-- internal/telemd/redis.go and info.go: what goes to redis, and what comes from it. The redis
-- client is not code of the repository: a command to it is a value, its answer an argument.
pub mod Wire
pub mod Reporting
pub mod Traffic
use telemd.Base.{
  ℕ, Bool, true, false, Option, none, some, List, [], ◌∷◌, ◌++◌, Text, codes, equal, if◌then◌else◌,
  ◌>>=◌,
}
use telemd.Base.Int.{ℤ, pos}
use telemd.Go.Strconv.{Err, WithErr}
use telemd.Go.Strings.{join}
use telemd.Go.Decimal.{format_int}
use telemd.Go.Float.{Floats}
use telemd.Host.{Host, Moment, next, child}
use telemd.Fileio.{read_first_line, file_dir_exists}
use telemd.Cfg.Devices.{network_devices, block_devices, find_active_net_device}
use telemd.Sysparse.{read_mem_total, boot_time, parse_iw}
use telemd.Telem.{topic_separator, Telemetry, is_empty, unix_time_string}
use telemd.Daemon.{Daemon, Command, pause, unpause, handle_command}

pub record NodeInfo : Type 0 where
  pub arch : Text
  pub cpus : ℕ
  pub ram : ℤ
  pub boot : ℤ
  pub disk : List Text
  pub net : List Text
  pub hostname : Text
  pub net_speed : Text

-- A field that is set only without an error.
abbrev pub unless_error {ℓ} : {A : Type ℓ} → A → WithErr A → A
unless_error zero_value (v, none) = v
unless_error zero_value (v, some err) = zero_value

-- The argument is `strconv.ParseFloat(s, 32)`.
module _ (F : Floats) (parse_float32 : Text → WithErr F.Float) (H : Host) where
  -- The bit rate without its fraction.
  pub find_wifi_speed : Moment → Text → WithErr Text
  find_wifi_speed m device =
      let (speed, err) = parse_iw H m device (codes "tx bitrate") 3 in
      elim err [
        | some e ↦ (speed, some e)
        | none ↦ elim (parse_float32 speed).1 [
          | some e ↦ ([], some e)
          | none ↦ (format_int (F.to_int (parse_float32 speed).0), none)
        ]
      ]

  pub net_speed_of_host : Moment → WithErr Text
  unfolding find_wifi_speed
  net_speed_of_host m =
      let (device, err) = find_active_net_device H m in
      elim err [
        | some e ↦ ([], some e)
        | none ↦
            if file_dir_exists H (next m) (codes "/sys/class/net/" ++ (device ++ codes "/wireless"))
            then find_wifi_speed (next (next m)) device
            else read_first_line H (next (next m))
                (codes "/sys/class/net/" ++ (device ++ codes "/speed"))
      ]

  -- `none` is a panic of the reading of /proc/meminfo.
  unfoldable pub read_sys_info : Moment → Option NodeInfo
  unfolding net_speed_of_host
  read_sys_info m = do
    ram ← read_mem_total H (child 0 m)
    some (record {
      arch = H.arch;
      cpus = H.num_cpu;
      ram = unless_error (pos 0) ram;
      boot = unless_error (pos 0) (boot_time F H (child 1 m));
      disk = (block_devices H (child 2 m)).0;
      net = (network_devices H (child 3 m)).0;
      hostname = unless_error [] (H.hostname (child 4 m));
      net_speed = unless_error [] (net_speed_of_host (child 5 m));
    })

-- A value of `HSet`; how the library prints a number is its own.
pub data HashValue : Type 0 where
  text_value : Text → HashValue
  int_value : ℤ → HashValue

abbrev pub info_key : Text → Text
info_key node_name = codes "telemd.info:" ++ node_name

-- The fields that the transaction of `WriteNodeInfo` sets, in their order.
pub write_node_info : NodeInfo → List (Text × HashValue)
write_node_info info =
    (codes "arch", text_value info.arch)
    ∷ (codes "boot", int_value info.boot)
    ∷ (codes "hostname", text_value info.hostname)
    ∷ (codes "ram", int_value info.ram)
    ∷ (codes "cpus", int_value (pos info.cpus))
    ∷ (codes "disk", text_value (join info.disk (codes " ")))
    ∷ (codes "net", text_value (join info.net (codes " ")))
    ∷ (codes "netspeed", text_value info.net_speed)
    ∷ []

module _ (F : Floats) where
  pub channel_of : Telemetry F → Text
  channel_of t = codes "telem" ++ (topic_separator ++ (t.node ++ (topic_separator ++ t.topic)))

  -- `none` is the panic of `UnixTimeString` at second 0.
  pub message_of : Telemetry F → Option Text
  message_of t = do stamp ← unix_time_string t.time; some (stamp ++ (b' ' ∷ F.format t.value))

  -- What `report` publishes, a channel and a message: nothing for the empty telemetry.
  unfoldable pub report : Telemetry F → Option (Option (Text × Text))
  unfolding channel_of message_of
  report t =
      if is_empty F t
      then some none
      else (message_of t >>= λ message. some (some (channel_of t, message)))

-- What the loop of the command server receives: a message, nil, or a value on `stopped`.
pub data Request : Type 0 where
  payload : Text → Request
  no_message stopped : Request

-- What a message makes the server do.
pub data Effect : Type 0 where
  send : Command → Effect
  update_node_info ignore : Effect

unfoldable pub effect_of : Text → Effect
effect_of text =
    if equal text (codes "pause")
    then send pause
    else if equal text (codes "unpause")
    then send unpause
    else if equal text (codes "info")
    then update_node_info
    else ignore

-- The effects of the messages until the loop returns, and the flag `running` behind them: it is
-- reset only by `stopped`.
unfoldable pub serve : List Request → List Effect × Bool
unfolding effect_of
serve [] = ([], true)
serve (payload text ∷ rest) =
    let (effects, running) = serve rest in (effect_of text ∷ effects, running)
serve (no_message ∷ rest) = ([], true)
serve (stopped ∷ rest) = ([], false)

-- What the loop of the reporter receives: telemetry, with redis's answer to its message, or a
-- value on `stopChan`.
pub data Answer : Type 0 where
  published client_closed other_error : Answer

-- How the loop goes on behind a message: `none` is `panic(err)`, and a false value a return, each
-- with the flag `running` reset.
unfoldable pub after_answer : Answer → Option Bool
after_answer published = some true
after_answer client_closed = some false
after_answer other_error = none
