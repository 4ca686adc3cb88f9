-- ===== src/Tests/Boot.antt =====
-- The daemon that comes up with the default configuration and the credentials in the environment.
use btcdwatch_com.Base.{◌≡◌, refl, [], Option, none, some, Bool, true, false, if◌then◌else◌}
use btcdwatch_com.Base.Action.{ok}
use btcdwatch_com.Base.Text.{Text, codes, text_eq}
use btcdwatch_com.Config.{Config, Host, load}
use btcdwatch_com.Daemon.{Daemon}
use btcdwatch_com.Daemon.Boot.{boot, config_path}
use btcdwatch_com.Daemon.Guard.{IsGuarded, boot-IsGuarded}
use btcdwatch_com.Hub.{new_hub}
use btcdwatch_com.Live.{new_live}
use btcdwatch_com.Node
use btcdwatch_com.Node.{new_client}
use btcdwatch_com.Node.Connect.{ConnConfig}
use btcdwatch_com.Service.{new_service}
use btcdwatch_com.Tests.Config.{host}
use btcdwatch_com.Tests.Doubles.{milli}

-- A host whose environment names the credentials, and nothing else.
abbrev named_host : Host milli
named_host = record host {
  lookup_env = λ key.
      if text_eq key (codes "BTCDWATCH_RPC_USER")
      then some (codes "u")
      else if text_eq key (codes "BTCDWATCH_RPC_PASS")
      then some (codes "p")
      else none;
}

abbrev no_file : Text → Option Text
no_file path = none

abbrev every_config : ConnConfig → Bool
every_config conn = true

abbrev pub up : Daemon milli
up = record {
  client = Node.start new_client;
  limiter = none;
  server = record {
    service = new_service milli false;
    live = new_live;
    scans = 0;
    network = codes "regtest";
    started = 0;
  };
  hub = new_hub 0;
}

up_boots : boot named_host no_file every_config [] false [] true 0 ≡ ok up
unfolding boot load
up_boots = refl

boot-IsGuarded_example :
    (c : Config milli) × (conn : ConnConfig) × IsGuarded named_host no_file every_config
      (config_path [] false)
      true
      c
      conn
      up
boot-IsGuarded_example =
    boot-IsGuarded named_host no_file every_config [] false [] true 0 up true up_boots
