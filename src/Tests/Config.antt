-- ===== src/Tests/Config.antt =====
-- A load with a variable that is no boolean.
use btcdwatch_com.Base.{◌≡◌, refl, [], none, some, false, if◌then◌else◌}
use btcdwatch_com.Base.Action.{err}
use btcdwatch_com.Base.Int.{pos}
use btcdwatch_com.Base.Text.{codes, text_eq}
use btcdwatch_com.Config.{Host, load, defaults, env_vars, invalid_boolean}
use btcdwatch_com.Config.Load.{load-first_bad}
use btcdwatch_com.Tests.Doubles.{milli}

abbrev pub host : Host milli
host = record {
  lookup_env =
      λ key. if text_eq key (codes "BTCDWATCH_RPC_NOTLS") then some (codes "maybe") else none;
  parse_bool = λ v. (false, false);
  parse_float = λ v. (0, false);
  truncate = λ x. pos 0;
  read_file = λ path. none;
  unmarshal = λ text c. some c;
}

load-first_bad_example :
    load host [] ≡ err (invalid_boolean (codes "BTCDWATCH_RPC_NOTLS") (codes "maybe"))
unfolding defaults env_vars text_eq
load-first_bad_example =
    load-first_bad host [] defaults (invalid_boolean (codes "BTCDWATCH_RPC_NOTLS") (codes "maybe"))
      refl refl
