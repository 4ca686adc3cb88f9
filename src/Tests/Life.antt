-- ===== src/Tests/Life.antt =====
-- A block that comes to a booted daemon with one connection.
use btcdwatch_com.Base.{[], nat_eq}
use btcdwatch_com.Base.Text.{Text, codes_eq}
use btcdwatch_com.Daemon.Life.{Site, system_of, with_system}
use btcdwatch_com.Hub.{register}
use btcdwatch_com.Ws.{read_pump}
use btcdwatch_com.Ws.Sessions.{upgrade, take_from, upgraded}
use btcdwatch_com.Tests.Boot.{up}
use btcdwatch_com.Tests.Doubles.{milli}
use btcdwatch_com.Tests.Site.{small_net}

abbrev quiet : Site milli
quiet = record { daemon = up; upgraded = 0; streams = λ j. [] }

abbrev visited : Site milli
visited = with_system quiet (upgrade small_net.decode small_net.is_for_net (system_of quiet) [])

abbrev joined : Site milli
joined = with_system visited (
    take_from (system_of visited) 0 (register 0)
      (read_pump small_net.decode small_net.is_for_net 0 []))
