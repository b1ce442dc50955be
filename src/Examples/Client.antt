-- ===== src/Examples/Client.antt =====
-- An operator asks about bob with src/bin/postfix-ratelimitctl.rs.
use postfix_ratelimitd.Base.{refl, false, true, [], ◌∷◌, none, some, ok, arith}
use postfix_ratelimitd.Base.Text.{Text, codes}
use postfix_ratelimitd.Valkey.Memory.{memory}
use postfix_ratelimitd.Control.Serving.{Round}
use postfix_ratelimitd.Control.Client.{Link, limits_sasl}
use postfix_ratelimitd.Control.Client.Main.{IsShown, main, main-shows}
use postfix_ratelimitd.Control.Client.Query.{daemon_link}
use postfix_ratelimitd.Examples.Settings.{literal, simple_redis, daemon_config, files, loaded}
use postfix_ratelimitd.Examples.Wire.{simple_json, simple_wire, simple_wire-IsWireApi}

abbrev path : Text
path = codes "/etc/conf"

abbrev served : Round simple_json simple_redis literal memory
served = record {
  cancelled = false;
  config = daemon_config;
  key_prefix = codes "postfix-ratelimitd";
  at_time = some memory.empty;
  reads = some memory.empty ∷ [];
  written = true;
}

abbrev dial : Text → Link
dial socket = daemon_link simple_json simple_wire simple_redis literal memory served

main-shows_example :
    IsShown simple_json simple_wire simple_redis literal memory served (limits_sasl (codes "bob")) (
      main simple_json simple_wire simple_redis literal files dial (
        ok (record {
          config = some path;
          socket = none;
          raw_response = false;
          command = limits_sasl (codes "bob");
        })))
main-shows_example =
    main-shows simple_json simple_wire simple_redis literal memory simple_wire-IsWireApi served refl
      refl files (some path) (codes "/run/control") dial (limits_sasl (codes "bob")) loaded refl
      refl (ground arith) (omega arith)
