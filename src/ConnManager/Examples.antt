-- ===== src/ConnManager/Examples.antt =====
-- Runs of include/connManager on concrete connections: the manager (`Manager`), and the bus, a pool
-- and the discovery (`Parts`).
mod Manager
mod Parts
mod Discovery
use dbwrapper.Prelude.{[], pos, codes}
use dbwrapper.ConnManager.Info.{ConnInfo}

abbrev pub near : ConnInfo
near = record {
  source_ip = [];
  source_port = [];
  dest_ip = codes "127.0.0.1";
  dest_port = codes "6379";
  type = pos 0;
}

abbrev pub far : ConnInfo
far = record near { dest_ip = codes "10.0.0.7"; type = pos 1 }
