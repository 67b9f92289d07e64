-- ===== src/ConnManager/Polling.antt =====
-- include/connManager/connManager.h: the callbacks that `connManager()` gives to its service
-- discovery, and the rounds that the timer of include/connManager/serviceDiscovery.h then runs.
-- `address` gives the addresses of the connections that `add_conn` allocates in a state.
pub mod Once
use dbwrapper.Prelude.{ℕ, zero, suc, List, [], ◌∷◌, Option, none, some, pos, codes}
use dbwrapper.ConnManager.Info.{ConnInfo}
use dbwrapper.ConnManager.Manager.{World, add_conn, del_conn}
use dbwrapper.ConnManager.Discovery.{ServiceDiscovery, Outcome, done, undefined, get_conn_info}

-- What the callback of `setGetConnInfoCb` puts in its list.
unfoldable pub local_redis : ConnInfo
local_redis = record {
  source_ip = [];
  source_port = [];
  dest_ip = codes "127.0.0.1";
  dest_port = codes "6379";
  type = pos 0;
}

-- The discovery of a new manager.
unfoldable pub new_discovery : (World → ℕ → ℕ) → ServiceDiscovery World
unfolding local_redis
new_discovery address = record {
  conn_list = [];
  get_conn_f = some (λ _. local_redis ∷ []);
  cfg_inc = λ info w. add_conn (address w) info w;
  cfg_dec = λ info w. del_conn info w;
}

-- `startForever` of `getConnInfo`: a number of rounds.
unfoldable pub polls :
    {S : Type 0} → ℕ → ServiceDiscovery S → S → Outcome S (ServiceDiscovery S × S)
unfolding get_conn_info
polls zero d s = done (d, s)
polls (suc n) d s = elim (get_conn_info d s) [
  | undefined t ↦ undefined t
  | done (_, d', s') ↦ polls n d' s'
]
