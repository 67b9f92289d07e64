-- ===== src/Tasks/Message.antt =====
-- include/task_base/util.hpp: `MSG_TYPE` and `TASK_MSG`, and what include/adapter/redis/util.hpp puts
-- into a message. A `TASK_ANY` is one of the types that the code stores in it.
use dbwrapper.Prelude.{ℕ, List, ℤ, codes, Bool, true, false}

pub data MsgType : Type 0 where
  task_hb task_restart task_put task_get task_del task_ping : MsgType
  task_redis_add_conn task_redis_del_conn task_redis_raw task_redis_format_raw : MsgType
  task_redis_put task_redis_get task_redis_del task_redis_ping : MsgType
  task_hb_rsp task_redis_restart : MsgType
  task_hb_req : MsgType
  task_max : MsgType

-- TASK_REDIS_FORMAT_RAW_MSG and TASK_REDIS_RAW_MSG; `cb` is the address of a function.
pub record RawMsg : Type 0 where
  pub usr_data : ℕ
  pub cb : ℕ
  pub body : List ℕ

pub record AddConnPayload : Type 0 where
  pub ip : List ℕ
  pub port : ℤ

pub data Body : Type 0 where
  empty : Body
  text : List ℕ → Body
  format_raw : RawMsg → Body
  raw : RawMsg → Body
  add_conn_payload : AddConnPayload → Body

pub record TaskMsg : Type 0 where
  pub type : MsgType
  pub seq_id : ℕ
  pub from : List ℕ
  pub to : List ℕ
  pub body : Body

-- TASK0
abbrev pub task0 : List ℕ
task0 = codes "task0"

abbrev pub is_hb_req : MsgType → Bool
is_hb_req task_hb_req = true
is_hb_req _ = false

abbrev pub is_hb_rsp : MsgType → Bool
is_hb_rsp task_hb_rsp = true
is_hb_rsp _ = false
