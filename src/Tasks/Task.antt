-- ===== src/Tasks/Task.antt =====
-- include/task_base/task_base.hpp: `task_base`, with the members of `manager_task`
-- (include/task_base/task_manager.hpp) and, as a type `W`, those of other subclasses.
-- An eventfd is the kernel's (`EventFd`).
pub use dbwrapper.Translib.EventFd.{EventFd}
use dbwrapper.Prelude.{
  ℕ, Bool, true, false, List, [], ◌∷◌, ◌++◌, Option, none, some, ◌==◌, if◌then◌else◌, remove_if,
}
use dbwrapper.Translib.TimerManager.{TimerManager, loop_manager, get_timer, kill_timer}
use dbwrapper.Tasks.Message.{TaskMsg, task0}

-- `manager_task`. `hb_timers` are the timers that run its heartbeat, with their intervals: the map of
-- the timer manager alone holds them. `first_loop` is the variable of the heartbeat's thread.
pub record HbState : Type 0 where
  pub hb_map : List (List ℕ × Bool)
  pub hb_tid : ℕ
  pub hb_timers : List (ℕ × ℕ)
  pub first_loop : Bool

pub data Kind (W : Type 0) : Type 0 where
  manager : HbState → Kind W
  worker : W → Kind W

pub record Task (F W : Type 0) : Type 0 where
  pub name : List ℕ
  -- `_evfd`, none for -1.
  pub evfd : Option F
  pub hb_itval : ℕ
  pub task_queue : List TaskMsg
  pub tmp_task_queue : List TaskMsg
  pub detail_info : ℕ
  pub timer_mgr : TimerManager
  -- Whether its loop was started.
  pub running : Bool
  pub kind : Kind W

module _ {F W : Type 0} where
  -- `task_base(name)`; the member for the details holds what the memory held before.
  unfoldable pub new_task : List ℕ → ℕ → Kind W → Task F W
  new_task name residue kind = record {
    name = name;
    evfd = none;
    hb_itval = 5000;
    task_queue = [];
    tmp_task_queue = [];
    detail_info = residue;
    timer_mgr = loop_manager;
    running = false;
    kind = kind;
  }

  -- `manager_task(name)`
  unfoldable pub new_manager_task : ℕ → Task F W
  unfolding new_task
  new_manager_task residue =
      new_task task0 residue
        (manager (record { hb_map = []; hb_tid = 0; hb_timers = []; first_loop = true }))

  unfoldable pub in_queue : TaskMsg → Task F W → Task F W
  in_queue msg t = record t { task_queue = t.task_queue ++ msg ∷ [] }

  -- The `swap` of the two queues in `process_msg`.
  unfoldable pub swap_queues : Task F W → Task F W
  swap_queues t = record t { task_queue = t.tmp_task_queue; tmp_task_queue = t.task_queue }

  -- `start_hb`: the timer stands at the address `at`.
  unfoldable pub start_hb : ℕ → HbState → Task F W → Task F W
  unfolding get_timer
  start_hb at h t =
      let (id, timers) = get_timer at t.timer_mgr in
      record t {
        timer_mgr = timers;
        kind = manager (record h { hb_tid = id; hb_timers = (id, t.hb_itval) ∷ h.hb_timers });
      }

  -- `killTimer`: a timer of the heartbeat that is dropped from the map is destroyed.
  unfoldable pub kill_hb_timer : ℕ → HbState → Task F W → Task F W
  unfolding kill_timer
  kill_hb_timer id h t = record t {
    timer_mgr = kill_timer id t.timer_mgr;
    kind = manager (record h { hb_timers = remove_if (λ e. e.0 == id) h.hb_timers });
  }

  -- `manager_task::set_hb_interval`, after the interval is stored.
  unfoldable pub restart_hb : ℕ → HbState → Task F W → Task F W
  unfolding start_hb kill_hb_timer
  restart_hb at h t =
      if h.hb_tid == 0
      then t
      else start_hb at (record h { hb_timers = remove_if (λ e. e.0 == h.hb_tid) h.hb_timers })
          (kill_hb_timer h.hb_tid h t)

  -- `set_hb_interval`
  unfoldable pub set_hb_interval : ℕ → ℕ → Task F W → Task F W
  unfolding restart_hb
  set_hb_interval at interval t =
      let t' = record t { hb_itval = interval } in
      elim t.kind [ manager h ↦ restart_hb at h t' | worker _ ↦ t' ]

  -- `on_before_loop`
  unfoldable pub on_before_loop : ℕ → Task F W → Task F W
  unfolding start_hb
  on_before_loop at t = elim t.kind [ manager h ↦ start_hb at h t | worker _ ↦ t ]

  -- `init`, where `opened` is what `eventfd` returns and `served` whether the server of its events
  -- could be made.
  unfoldable pub init_task : Option F → Bool → ℕ → Task F W → Bool × Task F W
  unfolding on_before_loop
  init_task none served at t = (false, record t { evfd = none })
  init_task (some f) served at t =
      let t' = record t { evfd = some f } in
      if served then (true, record (on_before_loop at t') { running = true }) else (false, t')
