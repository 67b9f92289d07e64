-- ===== src/Redis/Lifecycle.antt =====
-- The connection of the worker, `connectCallback`, `disconnectCallback` and the reconnect. The
-- worker is the first task of the map, as WORKER001 is before task0.
use dbwrapper.Prelude.{
  ℕ, ℤ, ◌≡◌, refl, Bool, true, false, List, [], ◌∷◌, none, some, if◌then◌else◌, arith,
}
use dbwrapper.Prelude.Order.{string_eqb_refl}
use dbwrapper.Prelude.OrderedMap.{find, adjust}
use dbwrapper.Tasks.Message.{task_redis_format_raw, RawMsg, format_raw}
use dbwrapper.Tasks.Task.{Task}
use dbwrapper.Tasks.TaskManager.{TaskManager, get_task_ptr_p_with_detail_info}
use dbwrapper.Redis.Worker.{
  Hiredis, Worker, Callbacks, connected, with_worker, set_conn_stat, worker_on_message,
}
use dbwrapper.Redis.Reconnect.{
  worker_with, redis_async_reconnect, connect_callback, disconnect_callback,
}

module _ {F X : Type 0} where
  -- A manager of tasks whose first task is a worker with the context `c` as its details.
  abbrev pub headed :
      List ℕ
      → ℕ
      → Worker X
      → Task F (Worker X)
      → List (List ℕ × Task F (Worker X))
      → TaskManager F (Worker X)
      → TaskManager F (Worker X)
  headed name c w t m s = record s {
    task_map = (name, record (with_worker w t) { detail_info = c }) ∷ m;
  }

  worker_with-headed :
      (name : List ℕ) (c : ℕ) (w : Worker X) (t : Task F (Worker X))
      (m : List (List ℕ × Task F (Worker X))) (s : TaskManager F (Worker X))
      → worker_with c (headed name c w t m s)
        ≡ some (name, some (w, record (with_worker w t) { detail_info = c }))
  unfolding worker_with get_task_ptr_p_with_detail_info find
  worker_with-headed name c w t m s = ground (arith, string_eqb_refl name)

  worker_with-null :
      (c : ℕ) (s : TaskManager F (Worker X))
      → get_task_ptr_p_with_detail_info c s ≡ none
      → worker_with c s ≡ none
  unfolding worker_with
  worker_with-null c s e = rw (worker_with, e) refl

  connect_callback-headed :
      (name : List ℕ) (c : ℕ) (w : Worker X) (t : Task F (Worker X))
      (m : List (List ℕ × Task F (Worker X))) (s : TaskManager F (Worker X))
      → connect_callback c true (headed name c w t m s)
        ≡ some (headed name c (set_conn_stat connected w) t m s)
  unfolding connect_callback adjust
  connect_callback-headed name c w t m s =
      rw (connect_callback, worker_with-headed name c w t m s, string_eqb_refl name) refl

module _ {X : Type 0} (H : Hiredis X) (cbs : Callbacks) where
  -- What hiredis holds after the calls that make a connection anew.
  abbrev pub connected_anew : List ℕ → ℤ → X → ℕ × X
  connected_anew host port x =
      let (new_c, x') = H.connect host port x in
      (
        new_c,
        H.set_disconnect_callback new_c cbs.on_disconnect
            (H.set_connect_callback new_c cbs.on_connect (H.attach new_c x')),
      )

module _ {F X : Type 0} (H : Hiredis X) (cbs : Callbacks) where
  redis_async_reconnect-headed :
      (name : List ℕ) (c : ℕ) (w : Worker X) (t : Task F (Worker X))
      (m : List (List ℕ × Task F (Worker X))) (s : TaskManager F (Worker X)) (host : List ℕ)
      (port : ℤ)
      → H.tcp c w.hiredis ≡ some (host, port)
      → redis_async_reconnect H cbs c (headed name c w t m s) ≡ (
          let (new_c, x) = connected_anew H cbs host port w.hiredis in
          some (headed name new_c (record w { hiredis = x }) t m s))
  unfolding redis_async_reconnect adjust
  redis_async_reconnect-headed name c w t m s host port read =
      rw (redis_async_reconnect, worker_with-headed name c w t m s, read, string_eqb_refl name) refl

  -- After `redisAsyncReconnect` of a context that can still be read, the worker still sends its
  -- commands through that context, not through the new one.
  pub redis_async_reconnect-lost_context :
      (name : List ℕ) (c : ℕ) (w : Worker X) (t : Task F (Worker X))
      (m : List (List ℕ × Task F (Worker X))) (s : TaskManager F (Worker X)) (msg : RawMsg) (n : ℕ)
      (host : List ℕ) (port : ℤ)
      → H.tcp c w.hiredis ≡ some (host, port)
      → w.context ≡ some c
      → (s' : TaskManager F (Worker X)) × (w' : Worker X) × (t' : Task F (Worker X))
        × (redis_async_reconnect H cbs c (headed name c w t m s) ≡ some s')
        × (worker_with (connected_anew H cbs host port w.hiredis).0 s' ≡ some (name, some (w', t')))
        × (worker_on_message H
              (record {
                type = task_redis_format_raw;
                seq_id = n;
                from = [];
                to = [];
                body = format_raw msg;
              })
              w'
              t'
            ≡ some (
                with_worker
                  (record w' {
                    hiredis = H.formatted_command c msg.cb msg.usr_data msg.body w'.hiredis;
                  })
                  t'))
  unfolding worker_on_message
  redis_async_reconnect-lost_context name c w t m s msg n host port read e =
      let new_c = (connected_anew H cbs host port w.hiredis).0 in
      let w' : Worker X = record w { hiredis = (connected_anew H cbs host port w.hiredis).1 } in
      (
        _,
        w',
        record (with_worker w' t) { detail_info = new_c },
        redis_async_reconnect-headed name c w t m s host port read,
        worker_with-headed name new_c w' t m s,
        simp e,
      )

  -- When no task has the lost context as its details, `disconnectCallback` uses a null pointer, unless
  -- the status is an error.
  disconnect_callback-null :
      (at c : ℕ) (ok : Bool) (s : TaskManager F (Worker X))
      → get_task_ptr_p_with_detail_info c s ≡ none
      → disconnect_callback H cbs at c ok s ≡ (if ok then none else some s)
  unfolding disconnect_callback redis_async_reconnect
  disconnect_callback-null at c true s e =
      rw
        (disconnect_callback, worker_with-null c s e, redis_async_reconnect, worker_with-null c s e)
        refl
  disconnect_callback-null at c false s e = refl
