-- ===== src/Tasks/Rounds.antt =====
-- The rounds of the heartbeat of `manager_task`: who is restarted, what is sent, and when it stops.
use mathlib.Core.List.{append-nil, append_assoc}
use dbwrapper.Prelude.{
  ◌%◌, ◌^◌, ◌+◌, ℕ, ◌≡◌, refl, Bool, true, false, not, ◌&&◌, List, [], ◌∷◌, ◌++◌, Option, none,
  some, if◌then◌else◌, map, keep_if, arith, inl, inr, Bool-cases, Option-cases,
}
use dbwrapper.Prelude.Order.{string_eqb}
use dbwrapper.Prelude.OrderedMap.{find, adjust, adjust-missing, find-adjust}
use dbwrapper.Tasks.Message.{TaskMsg, task_hb_req, text, task0}
use dbwrapper.Tasks.Task.{EventFd, Task, in_queue, HbState}
use dbwrapper.Tasks.TaskManager.{
  hb_req, deliver_to, write_one, TaskManager, send2task, send_parts, send_hb_to, send_hb_all,
}
use dbwrapper.Tasks.ManagerTask.{check_responses, unanswered, hb_round}

-- The entry of a task, other than TASK0, that has not answered.
abbrev pub is_overdue : List ℕ × Bool → Bool
is_overdue e = not (string_eqb e.0 task0) && not e.1

abbrev pub names {ℓ} : {A : Type ℓ} → List (List ℕ × A) → List (List ℕ)
names m = map (λ e. e.0) m

module _ {F W : Type 0} where
  abbrev pub is_missing : List (List ℕ × Task F W) → List ℕ → Bool
  is_missing m name = elim (find name m) [ none ↦ true | some _ ↦ false ]

  -- Whether a task that has not answered is no longer in the map.
  unfoldable pub some_gone : List (List ℕ × Bool) → List (List ℕ × Task F W) → Bool
  some_gone [] tasks = false
  some_gone (e ∷ m) tasks = if is_overdue e && is_missing tasks e.0 then true else some_gone m tasks

  -- The messages that wait for a task.
  abbrev pub queue_of : List ℕ → TaskManager F W → Option (List TaskMsg)
  queue_of j s = elim (find j s.task_map) [ none ↦ none | some t ↦ some t.task_queue ]

  abbrev pub log_restart : List (List ℕ) → TaskManager F W → TaskManager F W
  log_restart called s = record s { restarts = s.restarts ++ called }

  pub check_responses-all :
      (m : List (List ℕ × Bool)) (s : TaskManager F W)
      → some_gone m s.task_map ≡ false
      → check_responses m s ≡ (true, log_restart (names (keep_if is_overdue m)) s)
  unfolding check_responses some_gone find
  check_responses-all [] s h = rw (append-nil s.restarts)
  check_responses-all ((name, true) ∷ m) s h = ground (arith, check_responses-all m s)
  check_responses-all ((name, false) ∷ m) s h = ground (
    arith,
    check_responses-all m s,
    check_responses-all m (log_restart (name ∷ []) s),
    append_assoc s.restarts (name ∷ []) (names (keep_if is_overdue m)),
  )

  pub check_responses-done :
      (m : List (List ℕ × Bool)) (s : TaskManager F W)
      → (check_responses m s).0 ≡ not (some_gone m s.task_map)
  unfolding check_responses some_gone find
  check_responses-done [] s = refl
  check_responses-done ((name, true) ∷ m) s = ground (arith, check_responses-done m s)
  check_responses-done ((name, false) ∷ m) s =
      ground (arith, check_responses-done m s, check_responses-done m (log_restart (name ∷ []) s))

  pub check_responses-task_map :
      (m : List (List ℕ × Bool)) (s : TaskManager F W)
      → (check_responses m s).1.task_map ≡ s.task_map
  unfolding check_responses find
  check_responses-task_map [] s = refl
  check_responses-task_map ((name, true) ∷ m) s = ground (arith, check_responses-task_map m s)
  check_responses-task_map ((name, false) ∷ m) s =
      ground (
        arith,
        check_responses-task_map m s,
        check_responses-task_map m (log_restart (name ∷ []) s),
      )

module _ {F W : Type 0} (E : EventFd F) where
  pub send2task-restarts :
      (name : List ℕ) (m : TaskMsg) (s : TaskManager F W)
      → (send2task E name m s).1.restarts ≡ s.restarts
  unfolding send2task
  send2task-restarts name m s = ground arith

  send_hb_to-restarts :
      (l : List (List ℕ)) (s : TaskManager F W) → (send_hb_to E l s).restarts ≡ s.restarts
  unfolding send_hb_to send_parts
  send_hb_to-restarts [] s = refl
  send_hb_to-restarts (name ∷ l) s =
      let sent = (send_parts E name task_hb_req (text name) s.seq_id s).1 in
      ground (
        arith,
        send_hb_to-restarts l s,
        send_hb_to-restarts l (record sent { seq_id = (s.seq_id + 1) % 2 ^ 32 }),
        send2task-restarts name (hb_req name s.seq_id) s,
      )

  pub hb_round-restarts :
      (h : HbState) (s : TaskManager F W)
      → h.first_loop ≡ false
      → some_gone h.hb_map s.task_map ≡ false
      → ((hb_round E h s).1.restarts ≡ s.restarts ++ names (keep_if is_overdue h.hb_map))
        × ((hb_round E h s).0.hb_map ≡ unanswered s.task_map)
  unfolding hb_round send_hb_all
  hb_round-restarts h s e g =
      let checked = log_restart (names (keep_if is_overdue h.hb_map)) s in
      rw (e, check_responses-all h.hb_map s g, send_hb_to-restarts (names s.task_map) checked)
        (refl, refl)

-- The requests to a task in a pass over names.
abbrev pub requests : List ℕ → List (List ℕ) → ℕ → List TaskMsg
requests j [] n = []
requests j (name ∷ l) n =
    let next = requests j l ((n + 1) % 2 ^ 32) in
    if string_eqb name task0
    then requests j l n
    else if string_eqb j name
    then hb_req name n ∷ next
    else next

module _ {F W : Type 0} (E : EventFd F) where
  deliver_to-queue :
      (m : TaskMsg) (t : Task F W) → (deliver_to E m t).1.task_queue ≡ t.task_queue ++ m ∷ []
  unfolding deliver_to write_one in_queue
  deliver_to-queue m t = ground arith

  pub send2task-task_map :
      (name : List ℕ) (m : TaskMsg) (s : TaskManager F W)
      → (send2task E name m s).1.task_map ≡ adjust name (λ t. (deliver_to E m t).1) s.task_map
  unfolding send2task
  send2task-task_map name m s =
      ground (arith, adjust-missing name (λ t. (deliver_to E m t).1) s.task_map)

  pub queue_of-send2task :
      (j name : List ℕ) (m : TaskMsg) (s : TaskManager F W)
      → queue_of j (send2task E name m s).1 ≡ (elim (queue_of j s) [
        | none ↦ none
        | some q ↦ some (if string_eqb j name then q ++ m ∷ [] else q)
      ])
  queue_of-send2task j name m s =
      let f : Task F W → Task F W = λ t. (deliver_to E m t).1 in
      elim (Option-cases (find j s.task_map)) [
        | inl e ↦ ground (arith, send2task-task_map name m s, find-adjust name j f s.task_map)
        | inr (t, e) ↦ ground (
          arith,
          send2task-task_map name m s,
          find-adjust name j f s.task_map,
          deliver_to-queue m t,
        )
      ]

  send_hb_to-requests :
      (j : List ℕ) (l : List (List ℕ)) (s : TaskManager F W) (q : List TaskMsg)
      → queue_of j s ≡ some q
      → queue_of j (send_hb_to E l s) ≡ some (q ++ requests j l s.seq_id)
  unfolding send_hb_to send_parts
  send_hb_to-requests j [] s q e = rw (append-nil q) e
  send_hb_to-requests j (name ∷ l) s q e = elim (Bool-cases (string_eqb name task0)) [
    | inl h ↦ rw h (send_hb_to-requests j l s q e)
    | inr h ↦ rw h (
        let m = hb_req name s.seq_id in
        let asked : TaskManager F W = record (send2task E name m s).1 {
          seq_id = (s.seq_id + 1) % 2 ^ 32;
        } in
        let q' = if string_eqb j name then q ++ m ∷ [] else q in
        let e' : queue_of j asked ≡ some q' = rw (queue_of-send2task j name m s, e) refl in
        rw (send_hb_to-requests j l asked q' e')
          (ground (arith, append_assoc q (m ∷ []) (requests j l ((s.seq_id + 1) % 2 ^ 32)))))
  ]

  -- A pass of `send_hb_all` puts behind the messages of a task its request, with the number that the
  -- pass has then reached (modulo 2^32), and nothing behind those of TASK0.
  pub send_hb_all-requests :
      (j : List ℕ) (s : TaskManager F W) (q : List TaskMsg)
      → queue_of j s ≡ some q
      → queue_of j (send_hb_all E s) ≡ some (q ++ requests j (names s.task_map) s.seq_id)
  unfolding send_hb_all
  send_hb_all-requests j s q e = send_hb_to-requests j (names s.task_map) s q e
