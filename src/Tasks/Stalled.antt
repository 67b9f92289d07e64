-- ===== src/Tasks/Stalled.antt =====
-- What the heartbeat of `manager_task` does once a task that owes an answer was deleted.
use dbwrapper.Prelude.{ℕ, ◌≡◌, refl, Bool, true, false, List, [], ◌∷◌, none, some, arith, All}
use dbwrapper.Prelude.Order.{string_eqb, string_eqb-eq}
use dbwrapper.Prelude.OrderedMap.{find, find-assign}
use dbwrapper.Tasks.Message.{TaskMsg, Body, text, empty, format_raw, raw, add_conn_payload, task0}
use dbwrapper.Tasks.Task.{EventFd, Task, HbState}
use dbwrapper.Tasks.TaskManager.{TaskManager}
use dbwrapper.Tasks.ManagerTask.{manager_on_message, check_responses, hb_round}
use dbwrapper.Tasks.Rounds.{some_gone, check_responses-done, check_responses-task_map}

-- What happens in the thread of TASK0.
pub data HbEvent : Type 0 where
  timer_fires : HbEvent
  receives : TaskMsg → HbEvent

-- An answer in the name `k`.
abbrev pub is_from : List ℕ → Body → Bool
is_from k (text name) = string_eqb k name
is_from k _ = false

abbrev pub is_answer : List ℕ → HbEvent → Bool
is_answer k timer_fires = false
is_answer k (receives m) = is_from k m.body

-- The members after a message; an exception leaves them as they were.
unfoldable pub received : TaskMsg → HbState → HbState
unfolding manager_on_message
received m h = elim (manager_on_message m h) [ none ↦ h | some h' ↦ h' ]

received-other :
    (k : List ℕ) (m : TaskMsg) (h : HbState)
    → is_from k m.body ≡ false
    → (find k (received m h).hb_map ≡ find k h.hb_map) × ((received m h).first_loop ≡ h.first_loop)
unfolding received manager_on_message find
received-other k m h = go m.body refl
  where
    go :
        (b : Body)
        → m.body ≡ b
        → is_from k b ≡ false
        → (find k (received m h).hb_map ≡ find k h.hb_map)
          × ((received m h).first_loop ≡ h.first_loop)
    go (text name) e n = rw e (ground (arith, find-assign name k true h.hb_map))
    go empty e n = rw e (ground arith)
    go (format_raw _) e n = rw e (ground arith)
    go (raw _) e n = rw e (ground arith)
    go (add_conn_payload _) e n = rw e (ground arith)

module _ {F W : Type 0} (E : EventFd F) where
  unfoldable pub hb_step : HbEvent → HbState × TaskManager F W → HbState × TaskManager F W
  unfolding hb_round manager_on_message
  hb_step timer_fires (h, s) = hb_round E h s
  hb_step (receives m) (h, s) = (received m h, s)

  unfoldable pub hb_run : List HbEvent → HbState × TaskManager F W → HbState × TaskManager F W
  unfolding hb_step
  hb_run [] p = p
  hb_run (e ∷ es) p = hb_run es (hb_step e p)

  -- The heartbeat runs and waits for `k`, which is not in the map.
  abbrev pub IsStalled : List ℕ → HbState × TaskManager F W → Type 0
  IsStalled k (h, s) =
      (h.first_loop ≡ false) × (find k h.hb_map ≡ some false) × (find k s.task_map ≡ none)

  some_gone-find :
      (k : List ℕ) (m : List (List ℕ × Bool)) (tasks : List (List ℕ × Task F W))
      → string_eqb k task0 ≡ false
      → find k m ≡ some false
      → find k tasks ≡ none
      → some_gone m tasks ≡ true
  unfolding some_gone find
  some_gone-find k [] tasks n e g = ground arith
  some_gone-find k ((name, answered) ∷ m) tasks n e g =
      ground (arith, some_gone-find k m tasks n, string_eqb-eq k name)

  hb_step-IsStalled :
      (k : List ℕ) (e : HbEvent) (p : HbState × TaskManager F W)
      → string_eqb k task0 ≡ false
      → is_answer k e ≡ false
      → IsStalled k p
      → IsStalled k (hb_step e p) × ((hb_step e p).1.task_map ≡ p.1.task_map)
  unfolding hb_step hb_round
  hb_step-IsStalled k timer_fires (h, s) n a (l, w, g) =
      let gone = some_gone-find k h.hb_map s.task_map n w g in
      let stops : (check_responses h.hb_map s).0 ≡ false =
        rw (check_responses-done h.hb_map s, gone) refl in
      let same = check_responses-task_map h.hb_map s in
      let stalled : hb_round E h s ≡ (h, (check_responses h.hb_map s).1) = simp (l, stops) in
      rw stalled ((l, w, rw same g), same)
  hb_step-IsStalled k (receives m) (h, s) n a (l, w, g) =
      let same = received-other k m h a in ((rw same.1 l, rw same.0 w, g), refl)

  -- When a task that has not answered was deleted from the map: over the rounds of the heartbeat and
  -- the messages that TASK0 receives, as long as none is an answer in the name of that task, and where
  -- nothing else changes the map of tasks, no message reaches the queue of a task.
  pub hb_run-stalled :
      (k : List ℕ) (es : List HbEvent) (p : HbState × TaskManager F W)
      → string_eqb k task0 ≡ false
      → All (λ e. is_answer k e ≡ false) es
      → IsStalled k p
      → (hb_run es p).1.task_map ≡ p.1.task_map
  unfolding hb_run
  hb_run-stalled k [] p n a i = refl
  hb_run-stalled k (e ∷ es) p n (a, rest) i =
      let next = hb_step-IsStalled k e p n a i in
      rw (hb_run-stalled k es (hb_step e p) n rest next.0) next.1
