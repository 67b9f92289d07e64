-- ===== src/Tasks/Exchange.antt =====
-- A request of the heartbeat through both queues: the task's `process_msg` answers it, and that of
-- TASK0 records the answer.
use mathlib.Core.List.{append-nil, append_assoc}
use dbwrapper.Prelude.{
  ℕ, ◌≡◌, ◌∙◌, refl, true, false, List, [], ◌∷◌, ◌++◌, Option, some, arith, All, All-append, inl,
  inr, Bool-cases, map,
}
use dbwrapper.Prelude.Order.{string_eqb, string_eqb_refl}
use dbwrapper.Prelude.OrderedMap.{find}
use dbwrapper.Tasks.Message.{TaskMsg, is_hb_req, task0}
use dbwrapper.Tasks.Task.{EventFd, Task, HbState, swap_queues, in_queue}
use dbwrapper.Tasks.TaskManager.{TaskManager, with_task, send2task, deliver_to, write_one}
use dbwrapper.Tasks.ManagerTask.{with_hb}
use dbwrapper.Tasks.Processing.{on_message, process_one, process_all, process_msg, pop, hb_rsp}
use dbwrapper.Tasks.Rounds.{queue_of, queue_of-send2task, send2task-restarts, send2task-task_map}
use dbwrapper.Tasks.Stalled.{received}
use dbwrapper.Tasks.Answers.{
  is_readable, received_all, hb_of, with_task-hb, with_hb-hb, pop-hb, pop-queue, swap_queues-hb,
  swap_queues-other, hb_rsp-readable, received_all-answer, received-readable,
}

-- What the work of a task other than TASK0 leaves alone: the calls of `restart`, and the queues of all
-- but TASK0.
abbrev pub IsApart : {F W : Type 0} → TaskManager F W → TaskManager F W → Type 0
IsApart s s' =
    (s'.restarts ≡ s.restarts)
    × ((j : List ℕ) → string_eqb j task0 ≡ false → queue_of j s' ≡ queue_of j s)

module _ {F W : Type 0} (E : EventFd F)
    (handle : List ℕ → TaskMsg → TaskManager F W → Option (TaskManager F W)) where
  on_message-task0 :
      (m : TaskMsg) (s : TaskManager F W) (h : HbState)
      → is_readable m ≡ true
      → hb_of s ≡ some h
      → on_message E handle task0 m s ≡ some (with_task task0 (with_hb (received m h)) s)
  unfolding on_message
  on_message-task0 m s h e g = ground (arith, received-readable m h e)

  -- A message for TASK0.
  process_one-task0 :
      (m : TaskMsg) (ms : List TaskMsg) (s : TaskManager F W) (h : HbState)
      → is_readable m ≡ true
      → hb_of s ≡ some h
      → (s' : TaskManager F W) × (process_one E handle task0 m ms s ≡ some s')
        × (hb_of s' ≡ some (received m h))
        × (s'.restarts ≡ s.restarts)
  unfolding process_one pop
  process_one-task0 m ms s h e g = elim (Bool-cases (is_hb_req m.type)) [
    | inl r ↦
        let g' : hb_of (pop task0 ms s) ≡ some h = rw (pop-hb task0 ms s) g in
        let done = on_message-task0 m (pop task0 ms s) h e g' in
        (
          with_task task0 (with_hb (received m h)) (pop task0 ms s),
          rw (process_one, r, string_eqb_refl task0) done,
          with_hb-hb h (received m h) (pop task0 ms s) g',
          refl,
        )
    | inr r ↦
        let s1 = with_task task0 (with_hb (received m h)) s in
        (
          pop task0 ms s1,
          rw (process_one, r, on_message-task0 m s h e g) refl,
          rw (pop-hb task0 ms s1) (with_hb-hb h (received m h) s g),
          refl,
        )
  ]

  pub process_all-task0 :
      (q : List TaskMsg) (s : TaskManager F W) (h : HbState)
      → All (λ m. is_readable m ≡ true) q
      → hb_of s ≡ some h
      → (s' : TaskManager F W) × (process_all E handle task0 q s ≡ some s')
        × (hb_of s' ≡ some (received_all q h))
        × (s'.restarts ≡ s.restarts)
  unfolding process_all
  process_all-task0 [] s h e g = (s, refl, g, refl)
  process_all-task0 (m ∷ ms) s h (e, es) g =
      let (s1, e1, g1, r1) = process_one-task0 m ms s h e g in
      let (s2, e2, g2, r2) = process_all-task0 ms s1 (received m h) es g1 in
      (s2, rw (process_all, e1) e2, g2, r2 ∙ r1)

  deliver_to-kind : (m : TaskMsg) (t : Task F W) → (deliver_to E m t).1.kind ≡ t.kind
  unfolding deliver_to write_one in_queue
  deliver_to-kind m t = ground arith

  send2task-hb :
      (k : List ℕ) (m : TaskMsg) (s : TaskManager F W) → hb_of (send2task E k m s).1 ≡ hb_of s
  send2task-hb k m s =
      rw (hb_of, send2task-task_map E k m s)
        (with_task-hb k (λ t. (deliver_to E m t).1) s (deliver_to-kind m))

  -- One request, at a task other than TASK0.
  process_one-answers :
      (k : List ℕ) (m : TaskMsg) (ms q0 : List TaskMsg) (s : TaskManager F W) (h : HbState)
      → string_eqb k task0 ≡ false
      → is_hb_req m.type ≡ true
      → hb_of s ≡ some h
      → queue_of task0 s ≡ some q0
      → (s' : TaskManager F W) × (process_one E handle k m ms s ≡ some s')
        × (hb_of s' ≡ some h)
        × (queue_of task0 s' ≡ some (q0 ++ hb_rsp k m ∷ []))
        × IsApart s s'
  unfolding process_one pop
  process_one-answers k m ms q0 s h n a g e =
      let popped = pop k ms s in
      let e' : queue_of task0 popped ≡ some q0 = rw (pop-queue k task0 ms s) e in
      (
        (send2task E task0 (hb_rsp k m) popped).1,
        rw (process_one, a, n) refl,
        rw (send2task-hb task0 (hb_rsp k m) popped, pop-hb k ms s) g,
        rw (queue_of-send2task E task0 task0 (hb_rsp k m) popped, e', string_eqb_refl task0) refl,
        (
          send2task-restarts E task0 (hb_rsp k m) popped,
          λ j u.
              ground (arith, queue_of-send2task E j task0 (hb_rsp k m) popped, pop-queue k j ms s),
        ),
      )

  pub process_all-answers :
      (k : List ℕ) (q q0 : List TaskMsg) (s : TaskManager F W) (h : HbState)
      → string_eqb k task0 ≡ false
      → All (λ m. is_hb_req m.type ≡ true) q
      → hb_of s ≡ some h
      → queue_of task0 s ≡ some q0
      → (s' : TaskManager F W) × (process_all E handle k q s ≡ some s')
        × (hb_of s' ≡ some h)
        × (queue_of task0 s' ≡ some (q0 ++ map (hb_rsp k) q))
        × IsApart s s'
  unfolding process_all
  process_all-answers k [] q0 s h n a g e = (s, refl, g, rw (append-nil q0) e, (refl, λ j u. refl))
  process_all-answers k (m ∷ ms) q0 s h n (a, as_) g e =
      let (s1, e1, g1, q1, (r1, o1)) = process_one-answers k m ms q0 s h n a g e in
      let (s2, e2, g2, q2, (r2, o2)) =
        process_all-answers k ms (q0 ++ hb_rsp k m ∷ []) s1 h n as_ g1 q1 in
      (
        s2,
        rw (process_all, e1) e2,
        g2,
        rw q2 (rw (append_assoc q0 (hb_rsp k m ∷ []) (map (hb_rsp k) ms)) refl),
        (r2 ∙ r1, λ j u. o2 j u ∙ o1 j u),
      )

  pub process_msg-queue :
      (k : List ℕ) (q : List TaskMsg) (s : TaskManager F W)
      → queue_of k s ≡ some q
      → process_msg E handle k s ≡ process_all E handle k q (with_task k swap_queues s)
  unfolding process_msg
  process_msg-queue k q s e = ground arith

  -- A task with requests of the heartbeat in its queue, other than TASK0, answers each, and TASK0,
  -- when it processes its queue after that and can read what lay there before, has recorded that the
  -- task answered.
  process_msg-recorded :
      (k : List ℕ) (m : TaskMsg) (ms q0 : List TaskMsg) (s : TaskManager F W) (h : HbState)
      → string_eqb k task0 ≡ false
      → queue_of k s ≡ some (m ∷ ms)
      → All (λ m'. is_hb_req m'.type ≡ true) (m ∷ ms)
      → hb_of s ≡ some h
      → queue_of task0 s ≡ some q0
      → All (λ m'. is_readable m' ≡ true) q0
      → (s1 : TaskManager F W) × (s2 : TaskManager F W) × (h' : HbState) × (process_msg E handle k s
          ≡ some s1)
        × (process_msg E handle task0 s1 ≡ some s2)
        × (hb_of s2 ≡ some h')
        × (find k h'.hb_map ≡ some true)
  process_msg-recorded k m ms q0 s h n e a g q r =
      let swapped = with_task k swap_queues s in
      let q' : queue_of task0 swapped ≡ some q0 = rw (swap_queues-other k s n) q in
      let (s1, e1, g1, q1, _) =
        process_all-answers k (m ∷ ms) q0 swapped h n a (rw (swap_queues-hb k s) g) q' in
      let all = q0 ++ map (hb_rsp k) (m ∷ ms) in
      let (s2, e2, g2, _) =
        process_all-task0 all (with_task task0 swap_queues s1) h
          (All-append _ q0 (map (hb_rsp k) (m ∷ ms)) r (hb_rsp-readable k (m ∷ ms)))
          (rw (swap_queues-hb task0 s1) g1) in
      (
        s1,
        s2,
        received_all all h,
        rw (process_msg-queue k (m ∷ ms) s e) e1,
        rw (process_msg-queue task0 all s1 q1) e2,
        g2,
        received_all-answer k m q0 (map (hb_rsp k) ms) h,
      )
