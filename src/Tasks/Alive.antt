-- ===== src/Tasks/Alive.antt =====
-- A whole exchange of the heartbeat: the tasks process their queues one after another, then TASK0 does,
-- and the next round finds that all have answered.
use mathlib.Core.List.{append_assoc, append-nil}
use mathlib.Core.Path.{subst}
use dbwrapper.Prelude.{
  ℕ, ◌≡◌, ◌∙◌, ap, refl, true, false, List, [], ◌∷◌, ◌++◌, Option, none, some, All, All-append, map,
}
use dbwrapper.Prelude.Order.{string_eqb}
use dbwrapper.Prelude.OrderedMap.{find-each}
use dbwrapper.Tasks.Message.{TaskMsg, is_hb_req, task0}
use dbwrapper.Tasks.Task.{EventFd, HbState, swap_queues}
use dbwrapper.Tasks.TaskManager.{TaskManager, with_task}
use dbwrapper.Tasks.ManagerTask.{hb_round}
use dbwrapper.Tasks.Processing.{process_msg, hb_rsp}
use dbwrapper.Tasks.Rounds.{names, queue_of, hb_round-restarts}
use dbwrapper.Tasks.Answers.{
  is_readable, received_all, hb_of, received_all-answer, hb_rsp-readable, swap_queues-hb,
  swap_queues-other, swap_queues-apart,
}
use dbwrapper.Tasks.Exchange.{process_all-answers, process_all-task0, process_msg-queue}
use dbwrapper.Tasks.Watch.{
  IsWatching, IsRecorded, received_all-IsWatching, not_overdue, keep_if-none, some_gone-none,
}

module _ {F W : Type 0} where
  -- Requests of the heartbeat, and nothing else, wait for a task other than TASK0.
  abbrev pub IsAsked : TaskManager F W → List ℕ → Type 0
  IsAsked s k =
      (string_eqb k task0 ≡ false)
      × ((m : TaskMsg) × (ms : List TaskMsg) × (queue_of k s ≡ some (m ∷ ms))
          × All (λ m'. is_hb_req m'.type ≡ true) (m ∷ ms))

  IsAsked-kept :
      (s s' : TaskManager F W) (k : List ℕ) (l : List (List ℕ))
      → ((j : List ℕ)
          → string_eqb j task0 ≡ false
          → string_eqb j k ≡ false
          → queue_of j s' ≡ queue_of j s)
      → All (λ j. string_eqb j k ≡ false) l
      → All (IsAsked s) l
      → All (IsAsked s') l
  IsAsked-kept s s' k [] o d a = tt
  IsAsked-kept s s' k (j ∷ l) o (d, ds) ((n, (m, ms, e, r)), as_) =
      ((n, (m, ms, o j n d ∙ e, r)), IsAsked-kept s s' k l o ds as_)

-- No name occurs twice.
abbrev pub IsDistinct : List (List ℕ) → Type 0
IsDistinct [] = Unit
IsDistinct (k ∷ l) = All (λ j. string_eqb j k ≡ false) l × IsDistinct l

module _ {F W : Type 0} (E : EventFd F)
    (handle : List ℕ → TaskMsg → TaskManager F W → Option (TaskManager F W)) where
  -- The tasks of a list process their queues in turn.
  unfoldable pub process_tasks : List (List ℕ) → TaskManager F W → Option (TaskManager F W)
  unfolding process_msg
  process_tasks [] s = some s
  process_tasks (k ∷ l) s = elim (process_msg E handle k s) [
    | none ↦ none
    | some s' ↦ process_tasks l s'
  ]

  process_msg-answers :
      (k : List ℕ) (q0 : List TaskMsg) (s : TaskManager F W) (h : HbState)
      → IsAsked s k
      → hb_of s ≡ some h
      → queue_of task0 s ≡ some q0
      → (s' : TaskManager F W) × (m : TaskMsg) × (ms : List TaskMsg) × (process_msg E handle k s
          ≡ some s')
        × (hb_of s' ≡ some h)
        × (queue_of task0 s' ≡ some (q0 ++ map (hb_rsp k) (m ∷ ms)))
        × (s'.restarts ≡ s.restarts)
        × ((j : List ℕ)
            → string_eqb j task0 ≡ false
            → string_eqb j k ≡ false
            → queue_of j s' ≡ queue_of j s)
  process_msg-answers k q0 s h (n, (m, ms, e, a)) g q =
      let swapped = with_task k swap_queues s in
      let (s1, e1, g1, q1, (r1, o1)) =
        process_all-answers E handle k (m ∷ ms) q0 swapped h n a (rw (swap_queues-hb k s) g)
          (rw (swap_queues-other k s n) q) in
      (
        s1,
        m,
        ms,
        rw (process_msg-queue E handle k (m ∷ ms) s e) e1,
        g1,
        q1,
        r1,
        λ j u d. o1 j u ∙ swap_queues-apart k j s d,
      )

  process_tasks-answers :
      (l : List (List ℕ)) (q0 : List TaskMsg) (s : TaskManager F W) (h : HbState)
      → All (IsAsked s) l
      → IsDistinct l
      → hb_of s ≡ some h
      → queue_of task0 s ≡ some q0
      → (s' : TaskManager F W) × (q : List TaskMsg) × (process_tasks l s ≡ some s')
        × (hb_of s' ≡ some h)
        × (queue_of task0 s' ≡ some (q0 ++ q))
        × All (λ m. is_readable m ≡ true) q
        × (s'.restarts ≡ s.restarts)
        × IsRecorded l (received_all (q0 ++ q) h).hb_map
  unfolding process_tasks
  process_tasks-answers [] q0 s h a d g q = (s, [], refl, g, rw (append-nil q0) q, tt, refl, tt)
  process_tasks-answers (k ∷ l) q0 s h (a, as_) (d, ds) g q =
      let (s1, m, ms, e1, g1, q1, r1, o1) = process_msg-answers k q0 s h a g q in
      let chunk = map (hb_rsp k) (m ∷ ms) in
      let (s2, rest, e2, g2, q2, b2, r2, c2) =
        process_tasks-answers l (q0 ++ chunk) s1 h (IsAsked-kept s s1 k l o1 d as_) ds g1 q1 in
      let same = append_assoc q0 chunk rest in
      (
        s2,
        chunk ++ rest,
        rw (process_tasks, e1) e2,
        g2,
        q2 ∙ ap some same,
        All-append _ chunk rest (hb_rsp-readable k (m ∷ ms)) b2,
        r2 ∙ r1,
        (
          received_all-answer k m q0 (map (hb_rsp k) ms ++ rest) h,
          subst (λ x. IsRecorded l (received_all x h).hb_map) same c2,
        ),
      )

  -- In any round but the first no task is restarted, when each awaited task other than TASK0 has
  -- processed its queue, with nothing but requests of the heartbeat in it, since the requests were
  -- sent, and TASK0 then has processed its own, where it could read what lay there before.
  pub hb_round-alive :
      (l : List (List ℕ)) (q0 : List TaskMsg) (s : TaskManager F W) (h : HbState)
      → All (IsAsked s) l
      → IsDistinct l
      → IsWatching l h
      → hb_of s ≡ some h
      → queue_of task0 s ≡ some q0
      → All (λ m. is_readable m ≡ true) q0
      → (s1 : TaskManager F W) × (s2 : TaskManager F W) × (h' : HbState) × (process_tasks l s
          ≡ some s1)
        × (process_msg E handle task0 s1 ≡ some s2)
        × (hb_of s2 ≡ some h')
        × ((hb_round E h' s2).1.restarts ≡ s.restarts)
  hb_round-alive l q0 s h a d w g q b =
      let (s1, q1, e1, g1, u1, b1, r1, c1) = process_tasks-answers l q0 s h a d g q in
      let all = q0 ++ q1 in
      let swapped = with_task task0 swap_queues s1 in
      let (s2, e2, g2, r2) =
        process_all-task0 E handle all swapped h (All-append _ q0 q1 b b1)
          (rw (swap_queues-hb task0 s1) g1) in
      let h' = received_all all h in
      let (f', o', v') = received_all-IsWatching l all h w in
      let quiet = not_overdue l h'.hb_map h'.hb_map c1 (find-each h'.hb_map o') v' in
      let restarted =
        (hb_round-restarts E h' s2 f' (some_gone-none h'.hb_map s2.task_map quiet)).0 in
      (
        s1,
        s2,
        h',
        e1,
        rw (process_msg-queue E handle task0 all s1 u1) e2,
        g2,
        restarted
            ∙ ap (λ x. s2.restarts ++ names x) (keep_if-none h'.hb_map quiet)
            ∙ append-nil s2.restarts
            ∙ r2
            ∙ r1,
      )
