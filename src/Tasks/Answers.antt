-- ===== src/Tasks/Answers.antt =====
-- What the messages that TASK0 handles make of its members, and which changes of the tasks keep them.
use dbwrapper.Prelude.{
  ℕ, ◌⊎◌, ◌≡◌, refl, Bool, true, false, List, [], ◌∷◌, ◌++◌, Option, none, some, if◌then◌else◌,
  arith, All, inl, inr, Bool-cases, map, Option-cases,
}
use dbwrapper.Prelude.Order.{string_eqb, string_eqb-eq, string_eqb_refl}
use dbwrapper.Prelude.OrderedMap.{find, assign, find-assign, find-adjust}
use dbwrapper.Tasks.Message.{
  TaskMsg, Body, text, empty, format_raw, raw, add_conn_payload, is_hb_rsp, task0,
}
use dbwrapper.Tasks.Task.{Task, HbState, manager, worker, swap_queues}
use dbwrapper.Tasks.TaskManager.{TaskManager, with_task}
use dbwrapper.Tasks.ManagerTask.{manager_on_message, with_hb}
use dbwrapper.Tasks.Processing.{pop, hb_rsp}
use dbwrapper.Tasks.Rounds.{queue_of}
use dbwrapper.Tasks.Stalled.{received}

-- A message that the `on_message` of `manager_task` can read.
abbrev pub is_text : Body → Bool
is_text (text _) = true
is_text _ = false

abbrev pub is_readable : TaskMsg → Bool
is_readable m = if is_hb_rsp m.type then is_text m.body else true

-- The members of TASK0 after messages.
abbrev pub received_all : List TaskMsg → HbState → HbState
received_all [] h = h
received_all (m ∷ ms) h = received_all ms (received m h)

module _ {F W : Type 0} where
  -- The members of TASK0.
  abbrev pub hb_of : TaskManager F W → Option HbState
  hb_of s = elim (find task0 s.task_map) [
    | none ↦ none
    | some t ↦ elim t.kind [ manager h ↦ some h | worker _ ↦ none ]
  ]

  -- Changes of tasks that keep what they are.
  pub with_task-hb :
      (k : List ℕ) (f : Task F W → Task F W) (s : TaskManager F W)
      → ((t : Task F W) → (f t).kind ≡ t.kind)
      → hb_of (with_task k f s) ≡ hb_of s
  with_task-hb k f s e = elim (Option-cases (find task0 s.task_map)) [
    | inl e' ↦ ground (arith, find-adjust k task0 f s.task_map)
    | inr (t, e') ↦ ground (arith, find-adjust k task0 f s.task_map, e t)
  ]

  pub with_hb-hb :
      (h h' : HbState) (s : TaskManager F W)
      → hb_of s ≡ some h
      → hb_of (with_task task0 (with_hb h') s) ≡ some h'
  with_hb-hb h h' s e =
      ground (arith, find-adjust task0 task0 (with_hb h') s.task_map, string_eqb_refl task0)

  pub pop-hb : (k : List ℕ) (ms : List TaskMsg) (s : TaskManager F W) → hb_of (pop k ms s) ≡ hb_of s
  unfolding pop
  pop-hb k ms s = with_task-hb k (λ t. record t { tmp_task_queue = ms }) s (λ t. refl)

  pub pop-queue :
      (k j : List ℕ) (ms : List TaskMsg) (s : TaskManager F W)
      → queue_of j (pop k ms s) ≡ queue_of j s
  unfolding pop
  pop-queue k j ms s =
      ground (arith, find-adjust k j (λ t. record t { tmp_task_queue = ms }) s.task_map)

  pub swap_queues-apart :
      (k j : List ℕ) (s : TaskManager F W)
      → string_eqb j k ≡ false
      → queue_of j (with_task k swap_queues s) ≡ queue_of j s
  unfolding swap_queues
  swap_queues-apart k j s n = ground (arith, find-adjust k j swap_queues s.task_map)

  pub swap_queues-hb :
      (k : List ℕ) (s : TaskManager F W) → hb_of (with_task k swap_queues s) ≡ hb_of s
  unfolding swap_queues
  swap_queues-hb k s = with_task-hb k swap_queues s (λ t. refl)

  pub swap_queues-other :
      (k : List ℕ) (s : TaskManager F W)
      → string_eqb k task0 ≡ false
      → queue_of task0 (with_task k swap_queues s) ≡ queue_of task0 s
  swap_queues-other k s n =
      ground (
        arith,
        find-adjust k task0 swap_queues s.task_map,
        string_eqb-eq task0 k,
        string_eqb_refl k,
      )

pub hb_rsp-readable :
    (k : List ℕ) (q : List TaskMsg) → All (λ m. is_readable m ≡ true) (map (hb_rsp k) q)
hb_rsp-readable k [] = tt
hb_rsp-readable k (m ∷ q) = (refl, hb_rsp-readable k q)

-- A message leaves the members as they are, or it is the answer of a name.
pub received-cases :
    (m : TaskMsg) (h : HbState)
    → (received m h ≡ h)
      ⊎ ((name : List ℕ) × (received m h ≡ record h { hb_map = assign name true h.hb_map }))
unfolding received manager_on_message
received-cases m h = go m.body refl
  where
    go :
        (b : Body)
        → m.body ≡ b
        → (received m h ≡ h)
          ⊎ ((name : List ℕ) × (received m h ≡ record h { hb_map = assign name true h.hb_map }))
    go (text name) e = elim (Bool-cases (is_hb_rsp m.type)) [
      | inl t ↦ inr (name, rw (received, manager_on_message, t, e) refl)
      | inr t ↦ inl (rw (received, manager_on_message, t) refl)
    ]
    go empty e = inl (rw (received, manager_on_message, e) (ground arith))
    go (format_raw _) e = inl (rw (received, manager_on_message, e) (ground arith))
    go (raw _) e = inl (rw (received, manager_on_message, e) (ground arith))
    go (add_conn_payload _) e = inl (rw (received, manager_on_message, e) (ground arith))

-- Once recorded, an answer stays.
pub received-keeps :
    (k : List ℕ) (m : TaskMsg) (h : HbState)
    → find k h.hb_map ≡ some true
    → find k (received m h).hb_map ≡ some true
unfolding received manager_on_message
received-keeps k m h e = go m.body refl
  where
    go : (b : Body) → m.body ≡ b → find k (received m h).hb_map ≡ some true
    go (text name) e' = rw e' (ground (arith, find-assign name k true h.hb_map))
    go empty e' = rw e' (ground arith)
    go (format_raw _) e' = rw e' (ground arith)
    go (raw _) e' = rw e' (ground arith)
    go (add_conn_payload _) e' = rw e' (ground arith)

pub received_all-keeps :
    (k : List ℕ) (q : List TaskMsg) (h : HbState)
    → find k h.hb_map ≡ some true
    → find k (received_all q h).hb_map ≡ some true
received_all-keeps k [] h e = e
received_all-keeps k (m ∷ q) h e = received_all-keeps k q (received m h) (received-keeps k m h e)

pub received_all-answer :
    (k : List ℕ) (m : TaskMsg) (q0 q : List TaskMsg) (h : HbState)
    → find k (received_all (q0 ++ hb_rsp k m ∷ q) h).hb_map ≡ some true
unfolding received manager_on_message
received_all-answer k m [] q h =
    received_all-keeps k q (received (hb_rsp k m) h)
      (rw (find-assign k k true h.hb_map, string_eqb_refl k) refl)
received_all-answer k m (m' ∷ q0) q h = received_all-answer k m q0 q (received m' h)

pub received-readable :
    (m : TaskMsg) (h : HbState)
    → is_readable m ≡ true
    → manager_on_message m h ≡ some (received m h)
unfolding received manager_on_message
received-readable m h e = ground arith
