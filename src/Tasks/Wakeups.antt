-- ===== src/Tasks/Wakeups.antt =====
-- The queue of a task under several threads (`Mailbox`): nothing is lost or reordered, and no message
-- waits without a reason for the reader to wake.
use mathlib.Core.List.{append_assoc, append-nil}
use dbwrapper.Prelude.{
  ℕ, ◌<◌, ◌≡◌, refl, true, false, List, [], ◌∷◌, ◌++◌, some, ◌⊎◌, inl, inr, ◌≢◌, arith,
  Option-cases,
}
use dbwrapper.Tasks.Task.{EventFd, Task, Kind, in_queue, swap_queues}
use dbwrapper.Tasks.TaskManager.{write_one}
use dbwrapper.Tasks.Mailbox.{
  Mailbox, new_mailbox, put_message, write_event, read_event, take_queue, handle_front, MailStep,
  puts, writes, reads, takes, handles, MailReach, start, later, IsEventFd,
}

module _ {F W : Type 0} (E : EventFd F) where
  write_one-queues :
      (t : Task F W)
      → ((write_one E t).1.task_queue ≡ t.task_queue)
        × ((write_one E t).1.tmp_task_queue ≡ t.tmp_task_queue)
  unfolding write_one
  write_one-queues t = ground arith

  -- What was sent is what was handled, what the reader took, and what waits, in this order.
  abbrev pub InOrder : Mailbox F W → Type 0
  InOrder b =
      (b.sent ≡ b.handled ++ (b.task.tmp_task_queue ++ b.task.task_queue))
      × (b.woken ≡ true → b.task.tmp_task_queue ≡ [])

  MailStep-InOrder : {b b' : Mailbox F W} → MailStep E b b' → InOrder b → InOrder b'
  unfolding put_message write_event read_event take_queue handle_front write_one in_queue
      swap_queues
  MailStep-InOrder (puts m b) (e, w) =
      let t = b.task in
      (
        rw
            (
              e,
              append_assoc b.handled (t.tmp_task_queue ++ t.task_queue) (m ∷ []),
              append_assoc t.tmp_task_queue t.task_queue (m ∷ []),
            )
            refl,
        w,
      )
  MailStep-InOrder (writes b p) (e, w) =
      let (q, t) = write_one-queues b.task in (rw (q, t) e, λ i. rw t (w i))
  MailStep-InOrder (reads b f f' n i t g r) (e, w) = (e, λ _. t)
  MailStep-InOrder (takes b i) (e, w) =
      (rw (e, w i, append-nil b.task.task_queue) refl, λ c. ground (arith, c))
  MailStep-InOrder (handles m ms b i t) (e, w) = (
    rw (e, t, append_assoc b.handled (m ∷ []) (ms ++ b.task.task_queue)) refl,
    λ c. ground (arith, c),
  )

  MailReach-InOrder :
      (f : F) (name : List ℕ) (residue : ℕ) (kind : Kind W) {b : Mailbox F W}
      → MailReach E (new_mailbox f name residue kind) b
      → InOrder b
  unfolding new_mailbox
  MailReach-InOrder f name residue kind start = (refl, λ _. refl)
  MailReach-InOrder f name residue kind (later r s) =
      MailStep-InOrder s (MailReach-InOrder f name residue kind r)

  -- In every interleaving of the senders and the reader, what was sent is, in order, what was handled,
  -- what the reader took and what waits in the queue: nothing is lost, doubled or reordered.
  pub MailReach-order :
      (f : F) (name : List ℕ) (residue : ℕ) (kind : Kind W) {b : Mailbox F W}
      → MailReach E (new_mailbox f name residue kind) b
      → b.sent ≡ b.handled ++ (b.task.tmp_task_queue ++ b.task.task_queue)
  MailReach-order f name residue kind r = (MailReach-InOrder f name residue kind r).0

module _ {F W : Type 0} {E : EventFd F} (L : IsEventFd E) where
  -- After the write, whether it succeeded or not, the counter is not zero.
  write_one-count :
      (t : Task F W) (f : F)
      → t.evfd ≡ some f
      → (f' : F) × ((write_one E t).1.evfd ≡ some f') × (0 < L.count f')
  unfolding write_one
  write_one-count t f e = elim (Option-cases (E.write f)) [
    | inl n ↦ (f, ground arith, L.write-full f n)
    | inr (f', n) ↦ (f', ground arith, omega (arith, L.write-count f f' n))
  ]

  -- The task has its eventfd, and with a message in its queue its counter is not zero, or a sender
  -- is about to write, or the reader is about to take the queue.
  abbrev pub IsAwake : Mailbox F W → Type 0
  IsAwake b =
      (f : F) × (b.task.evfd ≡ some f)
      × ((b.task.task_queue ≡ []) ⊎ ((0 < L.count f) ⊎ ((0 < b.senders) ⊎ (b.woken ≡ true))))

  MailStep-IsAwake : {b b' : Mailbox F W} → MailStep E b b' → InOrder E b → IsAwake b → IsAwake b'
  unfolding put_message write_event read_event take_queue handle_front write_one in_queue
      swap_queues
  MailStep-IsAwake (puts m b) o (f, e, w) = (f, e, inr (inr (inl (omega arith))))
  MailStep-IsAwake (writes b p) o (f, e, w) =
      let (f', e', c) = write_one-count b.task f e in (f', e', inr (inl c))
  MailStep-IsAwake (reads b f' f'' n i t g r) o (f, e, w) = (f'', refl, inr (inr (inr refl)))
  MailStep-IsAwake (takes b i) o (f, e, w) = (f, e, inl (o.1 i))
  MailStep-IsAwake (handles m ms b i t) o w = w

  MailReach-IsAwake :
      (f : F) (name : List ℕ) (residue : ℕ) (kind : Kind W) {b : Mailbox F W}
      → MailReach E (new_mailbox f name residue kind) b
      → IsAwake b
  unfolding new_mailbox
  MailReach-IsAwake f name residue kind start = (f, refl, inl refl)
  MailReach-IsAwake f name residue kind (later r s) =
      MailStep-IsAwake s (MailReach-InOrder E f name residue kind r)
        (MailReach-IsAwake f name residue kind r)

  -- In every interleaving, when no sender is between its two steps and the reader has nothing left to
  -- take or to handle, a message that waits in the queue finds the reader's next read successful.
  pub MailReach-wakes :
      (f : F) (name : List ℕ) (residue : ℕ) (kind : Kind W) {b : Mailbox F W}
      → MailReach E (new_mailbox f name residue kind) b
      → b.senders ≡ 0
      → b.woken ≡ false
      → b.task.tmp_task_queue ≡ []
      → b.task.task_queue ≢ []
      → (b' : Mailbox F W) × MailStep E b b' × (b'.woken ≡ true)
  unfolding read_event
  MailReach-wakes f name residue kind {b = b} r p i t q =
      let (g, e, w) = MailReach-IsAwake f name residue kind r in
      elim (Option-cases (E.read g)) [
        | inl z ↦ elim w [
          | inl c ↦ elim (q c) [ ]
          | inr (inl c) ↦ ground (arith, L.read-zero g z, c)
          | inr (inr (inl c)) ↦ ground (arith, c, p)
          | inr (inr (inr c)) ↦ ground arith
        ]
        | inr ((n, g'), z) ↦ (read_event g' b, reads b g g' n i t e z, refl)
      ]
