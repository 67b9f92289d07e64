-- ===== src/Translib/Loop/Lives.antt =====
-- The life of a loop: its place in the table of loops, and the end of its thread.
use dbwrapper.Prelude.{
  ℕ, ◌+◌, ◌%◌, ◌^◌, ◌≡◌, ◌∙◌, refl, Bool, true, false, List, [], ◌∷◌, none, some, if◌then◌else◌,
  remove_if, ◌==◌, arith,
}
use dbwrapper.Translib.Loop.{
  Loop, Registry, running, finished, loop_at, new_loop, get, run_begin, run_end, start, stop, wait,
  destroy,
}

pub loop_at-remove :
    (id j : ℕ) (m : List (ℕ × ℕ))
    → loop_at j (remove_if (λ e. e.0 == id) m) ≡ (if j == id then none else loop_at j m)
loop_at-remove id j [] = ground arith
loop_at-remove id j (e ∷ m) = ground (arith, loop_at-remove id j m)

-- A constructor that throws, because there is no event base, leaves the address of the loop that never
-- came to be in the table, where `get` finds it; any other id is found as before.
new_loop-throws :
    (address j : ℕ) (r : Registry)
    → ((new_loop false address r).0 ≡ none)
      × (get j (new_loop false address r).1
          ≡ (if j == (r.id_generater + 1) % 2 ^ 32 then some address else get j r))
unfolding new_loop get
new_loop-throws address j r =
    (refl, ground (arith, loop_at-remove ((r.id_generater + 1) % 2 ^ 32) j r.loops))

unfoldable pub stops : List Bool → Loop → Loop
unfolding stop
stops [] l = l
stops (w ∷ ws) l = stops ws (stop w l)

-- What the calls of `stop` keep.
stops-thread :
    (ws : List Bool) (l : Loop)
    → ((stops ws l).thread ≡ l.thread) × ((stops ws l).status ≡ l.status) × ((stops ws l).id ≡ l.id)
unfolding stops stop
stops-thread [] l = (refl, refl, refl)
stops-thread (w ∷ ws) l =
    let (t, u, i) = stops-thread ws (stop w l) in
    (t ∙ ground arith, u ∙ ground arith, i ∙ ground arith)

destroy-running :
    (ended : Bool) (l : Loop) (r : Registry)
    → l.thread ≡ some true
    → l.status ≡ running
    → destroy ended l r
      ≡ (if ended then none else some (record r { loops = remove_if (λ e. e.0 == l.id) r.loops }))
unfolding destroy wait stop run_end
destroy-running ended l r t u = ground arith

destroy-finished :
    (ended : Bool) (l : Loop) (r : Registry)
    → l.thread ≡ some true
    → l.status ≡ finished
    → destroy ended l r ≡ none
unfolding destroy wait stop run_end
destroy-finished ended l r t u = ground arith

start-thread :
    (l : Loop)
    → (start true l).0 ≡ true
    → ((start true l).1.thread ≡ some true) × ((start true l).1.id ≡ l.id)
unfolding start
start-thread l e = ground arith

-- When a loop that was started in its own thread is destroyed, after any calls of `stop`, while it
-- runs, it leaves the table, and no other does, if the thread has not ended when `wait` looks at it;
-- if the thread has ended by then, in between or before the destructor, the program is terminated.
pub destroy-raced :
    (l : Loop) (ws : List Bool) (r : Registry)
    → (start true l).0 ≡ true
    → let begun = stops ws (run_begin (start true l).1) in
      ((r' : Registry) × (destroy false begun r ≡ some r')
        × ((j : ℕ) → get j r' ≡ (if j == l.id then none else get j r)))
      × (destroy true begun r ≡ none)
      × ((ended : Bool) → destroy ended (run_end begun) r ≡ none)
unfolding run_begin run_end get
destroy-raced l ws r e =
    let begun = run_begin (start true l).1 in
    let (t0, i0) = start-thread l e in
    let (t, u, i) = stops-thread ws begun in
    (
      (
        _,
        destroy-running false (stops ws begun) r (t ∙ t0) u,
        λ j. rw (i ∙ i0) (loop_at-remove l.id j r.loops),
      ),
      destroy-running true (stops ws begun) r (t ∙ t0) u,
      λ ended. destroy-finished ended (run_end (stops ws begun)) r (t ∙ t0) refl,
    )
