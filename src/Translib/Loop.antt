-- ===== src/Translib/Loop.antt =====
-- src/translib/loop.cpp: `Loop`. Its states are those of the member `_status`; `run_begin` and
-- `run_end` are the two ends of `_run`, between which libevent runs the events. `wait` is the state
-- when it has returned, so that the thread that it joins has ended.
pub mod Lives
use dbwrapper.Prelude.{
  ℕ, ◌+◌, ◌%◌, ◌^◌, Bool, true, false, List, [], ◌∷◌, ◌++◌, Option, none, some, if◌then◌else◌,
  remove_if, ◌==◌,
}

pub data Status : Type 0 where
  init running finished : Status

-- `thread` is the member `_thread`: none for null, and whether the thread can still be joined. `breaks`
-- are the calls of `event_base_loopexit` (true) and `event_base_loopbreak` (false).
pub record Loop : Type 0 where
  pub id : ℕ
  pub thread : Option Bool
  pub status : Status
  pub breaks : List Bool

-- `_sLoops` and `_sIdGenerater`
pub record Registry : Type 0 where
  pub loops : List (ℕ × ℕ)
  pub id_generater : ℕ

abbrev pub is_finished : Status → Bool
is_finished finished = true
is_finished _ = false

abbrev pub is_init : Status → Bool
is_init init = true
is_init _ = false

-- `_sLoops[id]`
abbrev pub loop_at : ℕ → List (ℕ × ℕ) → Option ℕ
loop_at id [] = none
loop_at id (e ∷ m) = let rest = loop_at id m in if id == e.0 then some e.1 else rest

-- `Loop()` at an address, where `made` is whether `event_base_new` succeeds; none when it throws.
unfoldable pub new_loop : Bool → ℕ → Registry → Option Loop × Registry
new_loop made address r =
    let id = (r.id_generater + 1) % 2 ^ 32 in
    let r' : Registry = record {
      loops = (id, address) ∷ remove_if (λ e. e.0 == id) r.loops;
      id_generater = id;
    } in
    (
      if made then some (record { id = id; thread = none; status = init; breaks = [] }) else none,
      r',
    )

-- `get`
unfoldable pub get : ℕ → Registry → Option ℕ
get id r = loop_at id r.loops

unfoldable pub run_begin : Loop → Loop
run_begin l = record l { status = running }

unfoldable pub run_end : Loop → Loop
run_end l = record l { status = finished }

-- `start`, with `onBeforeStart` as it is in `Loop`; in the calling thread it returns after `_run`.
unfoldable pub start : Bool → Loop → Bool × Loop
unfolding run_begin run_end
start new_thread l =
    if is_init l.status
    then (true, if new_thread then record l { thread = some true } else run_end (run_begin l))
    else (false, l)

unfoldable pub stop : Bool → Loop → Loop
stop waiting l = if is_finished l.status then l else record l { breaks = l.breaks ++ waiting ∷ [] }

unfoldable pub wait : Loop → Loop
unfolding run_end
wait l = elim l.thread [
  | none ↦ l
  | some joinable ↦ if is_finished l.status then l else run_end (record l { thread = some false })
]

-- `~Loop()`, where `ended` is whether the thread ends after `stop` and before `wait` looks at the status;
-- none when the thread that is deleted can still be joined, upon which C++ terminates.
unfoldable pub destroy : Bool → Loop → Registry → Option Registry
unfolding stop wait run_end
destroy ended l r =
    let r' = record r { loops = remove_if (λ e. e.0 == l.id) r.loops } in
    let stopped = stop true l in
    elim l.thread [
      | none ↦ some r'
      | some _ ↦ elim (wait (if ended then run_end stopped else stopped)).thread [
        | none ↦ some r'
        | some true ↦ none
        | some false ↦ some r'
      ]
    ]
