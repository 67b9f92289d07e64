-- ===== src/Heartbeat/Verdicts.antt =====
-- A round judges the ping of the round before it.
use mathlib.Core.List.{append-nil, append_assoc}
use dbwrapper.Prelude.{ℕ, sym, ◌≡◌, ◌∙◌, Bool, true, false, List, [], ◌∷◌, ◌++◌, some}
use dbwrapper.Heartbeat.{Heartbeat, on_heartbeat_lost, on_heartbeat_success, beat}

-- What the rounds leave in a log: a success, a loss with its code, and a ping.
pub data Note : Type 0 where
  succeeded : Note
  lost : ℕ → Note
  pinged : Note

-- A heartbeat whose callbacks write to the log, whatever its interval.
abbrev pub logging : ℕ → Heartbeat (List Note)
logging interval = record {
  interval = interval;
  success_cb = some (λ log. log ++ succeeded ∷ []);
  lost_cb = some (λ code log. log ++ lost code ∷ []);
}

-- A ping whose answer, when there is one before the next round, sets the flag; nothing else changes it.
abbrev pub answered : Bool → Bool × List Note → Bool × List Note
answered true (_, log) = (true, log ++ pinged ∷ [])
answered false (flag, log) = (flag, log ++ pinged ∷ [])

-- The rounds whose pings have the given answers.
pub rounds : ℕ → List Bool → Bool × List Note → Bool × List Note
rounds interval [] x = x
rounds interval (a ∷ as') x = rounds interval as' (beat (logging interval) (answered a) x)

-- The verdict on an answer.
abbrev pub verdict : Bool → Note
verdict true = succeeded
verdict false = lost 400

-- What the log should hold, given the flag before the first round.
pub judged : Bool → List Bool → List Note
judged before [] = []
judged before (a ∷ as') = verdict before ∷ pinged ∷ judged a as'

joined :
    (v : Note) (log rest : List Note)
    → ((log ++ v ∷ []) ++ pinged ∷ []) ++ rest ≡ log ++ v ∷ pinged ∷ rest
joined v log rest =
    append_assoc (log ++ v ∷ []) (pinged ∷ []) rest ∙ append_assoc log (v ∷ []) (pinged ∷ rest)

-- In each round the heartbeat first tells success if the ping of the round before was answered (in
-- the first round: if the flag was set) and otherwise loss with code 400, and then pings, once.
pub rounds-judged :
    (interval : ℕ) (answers : List Bool) (before : Bool) (log : List Note)
    → (rounds interval answers (before, log)).1 ≡ log ++ judged before answers
unfolding rounds judged beat on_heartbeat_success on_heartbeat_lost
rounds-judged interval [] before log = sym (append-nil log)
rounds-judged interval (true ∷ as') true log =
    rounds-judged interval as' true ((log ++ succeeded ∷ []) ++ pinged ∷ [])
    ∙ joined succeeded log (judged true as')
rounds-judged interval (true ∷ as') false log =
    rounds-judged interval as' true ((log ++ (lost 400) ∷ []) ++ pinged ∷ [])
    ∙ joined (lost 400) log (judged true as')
rounds-judged interval (false ∷ as') true log =
    rounds-judged interval as' false ((log ++ succeeded ∷ []) ++ pinged ∷ [])
    ∙ joined succeeded log (judged false as')
rounds-judged interval (false ∷ as') false log =
    rounds-judged interval as' false ((log ++ (lost 400) ∷ []) ++ pinged ∷ [])
    ∙ joined (lost 400) log (judged false as')
