-- ===== src/Heartbeat/Examples.antt =====
-- A heartbeat of three rounds, and the theorem there.
use dbwrapper.Prelude.{◌≡◌, true, false, [], ◌∷◌, ◌++◌}
use dbwrapper.Heartbeat.Verdicts.{rounds, judged, rounds-judged}

rounds-judged_example :
    (rounds 5000 (true ∷ false ∷ true ∷ []) (false, [])).1
    ≡ [] ++ judged false (true ∷ false ∷ true ∷ [])
rounds-judged_example = rounds-judged 5000 (true ∷ false ∷ true ∷ []) false []
