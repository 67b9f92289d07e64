-- ===== src/ConnManager/Discovery.antt =====
-- include/connManager/serviceDiscovery.h: `getConnInfo`, which the timer runs, over the set of the
-- descriptions that are known. The callbacks act on a state `S` of their owner; their results are
-- not read. The timer is left out: each call is one round of it.
-- The second loop erases the element at its own iterator and then advances that iterator, which is
-- undefined: from there on the outcome tells only the state that the callbacks have left.
pub mod Rounds
use dbwrapper.Prelude.{Bool, true, false, List, [], ◌∷◌, Option, none, some, if◌then◌else◌}
use dbwrapper.Prelude.OrderedSet.{contains, insert}
use dbwrapper.ConnManager.Info.{ConnInfo, less}

pub record ServiceDiscovery (S : Type 0) : Type 0 where
  -- `_conn_list`
  pub conn_list : List ConnInfo
  -- `_get_conn_f`, or none if it is not set: what it reports, a set.
  pub get_conn_f : Option (S → List ConnInfo)
  -- `_cfgInc` and `_cfgDec`
  pub cfg_inc : ConnInfo → S → S
  pub cfg_dec : ConnInfo → S → S

pub data Outcome (S A : Type 0) : Type 0 where
  done : A → Outcome S A
  undefined : S → Outcome S A

module _ {S : Type 0} where
  -- The first loop: `onConnInfoInc` and an insertion for each reported element that is not known.
  unfoldable pub scan_reported :
      (ConnInfo → S → S) → List ConnInfo → List ConnInfo → S → List ConnInfo × S
  scan_reported inc [] known s = (known, s)
  scan_reported inc (i ∷ reported) known s =
      let old = contains less i known in
      scan_reported inc reported (if old then known else insert less i known)
        (if old then s else inc i s)

  -- The second loop over the elements that are left of the known ones: `onConnInfoDec` and an
  -- erasure at the first one that is not reported.
  unfoldable pub scan_known : (ConnInfo → S → S) → List ConnInfo → List ConnInfo → S → Outcome S S
  scan_known dec reported [] s = done s
  scan_known dec reported (i ∷ known) s =
      let rest = scan_known dec reported known s in
      if contains less i reported then rest else undefined (dec i s)

  -- `getConnInfo`
  unfoldable pub get_conn_info : ServiceDiscovery S → S → Outcome S (Bool × ServiceDiscovery S × S)
  unfolding scan_reported scan_known
  get_conn_info d s = elim d.get_conn_f [
    | none ↦ done (false, d, s)
    | some f ↦
        let reported = f s in
        let (known, s') = scan_reported d.cfg_inc reported d.conn_list s in
        elim (scan_known d.cfg_dec reported known s') [
          | undefined t ↦ undefined t
          | done t ↦ done (true, record d { conn_list = known }, t)
        ]
  ]
