-- ===== src/ConnManager/Manager/LateId.antt =====
-- `add_pool` makes the connections of a new pool before the pool has its id.
use dbwrapper.Prelude.{
  ℕ, ◌+◌, ◌%◌, ◌^◌, ◌<◌, ◌≡◌, ◌≢◌, refl, sym, ◌∙◌, false, inl, inr, Any, Option-cases, ap, List, [],
  ◌∷◌, ◌++◌, map, some, arith, All, All-append, All-map,
}
use dbwrapper.Prelude.Order.{string_eqb, string_eqb_refl}
use dbwrapper.ConnManager.Info.{ConnInfo, conn_inc, conn_dec}
use dbwrapper.ConnManager.Bus.{Entry, call}
use dbwrapper.ConnManager.Bus.Dispatch.{call-All, call_sound}
use dbwrapper.ConnManager.Pool.{Pool, Conn, Residue, PoolHandler, on_conn_inc, new_conn}
use dbwrapper.ConnManager.Manager.{World, new_conns, add_pool}
use dbwrapper.ConnManager.Manager.Reports.{tell_pool, on_connected}
use dbwrapper.ConnManager.Manager.Wiring.{Owns, inc_entry}
use dbwrapper.ConnManager.Manager.Soundness.{IsSound, add_pool-IsSound}
use dbwrapper.ConnManager.Manager.Lookup.{pool_at-All, pool_at-Owns}
use dbwrapper.ConnManager.Manager.Handling.{handle_conn_inc-other}
use dbwrapper.ConnManager.Manager.History.{Reach}
use dbwrapper.ConnManager.Manager.Strands.{IsOther, Strands, Reach-Strands}

-- A report to an id with an index that the pool with this id does not have changes nothing.
on_connected-Strands :
    (address : ℕ → ℕ) (old : Residue) (w : World) (c : Conn)
    → IsSound w
    → Strands c.conn_inc_id c.pool_index w
    → on_connected address old c w ≡ some w
unfolding on_connected tell_pool string_eqb
on_connected-Strands address old w c s (lt, o) =
    elim (Option-cases (call conn_inc c.conn_inc_id w.pool_bus)) [
      | inl silent ↦ rw (silent, tell_pool) refl
      | inr (e, called) ↦
          let ps = w.manager.pool_list in
          let any =
            call-All (λ x. Any (Owns x) ps) conn_inc c.conn_inc_id w.pool_bus e called
              s.wired.owned in
          let (topic, id) = call_sound conn_inc c.conn_inc_id w.pool_bus e called in
          let (p, found, own) = pool_at-Owns e ps s.wired.addresses any in
          let other = pool_at-All (IsOther c.conn_inc_id c.pool_index) e.object ps p found o in
          elim own [
            | inl inc ↦
                let ran : e.handler ≡ on_conn_inc = ap (λ (x : Entry PoolHandler). x.handler) inc in
                let to : p.conn_inc_id ≡ c.conn_inc_id =
                  sym (id ∙ ap (λ (x : Entry PoolHandler). x.id) inc) in
                let index : c.pool_index ≢ p.id = λ h. other to (sym h) in
                rw (called, tell_pool, found, ran)
                  (ap some (handle_conn_inc-other address old w s e.object p found c index))
            | inr dec ↦
                let wrong : conn_inc ≡ conn_dec =
                  topic ∙ ap (λ (x : Entry PoolHandler). x.name) dec in
                let same = string_eqb_refl conn_inc in
                let both = ap (string_eqb conn_inc) wrong in
                let differ : string_eqb conn_inc conn_dec ≡ false = refl in cc (same, both, differ)
          ]
    ]

new_conns-Strands :
    (address' : ℕ → ℕ) (old' : Residue) (w : World) (blank : Pool) (address : ℕ → ℕ) (i : ℕ)
    (infos : List ConnInfo)
    → IsSound w
    → Strands blank.conn_inc_id blank.id w
    → All (λ c. on_connected address' old' c w ≡ some w) (new_conns blank address i infos)
unfolding new_conns new_conn
new_conns-Strands address' old' w blank address i [] s t = tt
new_conns-Strands address' old' w blank address i (info ∷ infos) s t = (
  on_connected-Strands address' old' w (new_conn blank (address i) info) s t,
  new_conns-Strands address' old' w blank address (i + 1) infos s t,
)

new_conns-info :
    (blank : Pool) (address : ℕ → ℕ) (i : ℕ) (infos : List ConnInfo)
    → map (λ c. c.info) (new_conns blank address i infos) ≡ infos
unfolding new_conns new_conn
new_conns-info blank address i [] = refl
new_conns-info blank address i (info ∷ infos) =
    ap (◌∷◌ info) (new_conns-info blank address (i + 1) infos)

-- The pools that are there when a pool is made do not listen to the id that it gets.
old-IsOther :
    (w : World) (i k : ℕ) → IsSound w → w.counter < i → All (IsOther i k) w.manager.pool_list
old-IsOther w i k s gt =
    All-map
      (λ q h e.
        let lt =
          call-All (λ x. x.id < w.counter) conn_inc q.conn_inc_id w.pool_bus (inc_entry q) h.0
            s.wired.below in
        absurd (omega arith))
      w.manager.pool_list s.wired.hear

-- In a sound state with ids left, `add_pool` starts one connection for each description that the
-- manager knows. Unless the memory of the new pool happened to hold the id that the pool is given
-- afterwards, none of them ever joins it: in every state that the manager reaches from there, while the
-- ids last and new pools get addresses of their own, their reports that they are connected change
-- nothing.
pub add_pool_strands :
    (address : ℕ → ℕ) (old : Residue) (w w'' : World) (address' : ℕ → ℕ) (old' : Residue)
    → w.counter + 3 < 2 ^ 32
    → All (λ q. q.address ≢ address 0) w.manager.pool_list
    → IsSound w
    → old.id ≢ (add_pool address old w).0
    → Reach (add_pool address old w).1 w''
    → (cs : List Conn) × ((add_pool address old w).1.started ≡ w.started ++ cs)
      × (map (λ c. c.info) cs ≡ w.manager.info_list)
      × All (λ c. on_connected address' old' c w'' ≡ some w'') cs
unfolding add_pool
add_pool_strands address old w w'' address' old' fits fresh s other later =
    let inc = (w.counter + 1) % 2 ^ 32 in
    let blank : Pool = record {
      address = address 0;
      id = old.id;
      conn_inc_id = inc;
      conn_dec_id = w.counter;
      pool_inc_id = old.pool_inc_id;
      pool_dec_id = old.pool_dec_id;
      local_list = [];
      remote_list = [];
    } in
    let others = old-IsOther w inc old.id s (omega arith) in
    let begin : Strands inc old.id (add_pool address old w).1 = (
      omega arith,
      All-append _ w.manager.pool_list (_ ∷ []) others ((λ e h. other (sym h)), tt),
    ) in
    let (s'', t'') =
      Reach-Strands inc old.id later (add_pool-IsSound address old w fits fresh s) begin in
    (
      new_conns blank address 1 w.manager.info_list,
      refl,
      new_conns-info blank address 1 w.manager.info_list,
      new_conns-Strands address' old' w'' blank address 1 w.manager.info_list s'' t'',
    )
