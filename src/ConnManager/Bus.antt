-- ===== src/ConnManager/Bus.antt =====
-- include/connManager/messagebus.h: `id_center` and `message_bus`. A `std::function` is a value of
-- a type `H`, which the bus stores and hands back; an `int` id is its 32-bit pattern.
-- `invokers_` is an unordered multimap, so the place of a new entry among the old ones is not
-- determined; here it is the front, and Bus/Dispatch shows that `call` does not depend on it.
-- The log lines are left out, and so are the locks: each `lock_guard` stands alone in the block of
-- an `if` and is released before the map is read or written.
pub mod Dispatch
pub mod Unordered
use dbwrapper.Prelude.{
  ℕ, ◌+◌, ◌%◌, ◌^◌, Bool, ◌&&◌, List, [], ◌∷◌, Option, none, some, ◌==◌, if◌then◌else◌, remove_if,
}
use dbwrapper.Prelude.Order.{string_eqb}

-- `getUniqueID`: the counter's value and the counter after it. The increment wraps.
unfoldable pub get_unique_id : ℕ → ℕ × ℕ
get_unique_id counter = (counter, (counter + 1) % 2 ^ 32)

-- An element of `invokers_`: the topic, and the tuple of handler, object and id.
pub record Entry {ℓ} (H : Type ℓ) : Type ℓ where
  pub name : List ℕ
  pub handler : H
  pub object : ℕ
  pub id : ℕ

module _ {ℓ} {H : Type ℓ} where
  -- `register_handler` with an id of the caller.
  unfoldable pub register_handler_as : List ℕ → ℕ → H → ℕ → List (Entry H) → List (Entry H)
  register_handler_as name t f id bus =
      record { name = name; handler = f; object = t; id = id } ∷ bus

  -- `register_handler`: the id handed out, the counter and the bus.
  unfoldable pub register_handler : List ℕ → ℕ → H → ℕ → List (Entry H) → ℕ × ℕ × List (Entry H)
  unfolding get_unique_id register_handler_as
  register_handler name t f counter bus =
      let (id, counter') = get_unique_id counter in
      (id, counter', register_handler_as name t f id bus)

  -- The loop of `call`: the first entry with the topic and the id, whose handler is run on its
  -- object and the message before `call` returns; `none` if the loop ends without one.
  unfoldable pub call : List ℕ → ℕ → List (Entry H) → Option (Entry H)
  call name id [] = none
  call name id (e ∷ es) =
      let rest = call name id es in
      if string_eqb name e.name then (if id == e.id then some e else rest) else rest

  -- `remove_handler`: every entry with the topic, the object and the id is erased.
  unfoldable pub remove_handler : List ℕ → ℕ → ℕ → List (Entry H) → List (Entry H)
  remove_handler name t id bus =
      remove_if (λ e. string_eqb name e.name && (e.object == t && e.id == id)) bus
