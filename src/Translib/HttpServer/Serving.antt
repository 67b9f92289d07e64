-- ===== src/Translib/HttpServer/Serving.antt =====
-- Which handler answers a request.
use dbwrapper.Prelude.{ℕ, ◌≡◌, true, false, List, [], ◌∷◌, Option, none, some, if◌then◌else◌}
use dbwrapper.Prelude.Order.{string_eqb}
use dbwrapper.Prelude.OrderedMap.{find}
use dbwrapper.Translib.HttpServer.{Evhttp, HttpHandler, HttpServer, reg_handler}

-- What the manual of libevent says of callbacks: a path has one from `evhttp_set_cb` on.
pub record IsEvhttp {X H : Type 0} (E : Evhttp X H) (new : X) : Type 0 where
  pub routed-new : (path : List ℕ) → E.routed path new ≡ false
  pub routed-set_cb :
      (path set : List ℕ) (x : X)
      → E.routed path (E.set_cb set x) ≡ (if string_eqb path set then true else E.routed path x)

module _ {X H : Type 0} (E : Evhttp X H) where
  -- Registrations in order.
  unfoldable pub reg_handlers : List (List ℕ × HttpHandler H) → HttpServer X H → HttpServer X H
  unfolding reg_handler
  reg_handlers [] s = s
  reg_handlers ((path, handler) ∷ l) s = reg_handlers l (reg_handler E path handler s)

  -- The last handler that was registered for a path.
  abbrev pub last_handler :
      List ℕ → List (List ℕ × HttpHandler H) → Option (HttpHandler H) → Option (HttpHandler H)
  last_handler path [] h = h
  last_handler path ((set, handler) ∷ l) h =
      last_handler path l (if string_eqb path set then some handler else h)

  -- A server whose callbacks and handlers agree.
  abbrev pub Agrees : HttpServer X H → Type 0
  Agrees s =
      (x : X) × (s.http ≡ some x)
      × ((path : List ℕ)
          → E.routed path x ≡ (elim (find path s.handlers) [ none ↦ false | some _ ↦ true ]))
