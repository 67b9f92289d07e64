-- ===== src/Translib/HttpServer.antt =====
-- src/translib/httpServer.cpp and src/translib/httpRequest.cpp: a server that hands each request to the
-- handler of its path. `Evhttp` has what is used of libevent: `X` is an `evhttp` with the paths that
-- have a callback, `H` a list of headers, and `printf` what `evbuffer_add_printf` makes of a format.
pub mod Serving
use dbwrapper.Prelude.{
  ℕ, ◌==◌, Bool, true, false, not, ◌&&◌, List, [], ◌∷◌, ◌++◌, Option, none, some, codes,
  if◌then◌else◌,
}
use dbwrapper.Prelude.OrderedMap.{find, assign}

pub record Evhttp (X H : Type 0) : Type 0 where
  -- `evhttp_set_cb`, and whether a path has a callback.
  pub set_cb : List ℕ → X → X
  pub routed : List ℕ → X → Bool
  pub find_header : List ℕ → H → Option (List ℕ)
  pub add_header : List ℕ → List ℕ → H → H
  pub remove_header : List ℕ → H → H
  pub printf : List ℕ → List ℕ

-- `evhttp_send_reply_start`, with the code and the reason, `evhttp_send_reply_chunk` and
-- `evhttp_send_reply_end`.
pub data Sent : Type 0 where
  reply_start : ℕ → List ℕ → Sent
  reply_chunk : List ℕ → Sent
  reply_end : Sent

pub record HttpRequest (H : Type 0) : Type 0 where
  pub input_headers : H
  pub output_headers : H
  pub buffer : List ℕ
  pub sent : List Sent

module _ {X H : Type 0} (E : Evhttp X H) where
  unfoldable pub find_headers : List ℕ → HttpRequest H → Option (List ℕ)
  find_headers key r = E.find_header key r.input_headers

  unfoldable pub set_header : List ℕ → List ℕ → HttpRequest H → HttpRequest H
  set_header key value r = record r {
    output_headers = E.add_header key value (E.remove_header key r.output_headers);
  }

  unfoldable pub set_body : List ℕ → HttpRequest H → HttpRequest H
  set_body content r = record r { buffer = r.buffer ++ E.printf content }

  -- `evhttp_send_reply_chunk` takes what is in the buffer.
  unfoldable pub set_chunk : List ℕ → HttpRequest H → HttpRequest H
  set_chunk content r = record r {
    buffer = [];
    sent = r.sent ++ reply_chunk (r.buffer ++ E.printf content) ∷ [];
  }

-- `strncmp` with the length of the first string.
abbrev pub is_prefix : List ℕ → List ℕ → Bool
is_prefix [] t = true
is_prefix (c ∷ s) [] = false
is_prefix (c ∷ s) (d ∷ t) = let rest = is_prefix s t in (c == d) && rest

abbrev pub connection_key : List ℕ
connection_key = codes "Connection"

abbrev pub connection_value : List ℕ
connection_value = codes "keep-alive"

-- `genericCallback`
unfoldable pub generic_callback : {H : Type 0} → HttpRequest H → HttpRequest H
generic_callback r = record r {
  sent = r.sent ++ reply_start 404 (codes "not found") ∷ reply_end ∷ [];
}

abbrev pub HttpHandler : Type 0 → Type 0
HttpHandler H = HttpRequest H → HttpRequest H

module _ {X H : Type 0} (E : Evhttp X H) where
  -- Whether the request asks to keep the connection.
  abbrev pub keeps_alive : HttpRequest H → Bool
  keeps_alive r = elim (find_headers E connection_key r) [
    | none ↦ false
    | some value ↦ is_prefix connection_value value
  ]

  -- `mainCallback`
  unfoldable pub main_callback : HttpHandler H → HttpRequest H → HttpRequest H
  unfolding find_headers
  main_callback handler req =
      let r = handler (record req { buffer = [] }) in
      let kept : HttpRequest H = record r {
        output_headers = E.add_header connection_key connection_value r.output_headers;
      } in
      let answered = if keeps_alive r then kept else r in
      record answered {
        buffer = [];
        sent =
            answered.sent
            ++ reply_start 200 (codes "OK") ∷ reply_chunk answered.buffer ∷ reply_end ∷ [];
      }

pub record HttpServer (X H : Type 0) : Type 0 where
  pub ip : List ℕ
  pub port : ℕ
  -- `_http`, or none for null.
  pub http : Option X
  pub handlers : List (List ℕ × HttpHandler H)

module _ {X H : Type 0} where
  unfoldable pub new_http_server : HttpServer X H
  new_http_server = record { ip = []; port = 0; http = none; handlers = [] }

  -- `listen`, given what `evhttp_new` returns and whether `evhttp_bind_socket` succeeds.
  unfoldable pub listen_http : Option X → Bool → List ℕ → ℕ → HttpServer X H → Bool × HttpServer X H
  listen_http made bound ip port s = elim s.http [
    | some _ ↦ (false, s)
    | none ↦ elim made [
      | none ↦ (false, s)
      | some x ↦
          if bound then (true, record s { http = some x; ip = ip; port = port }) else (false, s)
    ]
  ]

module _ {X H : Type 0} (E : Evhttp X H) where
  -- `regHandler`
  unfoldable pub reg_handler : List ℕ → HttpHandler H → HttpServer X H → HttpServer X H
  unfolding assign
  reg_handler path handler s = elim s.http [
    | none ↦ s
    | some x ↦ record s { handlers = assign path handler s.handlers; http = some (E.set_cb path x) }
  ]

  -- A request that libevent receives for a path. The callback of a path has the place of its handler
  -- in the map, so that it runs the one that stands there now.
  unfoldable pub serve : List ℕ → HttpRequest H → HttpServer X H → Option (HttpRequest H)
  unfolding find main_callback generic_callback
  serve path req s = elim s.http [
    | none ↦ none
    | some x ↦
        if E.routed path x
        then elim (find path s.handlers) [
          | none ↦ none
          | some handler ↦ some (main_callback E handler req)
        ]
        else some (generic_callback req)
  ]
