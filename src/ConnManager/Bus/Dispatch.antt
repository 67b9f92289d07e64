-- ===== src/ConnManager/Bus/Dispatch.antt =====
-- Which handler a message reaches.
use mathlib.Core.Path.{subst, subst₂, sym}
use mathlib.Core.List.{Permᴰ}
use dbwrapper.Prelude.{
  ℕ, ◌+◌, ◌^◌, ◌<◌, ◌≡◌, ◌≢◌, refl, ◌∙◌, ◌&&◌, List, [], ◌∷◌, none, some, arith, ◌==◌, ◌⊎◌, inl,
  inr, if◌then◌else◌, All, Distinct, All-map, All-remove_if,
}
use dbwrapper.Prelude.Order.{string_eqb, string_eqb-eq, string_eqb_refl}
use dbwrapper.ConnManager.Bus.{Entry, register_handler, call, remove_handler}

module _ {ℓ} {H : Type ℓ} where
  -- No two entries have one id, and no id has been handed out that the counter has not passed.
  abbrev pub HasUniqueIds : List (Entry H) → Type 0
  HasUniqueIds = Distinct (λ e. e.id)

  abbrev pub IsBelow : ℕ → List (Entry H) → Type 0
  IsBelow counter bus = All (λ e. e.id < counter) bus

  pub call_here : (e : Entry H) (bus : List (Entry H)) → call e.name e.id (e ∷ bus) ≡ some e
  unfolding call
  call_here e bus = ground (arith, string_eqb_refl e.name)

  pub call_later :
      (name : List ℕ) (id : ℕ) (e : Entry H) (bus : List (Entry H))
      → e.id ≢ id
      → call name id (e ∷ bus) ≡ call name id bus
  unfolding call
  call_later name id e bus other = ground arith

  pub call-cons :
      (name : List ℕ) (id : ℕ) (x : Entry H) (bus : List (Entry H)) (e : Entry H)
      → call name id (x ∷ bus) ≡ some e
      → (x ≡ e) ⊎ (call name id bus ≡ some e)
  unfolding call
  call-cons name id x bus e h = ground arith

  -- What a message reaches is in the bus.
  pub call-All {κ} :
      (P : Entry H → Type κ) (name : List ℕ) (id : ℕ) (bus : List (Entry H)) (e : Entry H)
      → call name id bus ≡ some e
      → All P bus
      → P e
  unfolding call
  call-All P name id [] e h a = cc
  call-All P name id (x ∷ bus) e h a = elim (call-cons name id x bus e h) [
    | inl same ↦ subst P same a.0
    | inr later ↦ call-All P name id bus e later a.1
  ]

  -- A message reaches only an entry of its topic and its id.
  pub call_sound :
      (name : List ℕ) (id : ℕ) (bus : List (Entry H)) (e : Entry H)
      → call name id bus ≡ some e
      → (name ≡ e.name) × (id ≡ e.id)
  unfolding call
  call_sound name id [] e h = cc
  call_sound name id (x ∷ bus) e h =
      ground (arith, call_sound name id bus e, string_eqb-eq name x.name)

  pub call_absent :
      (name : List ℕ) (id : ℕ) (bus : List (Entry H))
      → All (λ e. e.id ≢ id) bus
      → call name id bus ≡ none
  unfolding call
  call_absent name id [] h = refl
  call_absent name id (x ∷ bus) h = ground (arith, call_absent name id bus h.1)

  IsBelow-All-ne :
      (counter : ℕ) (bus : List (Entry H)) → IsBelow counter bus → All (λ e. e.id ≢ counter) bus
  IsBelow-All-ne counter bus h = All-map (λ e lt. omega arith) bus h

  -- While the counter does not wrap, registering a handler on a bus whose ids are distinct and below
  -- the counter leaves the ids distinct and below the new counter.
  pub register_handler-HasUniqueIds :
      (name : List ℕ) (t : ℕ) (f : H) (counter : ℕ) (bus : List (Entry H))
      → counter + 1 < 2 ^ 32
      → HasUniqueIds bus
      → IsBelow counter bus
      → let r = register_handler name t f counter bus in HasUniqueIds r.2 × IsBelow r.1 r.2
  unfolding register_handler
  register_handler-HasUniqueIds name t f counter bus fits u b =
      ((IsBelow-All-ne counter bus b, u), (omega arith, All-map (λ e lt. omega arith) bus b))

  -- After a registration, a message to the new topic with the new id reaches the new handler, and
  -- any other message reaches what it reached before.
  pub call-register_handler :
      (name : List ℕ) (t : ℕ) (f : H) (counter : ℕ) (bus : List (Entry H)) (topic : List ℕ) (id : ℕ)
      → let r = register_handler name t f counter bus in
        call topic id r.2 ≡ (
          if string_eqb topic name && id == r.0
          then some (record { name = name; handler = f; object = t; id = r.0 })
          else call topic id bus)
  unfolding register_handler call
  call-register_handler name t f counter bus topic id = ground arith

  -- On a bus with distinct ids, removing a handler stops the messages of its topic that reached it
  -- under its object and its id, and changes nothing for any other message.
  pub call-remove_handler :
      (name : List ℕ) (t id : ℕ) (bus : List (Entry H))
      → HasUniqueIds bus
      → (topic : List ℕ) (i : ℕ)
      → call topic i (remove_handler name t id bus) ≡ (elim (call topic i bus) [
        | none ↦ none
        | some e ↦ if string_eqb name topic && (e.object == t && i == id) then none else some e
      ])
  unfolding call remove_handler
  call-remove_handler name t id [] u topic i = refl
  call-remove_handler name t id (e ∷ es) u topic i = ground (
    arith,
    call-remove_handler name t id es u.1 topic i,
    call_absent topic e.id (remove_handler name t id es) (All-remove_if _ _ es u.0),
    string_eqb-eq topic e.name,
    string_eqb-eq name e.name,
    string_eqb-eq name topic,
    string_eqb_refl topic,
    string_eqb_refl name,
  )

  -- A handler of another object stays.
  pub call-remove_handler_ne :
      (name : List ℕ) (t id : ℕ) (bus : List (Entry H)) (topic : List ℕ) (i : ℕ) (e : Entry H)
      → HasUniqueIds bus
      → call topic i bus ≡ some e
      → e.object ≢ t
      → call topic i (remove_handler name t id bus) ≡ some e
  call-remove_handler_ne name t id bus topic i e u h other =
      ground (arith, call-remove_handler name t id bus u topic i)

  Permᴰ-All {κ} :
      (P : Entry H → Type κ) {bus bus' : List (Entry H)} → Permᴰ bus bus' → All P bus → All P bus'
  Permᴰ-All P Permᴰ.nil h = tt
  Permᴰ-All P (Permᴰ.cons e p) h = (subst P e h.0, Permᴰ-All P p h.1)
  Permᴰ-All P (Permᴰ.swap e e') h = (subst P e' h.1.0, (subst P e h.0, h.1.1))
  Permᴰ-All P (Permᴰ.trans p q) h = Permᴰ-All P q (Permᴰ-All P p h)

  pub Permᴰ-HasUniqueIds :
      {bus bus' : List (Entry H)} → Permᴰ bus bus' → HasUniqueIds bus → HasUniqueIds bus'
  Permᴰ-HasUniqueIds Permᴰ.nil u = tt
  Permᴰ-HasUniqueIds (Permᴰ.cons {l₂ = es} e p) u =
      (subst (λ x. All (λ f. f.id ≢ x.id) es) e (Permᴰ-All _ p u.0), Permᴰ-HasUniqueIds p u.1)
  Permᴰ-HasUniqueIds (Permᴰ.swap {l = es} e e') u =
      subst₂ (λ x y. HasUniqueIds (x ∷ y ∷ es)) e' e ((λ h. u.0.0 (sym h), u.1.0), (u.0.1, u.1.1))
  Permᴰ-HasUniqueIds (Permᴰ.trans p q) u = Permᴰ-HasUniqueIds q (Permᴰ-HasUniqueIds p u)

  -- On a bus with distinct ids, what a message reaches does not depend on the order of the entries,
  -- which an unordered multimap does not fix.
  pub call-perm :
      (topic : List ℕ) (id : ℕ) {bus bus' : List (Entry H)}
      → Permᴰ bus bus'
      → HasUniqueIds bus
      → call topic id bus ≡ call topic id bus'
  unfolding call
  call-perm topic id Permᴰ.nil u = refl
  call-perm topic id (Permᴰ.cons e p) u = ground (arith, call-perm topic id p u.1)
  call-perm topic id (Permᴰ.swap e e') u = ground (arith, u.0.0)
  call-perm topic id (Permᴰ.trans p q) u =
      call-perm topic id p u ∙ call-perm topic id q (Permᴰ-HasUniqueIds p u)
