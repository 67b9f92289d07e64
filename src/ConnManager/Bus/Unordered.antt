-- ===== src/ConnManager/Bus/Unordered.antt =====
-- The bus as its multimap is meant: without an order of its entries. A bus whose ids are distinct and
-- below a counter, up to the order, with the operations on it.
use mathlib.Core.List
use mathlib.Core.List.{Permᴰ}
use mathlib.Core.Option
use mathlib.Core.Path.{subst, sym}
use mathlib.Core.Quot
use mathlib.Core.Quot.{Quot, Quot-set}
use native.Mathlib.Nat.{ℕ_set}
use dbwrapper.Prelude.{
  ℕ, ◌+◌, ◌≡◌, ◌≢◌, refl, ap, ◌∙◌, ◌&&◌, Bool, true, false, List, [], ◌∷◌, Option, none, some,
  arith, ◌==◌, inl, inr, if◌then◌else◌, All-map, All-remove_if, remove_if, Distinct-remove_if,
  Bool-cases,
}
use dbwrapper.Prelude.Order.{string_eqb}
use dbwrapper.ConnManager.Bus.{Entry, register_handler_as, call, remove_handler}
use dbwrapper.ConnManager.Bus.Dispatch.{
  HasUniqueIds, IsBelow, call-remove_handler, call-perm, call-cons, call_here, call_later,
  call_absent, Permᴰ-HasUniqueIds,
}

abbrev pub NumberedBus : Type 0 → ℕ → Type 0
NumberedBus H n = (bus : List (Entry H)) × HasUniqueIds bus × IsBelow n bus

abbrev pub UnorderedBus : Type 0 → ℕ → Type 0
UnorderedBus H n = Quot {α = NumberedBus H n} (λ b c. Permᴰ b.0 c.0)

module _ {H : Type 0} where
  Permᴰ-remove_if :
      (p : Entry H → Bool) {bus bus' : List (Entry H)}
      → Permᴰ bus bus'
      → Permᴰ (remove_if p bus) (remove_if p bus')
  Permᴰ-remove_if p Permᴰ.nil = Permᴰ.nil
  Permᴰ-remove_if p (Permᴰ.cons {a} {b} e h) = elim (Bool-cases (p a)) [
    | inl t ↦ let u : p b ≡ true = sym (ap p e) ∙ t in rw (t, u) (Permᴰ-remove_if p h)
    | inr t ↦
        let u : p b ≡ false = sym (ap p e) ∙ t in rw (t, u) (Permᴰ.cons e (Permᴰ-remove_if p h))
  ]
  Permᴰ-remove_if p (Permᴰ.swap {a} {b} {a'} {b'} {l} e e') =
      let same = List.Permᴰ.refl (remove_if p l) in
      elim (Bool-cases (p a)) [
        | inl t ↦
            let t' : p b' ≡ true = sym (ap p e) ∙ t in
            elim (Bool-cases (p b)) [
              | inl u ↦ let u' : p a' ≡ true = sym (ap p e') ∙ u in rw (t, u, u', t') same
              | inr u ↦
                  let u' : p a' ≡ false = sym (ap p e') ∙ u in
                  rw (t, u, u', t') (Permᴰ.cons e' same)
            ]
        | inr t ↦
            let t' : p b' ≡ false = sym (ap p e) ∙ t in
            elim (Bool-cases (p b)) [
              | inl u ↦
                  let u' : p a' ≡ true = sym (ap p e') ∙ u in rw (t, u, u', t') (Permᴰ.cons e same)
              | inr u ↦
                  let u' : p a' ≡ false = sym (ap p e') ∙ u in rw (t, u, u', t') (Permᴰ.swap e e')
            ]
      ]
  Permᴰ-remove_if p (Permᴰ.trans h k) = Permᴰ.trans (Permᴰ-remove_if p h) (Permᴰ-remove_if p k)

  -- An entry that a message reaches, in front.
  call-Permᴰ :
      (name : List ℕ) (id : ℕ) (bus : List (Entry H)) (e : Entry H)
      → call name id bus ≡ some e
      → (rest : List (Entry H)) × Permᴰ bus (e ∷ rest)
  unfolding call
  call-Permᴰ name id [] e h = cc
  call-Permᴰ name id (x ∷ bus) e h = elim (call-cons name id x bus e h) [
    | inl same ↦ (bus, Permᴰ.cons same (List.Permᴰ.refl bus))
    | inr later ↦
        let (rest, p) = call-Permᴰ name id bus e later in
        (x ∷ rest, Permᴰ.trans (Permᴰ.cons refl p) (Permᴰ.swap refl refl))
  ]

  -- Buses with distinct ids that no message tells apart have the same entries.
  Permᴰ-of-call :
      (bus bus' : List (Entry H))
      → HasUniqueIds bus
      → HasUniqueIds bus'
      → ((name : List ℕ) (id : ℕ) → call name id bus ≡ call name id bus')
      → Permᴰ bus bus'
  unfolding call
  Permᴰ-of-call [] [] u u' same = Permᴰ.nil
  Permᴰ-of-call [] (x ∷ bus') u u' same =
      let reached : ◌≡◌ {A = Option (Entry H)} none (some x) =
        same x.name x.id ∙ call_here x bus' in
      cc
  Permᴰ-of-call (x ∷ bus) bus' u u' same =
      let (rest, p) = call-Permᴰ x.name x.id bus' x (sym (same x.name x.id) ∙ call_here x bus) in
      let u'' = Permᴰ-HasUniqueIds p u' in
      let agree : (name : List ℕ) (id : ℕ) → call name id bus ≡ call name id rest = λ name id.
        elim (Bool-cases (x.id == id)) [
          | inl q ↦
              let here : x.id ≡ id = ground arith in
              subst (λ k. call name k bus ≡ call name k rest) here
                (call_absent name x.id bus u.0 ∙ sym (call_absent name x.id rest u''.0))
          | inr q ↦
              let ne : x.id ≢ id = ground arith in
              sym (call_later name id x bus ne)
              ∙ same name id
              ∙ call-perm name id p u'
              ∙ call_later name id x rest ne
        ] in
      Permᴰ.trans (Permᴰ.cons refl (Permᴰ-of-call bus rest u.1 u''.1 agree)) (List.Permᴰ.symm p)

  pub Entry-set : IsSet H → IsSet (Entry H)
  Entry-set h = hlevel (h, ℕ_set)

module _ {H : Type 0} (h : IsSet H) where
  -- `call`
  unfoldable pub call_of : {n : ℕ} → List ℕ → ℕ → UnorderedBus H n → Option (Entry H)
  call_of name id =
      Quot.lift (Option.is_set (Entry-set h)) (λ b. call name id b.0)
        (λ b c p. call-perm name id p b.1)

  remove_numbered : {n : ℕ} → List ℕ → ℕ → ℕ → NumberedBus H n → NumberedBus H n
  unfolding remove_handler
  remove_numbered name t id (bus, u, b) =
      (remove_handler name t id bus, Distinct-remove_if _ _ bus u, All-remove_if _ _ bus b)

  -- `remove_handler`
  pub remove_of : {n : ℕ} → List ℕ → ℕ → ℕ → UnorderedBus H n → UnorderedBus H n
  unfolding remove_handler remove_numbered
  remove_of name t id =
      Quot.lift Quot-set (λ b. Quot.mk (remove_numbered name t id b))
        (λ b c p. Quot.sound (Permᴰ-remove_if _ p))

  register_numbered : {n : ℕ} → List ℕ → ℕ → H → NumberedBus H n → NumberedBus H (n + 1)
  unfolding register_handler_as
  register_numbered {n} name t f (bus, u, b) = (
    register_handler_as name t f n bus,
    (All-map (λ e lt. omega arith) bus b, u),
    (omega arith, All-map (λ e lt. omega arith) bus b),
  )

  -- `register_handler`, with the counter at the end of the range.
  pub register_of : {n : ℕ} → List ℕ → ℕ → H → UnorderedBus H n → UnorderedBus H (n + 1)
  unfolding register_handler_as register_numbered
  register_of name t f =
      Quot.lift Quot-set (λ b. Quot.mk (register_numbered name t f b))
        (λ b c p. Quot.sound (Permᴰ.cons refl p))

  -- After a registration, a message to the new topic with the new id reaches the new handler, and
  -- any other message reaches what it reached before.
  pub call_of-register_of :
      {n : ℕ} (name : List ℕ) (t : ℕ) (f : H) (topic : List ℕ) (id : ℕ) (b : UnorderedBus H n)
      → call_of topic id (register_of name t f b) ≡ (
          if string_eqb topic name && id == n
          then some (record { name = name; handler = f; object = t; id = n })
          else call_of topic id b)
  unfolding call_of register_of call register_handler_as register_numbered
  call_of-register_of name t f topic id =
      Quot.ind (λ b. Option.is_set (Entry-set h) _ _) (λ b. ground arith)

  pub call_of-remove_of :
      {n : ℕ} (name : List ℕ) (t id : ℕ) (topic : List ℕ) (i : ℕ) (b : UnorderedBus H n)
      → call_of topic i (remove_of name t id b) ≡ (elim (call_of topic i b) [
        | none ↦ none
        | some e ↦ if string_eqb name topic && (e.object == t && i == id) then none else some e
      ])
  unfolding call_of remove_of remove_numbered
  call_of-remove_of name t id topic i =
      Quot.ind (λ b. Option.is_set (Entry-set h) _ _)
        (λ b. call-remove_handler name t id b.0 b.1 topic i)

  -- Two buses, up to the order of their entries, whose ids are distinct and below one counter, on which
  -- every message reaches the same, are equal.
  pub call_of-ext :
      {n : ℕ} (b c : UnorderedBus H n)
      → ((topic : List ℕ) (id : ℕ) → call_of topic id b ≡ call_of topic id c)
      → b ≡ c
  unfolding call_of
  call_of-ext =
      Quot.ind (λ b. hlevel (Quot-set))
        (λ b.
          Quot.ind (λ c. hlevel (Quot-set))
            (λ c same. Quot.sound (Permᴰ-of-call b.0 c.0 b.1 c.1 same)))
