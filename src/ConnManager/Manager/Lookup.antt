-- ===== src/ConnManager/Manager/Lookup.antt =====
-- Finding and replacing a pool by its address.
use mathlib.Core.Path.{subst}
use dbwrapper.Prelude.{
  keep_if, remove_if, if◌then◌else◌, ap, sym, Bool, ℕ, ◌≡◌, ◌≢◌, refl, Distinct, true, ◌⊎◌, inl,
  inr, List, [], ◌∷◌, map, some, arith, ◌==◌, Bool-cases, All, Any,
}
use dbwrapper.ConnManager.Bus.{Entry}
use dbwrapper.ConnManager.Pool.{Pool, PoolHandler}
use dbwrapper.ConnManager.Pool.Contents.{wires}
use dbwrapper.ConnManager.Manager.Reports.{has_pool, pool_at, put_pool}
use dbwrapper.ConnManager.Manager.Wiring.{Owns}

pool_at-cons :
    (a : ℕ) (q : Pool) (ps : List Pool) (p : Pool)
    → pool_at a (q ∷ ps) ≡ some p
    → (q ≡ p) ⊎ (pool_at a ps ≡ some p)
unfolding pool_at
pool_at-cons a q ps p e = ground arith

-- What is found at an address is in the list.
pub pool_at-All {ℓ} :
    (P : Pool → Type ℓ) (a : ℕ) (ps : List Pool) (p : Pool) → pool_at a ps ≡ some p → All P ps → P p
unfolding pool_at
pool_at-All P a [] p e h = cc
pool_at-All P a (q ∷ ps) p e h = elim (pool_at-cons a q ps p e) [
  | inl same ↦ subst P same h.0
  | inr later ↦ pool_at-All P a ps p later h.1
]

pub pool_at-address : (a : ℕ) (ps : List Pool) (p : Pool) → pool_at a ps ≡ some p → p.address ≡ a
unfolding pool_at
pool_at-address a [] p e = cc
pool_at-address a (q ∷ ps) p e = ground (arith, pool_at-address a ps p)

pub pool_at-has_pool :
    (a : ℕ) (ps : List Pool) (p : Pool) → pool_at a ps ≡ some p → has_pool p.id ps ≡ true
unfolding pool_at has_pool
pool_at-has_pool a [] p e = cc
pool_at-has_pool a (q ∷ ps) p e = ground (arith, pool_at-has_pool a ps p)

-- The object of a handler is alive.
pub Any-pool_at :
    (e : Entry PoolHandler) (ps : List Pool)
    → Any (Owns e) ps
    → (p : Pool) × (pool_at e.object ps ≡ some p)
unfolding pool_at
Any-pool_at e [] h = elim h [ ]
Any-pool_at e (p ∷ ps) h = elim (Bool-cases (p.address == e.object)) [
  | inl t ↦ (p, rw t)
  | inr t ↦ elim h [ inl here ↦ absurd (ground arith) | inr later ↦ rw t (Any-pool_at e ps later) ]
]

-- The pool at the object of a handler is the one that the handler belongs to.
pub pool_at-Owns :
    (e : Entry PoolHandler) (ps : List Pool)
    → Distinct (λ p. p.address) ps
    → Any (Owns e) ps
    → (p : Pool) × (pool_at e.object ps ≡ some p) × Owns e p
unfolding pool_at
pool_at-Owns e [] d h = elim h [ ]
pool_at-Owns e (p ∷ ps) d (inl own) =
    let here : p.address ≡ e.object = elim own [
      | inl h ↦ sym (ap (λ (x : Entry PoolHandler). x.object) h)
      | inr h ↦ sym (ap (λ (x : Entry PoolHandler). x.object) h)
    ] in
    (p, ground arith, own)
pool_at-Owns e (p ∷ ps) d (inr later) =
    let (q, found, own) = pool_at-Owns e ps d.1 later in
    let other = pool_at-All (λ r. r.address ≢ p.address) e.object ps q found d.0 in
    let at = pool_at-address e.object ps q found in (q, ground arith, own)

pub put_pool-wires :
    (p' : Pool) (ps : List Pool) (p : Pool)
    → pool_at p'.address ps ≡ some p
    → wires p' ≡ wires p
    → map wires ps ≡ map wires (put_pool p' ps)
unfolding pool_at put_pool
put_pool-wires p' [] p e same = refl
put_pool-wires p' (q ∷ ps) p e same = ground (arith, put_pool-wires p' ps p)

pub put_pool-All {ℓ} :
    (P : Pool → Type ℓ) (p' : Pool) (ps : List Pool) → P p' → All P ps → All P (put_pool p' ps)
unfolding put_pool
put_pool-All P p' [] h k = tt
put_pool-All P p' (q ∷ ps) h k = ground (arith, put_pool-All P p' ps h k.1)

pub pool_at-put_pool :
    (p' : Pool) (ps : List Pool) (p : Pool)
    → pool_at p'.address ps ≡ some p
    → pool_at p'.address (put_pool p' ps) ≡ some p'
unfolding pool_at put_pool
pool_at-put_pool p' [] p e = cc
pool_at-put_pool p' (q ∷ ps) p e = ground (arith, pool_at-put_pool p' ps p)

-- A pool that is found and passes a test is among those that pass it.
pub pool_at-keep_if {ℓ} :
    (P : Pool → Type ℓ) (test : Pool → Bool) (a : ℕ) (ps : List Pool) (p : Pool)
    → pool_at a ps ≡ some p
    → test p ≡ true
    → All P (keep_if test ps)
    → P p
pool_at-keep_if P test a [] p e t h = pool_at-All P a [] p e h
pool_at-keep_if P test a (q ∷ ps) p e t h = elim (Bool-cases (test q)) [
  | inl k ↦
      let h' = subst (λ b. All P (if b then q ∷ keep_if test ps else keep_if test ps)) k h in
      elim (pool_at-cons a q ps p e) [
        | inl same ↦ subst P same h'.0
        | inr later ↦ pool_at-keep_if P test a ps p later t h'.1
      ]
  | inr k ↦
      let h' = subst (λ b. All P (if b then q ∷ keep_if test ps else keep_if test ps)) k h in
      elim (pool_at-cons a q ps p e) [
        | inl same ↦ cc (k, t, ap test same)
        | inr later ↦ pool_at-keep_if P test a ps p later t h'
      ]
]

-- A replaced pool that is removed leaves no trace.
pub remove_if-put_pool :
    (p' : Pool) (ps : List Pool) (p : Pool) (id : ℕ)
    → pool_at p'.address ps ≡ some p
    → p.id ≡ id
    → p'.id ≡ id
    → remove_if (λ q. q.id == id) (put_pool p' ps) ≡ remove_if (λ q. q.id == id) ps
unfolding pool_at put_pool
remove_if-put_pool p' [] p id e h h' = refl
remove_if-put_pool p' (q ∷ ps) p id e h h' = ground (arith, remove_if-put_pool p' ps p id)
