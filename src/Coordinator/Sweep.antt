-- ===== src/Coordinator/Sweep.antt =====
-- What the start of a run clears from the spool, and what it leaves.
use mathlib.Core.List.{reverse-append, reverse-reverse}
use ros2_ws_gp.Common.{
  zero, suc, ℕ, ◌≡◌, refl, ap, sym, ◌∙◌, inl, inr, Bool, true, ◌&&◌, none, [], ◌∷◌, ◌++◌,
  if◌then◌else◌, arith, Bool-cases, take, drop, reverse,
}
use ros2_ws_gp.Common.Dict.{Dict, contains, lookup, lookup-erase, beq_refl}
use ros2_ws_gp.Common.Text.{Text, text_eq, text_beq, text_beq_iff}
use ros2_ws_gp.Coordinator.State.{ecu_eq, Spool, OfferFile, Env, in_offers}
use ros2_ws_gp.Coordinator.Spool.{
  json, is_json, stem, is_stale, sweep_one, sweep_offers, withdraw_offer,
}

text_beq-true : (s t : Text) → text_beq s t ≡ true → s ≡ t
text_beq-true s t h = (text_beq_iff s t).0 h

take-drop : (n : ℕ) (t : Text) → take n t ++ drop n t ≡ t
take-drop zero t = refl
take-drop (suc n) [] = refl
take-drop (suc n) (c ∷ t) = ap (◌∷◌ c) (take-drop n t)

-- A name that ends in `.json` is its stem and the ending.
stem-json : (name : Text) → is_json name ≡ true → stem name ++ json ≡ name
unfolding stem is_json
stem-json name h =
    let r = reverse name in
    let ending : reverse (take 5 r) ≡ json =
      ap reverse (text_beq-true _ _ h) ∙ reverse-reverse json in
    ap (λ t. reverse (drop 5 r) ++ t) (sym ending)
    ∙ sym (reverse-append (take 5 r) (drop 5 r))
    ∙ ap reverse (take-drop 5 r)
    ∙ reverse-reverse name

lookup-withdraw_offer :
    (env : Env) (name oid : Text) (spool : Spool)
    → lookup name (withdraw_offer env oid spool).offers ≡ (
        if env.unlinks in_offers (oid ++ json) && text_beq (oid ++ json) name
        then none
        else lookup name spool.offers)
unfolding withdraw_offer
lookup-withdraw_offer env name oid spool = elim (Bool-cases (env.unlinks in_offers (oid ++ json))) [
  | inl gone ↦ rw gone (lookup-erase name (oid ++ json) spool.offers)
  | inr stays ↦ rw stays refl
]

is_json-stale : (name : Text) → is_stale name ≡ true → is_json name ≡ true
unfolding is_stale
is_json-stale name h = ground arith

-- The sweep takes the file away where it meets it.
abbrev pub is_swept : Env → Text → Bool
is_swept env name = is_stale name && env.unlinks in_offers name

lookup-sweep_one :
    (env : Env) (name met : Text) (spool : Spool)
    → lookup name (sweep_one env met spool).offers
      ≡ (if is_swept env met && text_beq met name then none else lookup name spool.offers)
unfolding sweep_one
lookup-sweep_one env name met spool = elim (Bool-cases (is_stale met)) [
  | inl stale ↦
      rw
        (
          stale,
          lookup-withdraw_offer env name (stem met) spool,
          stem-json met (is_json-stale met stale),
        )
        refl
  | inr fresh ↦ rw fresh refl
]

-- What the sweep makes of one name, over the names that were listed: a stale offer that was listed and
-- can be removed is gone, and every other file is as it was.
pub lookup-sweep_offers :
    (env : Env) (name : Text) (met : Dict Text OfferFile) (spool : Spool)
    → lookup name (sweep_offers env met spool).offers ≡ (
        if (is_stale name && env.unlinks in_offers name) && contains name met
        then none
        else lookup name spool.offers)
unfolding sweep_offers
lookup-sweep_offers env name [] spool = ground arith
lookup-sweep_offers env name ((m, file) ∷ met) spool =
    lookup-sweep_offers env name met (sweep_one env m spool)
    ∙ ap (λ r. if is_swept env name && contains name met then none else r)
        (lookup-sweep_one env name m spool)
    ∙ elim (Bool-cases (text_beq m name)) [
      | inl same ↦
          rw (same, text_beq-true m name same) (ground (arith, beq_refl ⦃e = text_eq⦄ name))
      | inr other ↦ rw other (ground arith)
    ]
