-- ===== src/Coordinator/Counters.antt =====
-- The counters of the verdict frames, over a whole run.
pub mod Run
use ros2_ws_gp.Common.{
  ℕ, ◌+◌, ◌/◌, ◌%◌, ◌^◌, ◌++◌, ◌≤◌, ◌<◌, ◌≡◌, ◌≢◌, refl, sym, ap, ◌∙◌, ◌⊎◌, inl, inr, Bool, true,
  false, Option, none, some, List, [], ◌∷◌, map, select, All, if◌then◌else◌, arith, Bool-cases,
  Option-cases,
}
use mathlib.Core.Path.{subst}
use mathlib.Core.Option.{some-injective}
use ros2_ws_gp.Coordinator.Approval.{put_frame, send_verdict, with_files, verdict_byte}
use ros2_ws_gp.Common.Int.{ℤ, pos, negsuc, succ, pos_part}
use ros2_ws_gp.Common.Dict.{Dict, lookup, insert, erase, All-insert, All-erase}
use ros2_ws_gp.Common.Text.{Text}
use ros2_ws_gp.Secoc.Bytes.{Bytes}
use ros2_ws_gp.Secoc.Store.{tx, rx, Files, counter_in, load, store}
use ros2_ws_gp.Secoc.Store.Laws.{store_atomic, counter_in-store_other}
use ros2_ws_gp.Secoc.Codec.{secoc_build, finish_build, secoc_mac, secoc_verify}
use ros2_ws_gp.Secoc.Codec.History.{load-counter_in}
use ros2_ws_gp.Secoc.Codec.Freshness.{secoc_verify-keeps}
use ros2_ws_gp.Coordinator.State.{
  Ecu, cluster, esp32, jetson, ecu_eq, ecu_beq, Flow, Pending, Sent, Config, Spool, Node, Env,
  node_of, ◌>>=◌, bind_rule,
}

-- The identifier of the verdicts to each ECU; none go to jetson.
abbrev pub verdict_did : Ecu → ℕ
verdict_did cluster = 3
verdict_did esp32 = 6
verdict_did jetson = 0

-- The counters of the verdicts to `e`, the latest first.
abbrev pub counters_to : Ecu → List Sent → List ℕ
counters_to e sent = map (λ s. s.fv) (select (λ s. ecu_eq.beq s.name e) sent)

-- Each counter is above all that were used before it.
abbrev pub Descends : ℕ → List ℕ → Type 0
Descends c [] = Unit
Descends c (d ∷ ds) = (d < c) × Descends d ds

-- The counters that were used, none above the one in the file.
abbrev pub IsSpent : ℤ → List ℕ → Type 0
IsSpent z [] = Unit
IsSpent (pos f) (c ∷ cs) = (c ≤ f) × Descends c cs
IsSpent (negsuc k) (c ∷ cs) = ⊥

IsSpent-succ : (z : ℤ) (cs : List ℕ) → IsSpent z cs → IsSpent (pos (pos_part (succ z))) cs
IsSpent-succ z [] h = tt
IsSpent-succ (pos f) (c ∷ cs) h = (omega (arith, h.0), h.1)
IsSpent-succ (negsuc k) (c ∷ cs) h = absurd h

IsSpent-cons :
    (z : ℤ) (cs : List ℕ)
    → IsSpent z cs
    → IsSpent (pos (pos_part (succ z))) (pos_part (succ z) ∷ cs)
IsSpent-cons z [] h = (omega arith, tt)
IsSpent-cons (pos f) (c ∷ cs) h = (omega arith, (omega (arith, h.0), h.1))
IsSpent-cons (negsuc k) (c ∷ cs) h = absurd h

verdict_did-injective : (a b : Ecu) → verdict_did a ≡ verdict_did b → a ≡ b
verdict_did-injective a b h = ground arith

module _ (aes_cmac : Bytes → Bytes → Option Bytes) where
  -- A frame that was built has the next counter, which the file then has; without a frame the file has
  -- the old one.
  secoc_build-load :
      (env : Env) (name : Ecu) (key : Bytes) (did : ℕ) (payload : Bytes) (files : Files)
      → (let built = secoc_build aes_cmac (env.tx_disk name) key did payload files in
          let next = pos_part (succ (load (env.tx_disk name).reads tx did files)) in
          ((built.0 ≡ none) × (counter_in tx did built.1 ≡ counter_in tx did files))
          ⊎ ((frame : Bytes) × (built.0 ≡ some (frame, next))
              × (counter_in tx did built.1 ≡ pos next)))
  unfolding secoc_build finish_build
  secoc_build-load env name key did payload files =
      let fv = succ (load (env.tx_disk name).reads tx did files) in
      let n = pos_part fv in
      let atomic = store_atomic ((env.tx_disk name).fault) tx did (pos_part fv) files in
      elim (Option-cases (secoc_mac aes_cmac key did payload fv)) [
        | inl no_mac ↦ rw no_mac (inl (refl, refl))
        | inr (mac, made) ↦
            rw made
              (elim (Bool-cases (store ((env.tx_disk name).fault) tx did (pos_part fv) files).0) [
                | inl written ↦ inr (
                  payload ++ (mac ++ (n / 2 ^ 8 % 2 ^ 8 ∷ n % 2 ^ 8 ∷ [])),
                  rw written refl,
                  atomic ∙ rw written refl,
                )
                | inr failed ↦ inl (rw failed refl, atomic ∙ rw failed refl)
              ])
      ]

  secoc_build-keeps :
      (env : Env) (name : Ecu) (key : Bytes) (did e : ℕ) (payload : Bytes) (files : Files)
      → did ≢ e
      → counter_in tx e (secoc_build aes_cmac (env.tx_disk name) key did payload files).1
        ≡ counter_in tx e files
  unfolding secoc_build finish_build
  secoc_build-keeps env name key did e payload files other =
      let fv = succ (load (env.tx_disk name).reads tx did files) in
      elim (Option-cases (secoc_mac aes_cmac key did payload fv)) [
        | inl no_mac ↦ rw no_mac refl
        | inr (mac, made) ↦ rw made (
            counter_in-store_other (env.tx_disk name).fault tx tx did e (pos_part fv) files
              (λ same. other same.1))
      ]

-- An entry of `_pending` answers under the identifier of its name.
abbrev pub IsNamed : Ecu × Pending → Type 0
IsNamed (name, p) = p.did_appr ≡ verdict_did name

-- No counter of the verdicts to `e` was used twice, and none is above the file.
pub record IsFresh (e : Ecu) (n : Node) : Type 0 where
  pub spent : IsSpent (counter_in tx (verdict_did e) n.files) (counters_to e n.sent)
  pub named : All IsNamed n.pending

module _ (e : Ecu) where
  put_frame-IsFresh :
      (env : Env) (name : Ecu) (can_id : ℕ) (built : Option (Bytes × ℕ)) (n : Node)
      → All IsNamed n.pending
      → IsSpent (counter_in tx (verdict_did e) n.files) (counters_to e n.sent)
      → ((frame : Bytes) (fv : ℕ)
          → built ≡ some (frame, fv)
          → ecu_eq.beq name e ≡ true
          → IsSpent (counter_in tx (verdict_did e) n.files) (fv ∷ counters_to e n.sent))
      → IsFresh e (node_of (put_frame env name can_id built n))
  unfolding put_frame
  put_frame-IsFresh env name can_id none n named old new = record { spent = old; named = named }
  put_frame-IsFresh env name can_id (some (frame, fv)) n named old new =
      elim (Bool-cases (env.can_ready name)) [
        | inr dead ↦ rw dead (record { spent = old; named = named })
        | inl ready ↦ rw ready (elim (Bool-cases (ecu_eq.beq name e)) [
          | inl same ↦ record { spent = rw same (new frame fv refl same); named = named }
          | inr other ↦ record { spent = rw other old; named = named }
        ])
      ]

module _ (aes_cmac : Bytes → Bytes → Option Bytes) (e : Ecu) where
  elsewhere : (name : Ecu) → ecu_eq.beq name e ≡ false → verdict_did name ≢ verdict_did e
  elsewhere name other q = cc (other, (ecu_eq.beq_iff name e).1 (verdict_did-injective name e q))

  -- What `put_frame` needs of the counter file, for the ECU itself.
  own_counter :
      (env : Env) (name : Ecu) (key : Bytes) (did : ℕ) (payload : Bytes) (files : Files)
      (cs : List ℕ)
      → (env.tx_disk name).reads ≡ true
      → IsSpent (counter_in tx did files) cs
      → (let built = secoc_build aes_cmac (env.tx_disk name) key did payload files in
          IsSpent (counter_in tx did built.1) cs
          × ((frame : Bytes) (fv : ℕ)
              → built.0 ≡ some (frame, fv)
              → IsSpent (counter_in tx did built.1) (fv ∷ cs)))
  own_counter env name key did payload files cs readable h =
      let disk = env.tx_disk name in
      let h' = subst (λ z. IsSpent z cs) (sym (load-counter_in disk tx did files readable)) h in
      elim (secoc_build-load aes_cmac env name key did payload files) [
        | inl (failed, kept) ↦
            (subst (λ z. IsSpent z cs) (sym kept) h, λ frame fv e'. cc (failed, e'))
        | inr (made, out, stored) ↦ (
          subst (λ z. IsSpent z cs) (sym stored)
              (IsSpent-succ (load disk.reads tx did files) cs h'),
          λ frame fv e'.
              subst (λ z. IsSpent z (fv ∷ cs)) (sym stored)
                (subst
                  (λ c. IsSpent (pos (pos_part (succ (load disk.reads tx did files)))) (c ∷ cs))
                  (ap (λ x. x.1) (some-injective _ _ (sym out ∙ e')))
                  (IsSpent-cons (load disk.reads tx did files) cs h')),
        )
      ]

  pub send_verdict-IsFresh :
      (env : Env) (name : Ecu) (did can_id slot : ℕ) (approved : Bool) (n : Node)
      → (env.tx_disk name).reads ≡ true
      → did ≡ verdict_did name
      → IsFresh e n
      → IsFresh e (node_of (send_verdict aes_cmac env name did can_id slot approved n))
  unfolding send_verdict
  send_verdict-IsFresh env name did can_id slot approved n readable of_name h =
      let payload = verdict_byte approved ∷ slot ∷ [] in
      let cs = counters_to e n.sent in
      let (built, files) =
        secoc_build aes_cmac (env.tx_disk name) n.config.key did payload n.files in
      elim (Bool-cases (ecu_eq.beq name e)) [
        | inr other ↦
            put_frame-IsFresh e env name can_id built (with_files files n) h.named
              (subst (λ z. IsSpent z cs)
                (sym (
                  secoc_build-keeps aes_cmac env name n.config.key did (verdict_did e) payload
                    n.files (λ q. elsewhere name other (sym of_name ∙ q))))
                h.spent)
              (λ frame fv _ same. cc (other, same))
        | inl same ↦
            (let own : did ≡ verdict_did e =
                of_name ∙ ap verdict_did ((ecu_eq.beq_iff name e).0 same) in
              let (old, new) =
                own_counter env name n.config.key did payload n.files cs readable
                  (subst (λ d. IsSpent (counter_in tx d n.files) cs) (sym own) h.spent) in
              put_frame-IsFresh e env name can_id built (with_files files n) h.named
                (subst (λ d. IsSpent (counter_in tx d files) cs) own old)
                (λ frame fv out _.
                  subst (λ d. IsSpent (counter_in tx d files) (fv ∷ cs)) own (new frame fv out)))
      ]
