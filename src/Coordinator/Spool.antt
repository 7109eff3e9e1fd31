-- ===== src/Coordinator/Spool.antt =====
-- The file spool that the head unit watches: offers, verdicts and notices.
use ros2_ws_gp.Common.{
  ℕ, ◌+◌, ◌/◌, Bool, true, false, ◌&&◌, ◌||◌, none, some, [], ◌∷◌, ◌++◌, leb, ltb, if◌then◌else◌,
  take, drop, reverse,
}
use ros2_ws_gp.Common.Dict.{Dict, lookup, insert, erase}
use ros2_ws_gp.Common.Text.{Text, text_eq, text_beq, codes, strip, lower, before_first}
use ros2_ws_gp.Common.Text.Decimal.{print}
use ros2_ws_gp.Secoc.Store.{FileText, chars, undecodable}
use ros2_ws_gp.Coordinator.State.{
  Ecu, ecu_text, Budget, Offer, OfferFile, offered, NoticeFile, noticed, Spool, Config, Node, Env,
  in_offers, in_verdicts, in_notices,
}

abbrev pub json : Text
json = codes ".json"

-- `f"{name}-{int(time.time())}-{seq}"`
unfoldable pub offer_id : Ecu → ℕ → ℕ → Text
offer_id name now seq = ecu_text name ++ (b'-' ∷ (print (now / 1000) ++ (b'-' ∷ print seq)))

-- A head unit is up and able to answer a prompt.
unfoldable pub ui_available : Env → Config → Bool
ui_available env config =
    if env.offers_dir
    then elim env.alive_mtime [ none ↦ false | some m ↦ leb env.now (m + config.ui_max_age_ms) ]
    else false

-- `chr(slot) if 32 <= slot < 127 else str(slot)`
abbrev pub slot_text : ℕ → Text
slot_text slot = if leb 32 slot && ltb slot 127 then slot ∷ [] else print slot

-- `_write_offer`: whether the offer is there, and the spool. A write that fails leaves at most a
-- temporary file, which no one reads.
unfoldable pub write_offer : Env → Text → Ecu → ℕ → Budget → Spool → Bool × Spool
write_offer env oid target slot budget spool =
    if env.offers_writable
    then (true, record spool { offers = insert (oid ++ json) (offered offer) spool.offers })
    else (false, spool)
  where
    offer : Offer
    offer = record {
      id = oid;
      target = target;
      slot = slot_text slot;
      requested_at = env.now / 1000;
      expires_at = (env.now + budget.deadline_ms) / 1000;
      auto_accept_ms = budget.ui_ms;
      stops_vehicle = true;
    }

-- A file that cannot be removed stays.
abbrev pub unlink : {V : Type 0} → Bool → Text → Dict Text V → Dict Text V
unlink removable name files = if removable then erase name files else files

unfoldable pub withdraw_offer : Env → Text → Spool → Spool
withdraw_offer env oid spool = record spool {
  offers = unlink (env.unlinks in_offers (oid ++ json)) (oid ++ json) spool.offers;
  verdicts = unlink (env.unlinks in_verdicts oid) oid spool.verdicts;
}

-- `_read_verdict`: None, True or False, or the UnicodeDecodeError that it does not catch.
pub data Answer : Type 0 where
  silent garbled : Answer
  said : Bool → Answer

unfoldable pub judge : Text → Bool
judge word =
    if text_beq word (codes "approve")
    then true
    else if text_beq word (codes "deny")
    then false
    else false

unfoldable pub read_verdict : Env → Text → Spool → Answer
unfolding judge strip lower
read_verdict env oid spool = elim (lookup oid spool.verdicts) [
  | none ↦ silent
  | some file ↦ if env.verdict_readable oid then heard file else silent
]
  where
    heard : FileText → Answer
    heard undecodable = garbled
    heard (chars t) = said (judge (lower (strip (take 32 t))))

-- `_write_notice`, with the timer that will expire the notice.
unfoldable pub write_notice : Env → Ecu → Node → Node
write_notice env target n =
    if env.notices_dir && env.notices_writable
    then record n {
      spool = record (n.spool) {
        notices = insert file (noticed target (env.now / 1000)) n.spool.notices;
      };
      notice_timers = file ∷ n.notice_timers;
    }
    else n
  where
    file : Text
    file = ecu_text target ++ (b'-' ∷ (print (env.now / 1000) ++ json))

-- `fn.endswith(".json")`
unfoldable pub is_json : Text → Bool
is_json name = text_beq (take 5 (reverse name)) (reverse json)

-- `fn[:-len(".json")]`
unfoldable pub stem : Text → Text
stem name = reverse (drop 5 (reverse name))

-- `oid.split("-", 1)[0] in BUDGETS`
unfoldable pub is_ours : Text → Bool
is_ours oid =
    text_beq (before_first b'-' oid) (codes "cluster")
    || text_beq (before_first b'-' oid) (codes "esp32")

-- A file that the sweep takes for an offer of an earlier run.
unfoldable pub is_stale : Text → Bool
unfolding is_json stem is_ours
is_stale name = is_json name && is_ours (stem name)

unfoldable pub sweep_one : Env → Text → Spool → Spool
sweep_one env name spool = if is_stale name then withdraw_offer env (stem name) spool else spool

-- `_sweep_stale_offers`, over the names that `os.listdir` gave.
unfoldable pub sweep_offers : Env → Dict Text OfferFile → Spool → Spool
sweep_offers env [] spool = spool
sweep_offers env ((name, _) ∷ names) spool = sweep_offers env names (sweep_one env name spool)

-- `_sweep_notices`
unfoldable pub sweep_notices : Env → Dict Text NoticeFile → Dict Text NoticeFile
unfolding is_json
sweep_notices env [] = []
sweep_notices env ((name, file) ∷ names) =
    let rest = sweep_notices env names in
    if is_json name && env.unlinks in_notices name then rest else (name, file) ∷ rest
