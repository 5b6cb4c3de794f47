-- ===== src/Player/Run/Stable.antt =====
-- Requests to src/player/repository.rs keep whatever each statement keeps.
use fourinarow_server.Player.Tables.{Tables}
use fourinarow_server.Player.Stable.{Stable, event_tx-Rewarding}
use fourinarow_server.Player.Stable.Requests.{
  purchase_tx-Stable, redeem_tx-Stable, claim_tx-Stable, add_item_tx-Stable, settle_tx-Stable,
  complete_level_tx-Stable,
}
use fourinarow_server.Player.Run.Requests.Sequence.{Kept}

pub Kept-Stable : {P : Tables → Type 0} → Stable P → Kept P
Kept-Stable stable = record {
  statistics = stable.player_stats;
  modes = stable.mode_progress;
  purchase = purchase_tx-Stable stable;
  redeem = redeem_tx-Stable stable;
  claim = claim_tx-Stable stable;
  add_item = add_item_tx-Stable stable;
  event = event_tx-Rewarding stable.rewarding;
  settle = settle_tx-Stable stable;
  level = complete_level_tx-Stable stable;
}
