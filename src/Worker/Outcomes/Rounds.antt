-- ===== src/Worker/Outcomes/Rounds.antt =====
-- What a round of the send loop makes of the rows (app/sms_relay/worker.py, send_loop).
use sms_relay.External.{External}
use sms_relay.Models.Db.{Db}
