-- ===== src/Grafana/Appending.antt =====
-- What a Grafana webhook leaves in the tables (app/sms_relay/routes/grafana.py).
use sms_relay.Common.{ℕ, ◌≡◌, refl, ◌⊎◌, inl, inr, List, Text}
use sms_relay.Common.Result.{Result, ok, raise, Result-cases}
use sms_relay.Config.{Settings}
use sms_relay.External.{External}
use sms_relay.Grafana.{answered, grafana_request, grafana}
use sms_relay.Messages.{send_message}
use sms_relay.Models.Db.{Db}
use sms_relay.Schemas.{MessageOut, SendRequest}

answered_table : (n : ℕ) (q : Result (List MessageOut) × Db) → (answered n q).1 ≡ q.1
unfolding answered
answered_table n (raise e, db) = refl
answered_table n (ok outs, db) = refl

-- A Grafana webhook changes nothing, or what its send changes.
pub grafana-cases :
    (x : External) (settings : Settings) (service : Text) (clock : ℕ → ℕ) (now : ℕ)
    (uuid4 : ℕ → Text) (chunks : List Text) (seen db : Db)
    → ((grafana x settings service clock now uuid4 chunks seen db).1 ≡ db)
      ⊎ ((r : SendRequest) × ((grafana x settings service clock now uuid4 chunks seen db).1
            ≡ (send_message x settings r service now uuid4 seen db).1))
unfolding grafana
grafana-cases x settings service clock now uuid4 chunks seen db =
    elim (Result-cases (grafana_request x settings service clock chunks)) [
      | inr (e, refused) ↦ inl (rw (refused, grafana) refl)
      | inl ((r, n), asked) ↦ inr (
        r,
        rw (asked, grafana)
            (answered_table n (send_message x settings r service now uuid4 seen db)),
      )
    ]
