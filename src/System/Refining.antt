-- ===== src/System/Refining.antt =====
-- The service with its send loop in progress, seen by its database alone
-- (app/sms_relay/routes/, app/sms_relay/worker.py).
use sms_relay.Common.{refl}
use sms_relay.Config.{Settings}
use sms_relay.External.{External}
use sms_relay.Models.Db.{Db}
use sms_relay.System.{
  outside, requeues, claims, publishes, falls_back, settles, writes, prunes, Steps, unmoved,
  stepped,
}
use sms_relay.System.Machine
use sms_relay.System.Machine.{Service, Move, Runs, at_rest, moved}

module _ (x : External) (settings : Settings) where
  -- Each commit of the service in progress is a commit of the service, or none.
  Move-Steps :
      {db : Db} {s s' : Service}
      → Steps x settings db s.db
      → Move x settings s s'
      → Steps x settings db s'.db
  Move-Steps run (Machine.acts db' w e) = rw e (stepped run (writes (outside w)))
  Move-Steps run (Machine.prunes now e) = rw e (stepped run (prunes now refl))
  Move-Steps run (Machine.requeues now idle e) = rw e (stepped run (writes (requeues now refl)))
  Move-Steps run (Machine.claims now m db' idle taken e) =
      rw e (stepped run (writes (claims now m taken)))
  Move-Steps run (Machine.publishes now m receipt held by_ntfy e) =
      rw e (stepped run (writes (publishes now m receipt refl)))
  Move-Steps run (Machine.falls_back now m held by_ntfy e) =
      rw e (stepped run (writes (falls_back now m refl)))
  Move-Steps run (Machine.settles now m outcome held by_sms e) =
      rw e (stepped run (writes (settles now m outcome refl)))
  Move-Steps run (Machine.drops e) = rw e run

  -- Whatever the service in progress does, its database comes to what commits of requests and loops, in
  -- any order, lead to.
  pub Runs-Steps : {s s' : Service} → Runs x settings s s' → Steps x settings s.db s'.db
  Runs-Steps at_rest = unmoved
  Runs-Steps (moved runs m) = Move-Steps (Runs-Steps runs) m
