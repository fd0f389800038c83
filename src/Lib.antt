-- ===== src/Lib.antt =====
-- sms-relay: a relay that queues text messages of the services that call it, sends them by a handset
-- or by ntfy, and hands received messages over to subscribers.
--
-- The program is one process over one SQLite database. Requests (app/sms_relay/routes/) write rows of
-- `messages` and `webhook_deliveries` and read them; the loops of app/sms_relay/worker.py take the rows
-- up: `send_loop` sends what is queued, `status_loop` polls for receipts, `fanout_loop` posts
-- deliveries, `prune_loop` drops old rows. The database is a record of the two tables (Models/Db), a
-- handler or a round is a function from the database before to its answer and the database after,
-- and an exception is a value of the type Fault (Common/Result).
--
-- Files, with the code that they are about:
--   Common      lists, texts, dicts, JSON values, results, sorting
--   External    the libraries that the program calls, as fields of one record
--   Models      app/sms_relay/models.py: rows, statuses, constraints; Models/Lifecycle says what may
--               become of a row
--   Config      app/sms_relay/config.py
--   Phone       app/sms_relay/phone.py
--   Auth        app/sms_relay/auth.py
--   Notifications  app/sms_relay/notifications.py
--   Schemas     app/sms_relay/schemas.py
--   Messages    app/sms_relay/routes/messages.py
--   Providers   app/sms_relay/providers/
--   Worker      app/sms_relay/worker.py: send_loop and its limiter (Worker/Limiter); Worker/Upkeep has
--               status_loop, prune_loop and the depth of the queue; Worker/Outcomes, Worker/Retries and
--               Worker/Stranded follow a row through rounds of the send loop
--   Payload, Webhooks  app/sms_relay/webhooks.py, and fanout_loop of app/sms_relay/worker.py
--   Inbound     app/sms_relay/routes/inbound.py
--   Grafana     app/sms_relay/routes/grafana.py
--   Health      app/sms_relay/routes/health.py
--   Metrics     app/sms_relay/metrics.py
--   Startup     app/sms_relay/db.py: the columns that init_db adds to an older table, the engine and the
--               sessions (Startup/Engine)
--   Application app/sms_relay/main.py: the start of the process and its end
--   System      the commits of all requests and loops, as steps in any order; System/Machine has the send
--               loop in progress, which holds a message between its commits
--   Tests       runs at concrete inputs
--
-- A time is a count of microseconds; the reading of a clock, a fresh id (`uuid4 n` is the n-th of a
-- call) and the answer of a server are arguments. The database at the reads of a send, of an inbound
-- webhook or of a round of status_loop or fanout_loop and the one at its commit are two arguments; a
-- round of the send loop runs with no other commit in its course, but see System. A text is the list of
-- its code points. `decimal` runs on fuel: a number is enough fuel for its own digits, since each step
-- divides it by ten. `acquire` runs over the readings of its turns, `send_loop` over the answers of its
-- rounds, and `fanout_loop` over their times and outcomes.
--
-- In System, what a request or a round commits may rest on an older database than the one that it
-- commits to; the send loop commits its claim, its ntfy outcome and its result as three steps, each of
-- which may find any other commits before it. A round of fanout_loop reads its batch and the messages
-- of the batch at once.
--
-- The end of the process waits for its loops: how long each of them still needs is an argument, except
-- for the wait of the send loop for its limiter. A loop that is cancelled there, like one that an exception or a crash stops, drops what it holds
-- (`drops` of System/Machine).
--
-- Not modelled: what SQLAlchemy, FastAPI and asyncio do inside; the sleeps between rounds; the page,
-- the deployment and the capture scripts. An UPDATE of a row that was deleted since it was read raises in
-- the ORM; the send loop's steps let it pass without effect. SQLite computes the age in the metrics as
-- a float of days, here it is exact; a text with a lone surrogate, which cannot be encoded, is taken as
-- any other. `int` reads ASCII, with the limit of 4300 digits.
pub mod Common
pub mod External
pub mod Models
pub mod Config
pub mod Phone
pub mod Application
pub mod Auth
pub mod Notifications
pub mod Schemas
pub mod Messages
pub mod Providers
pub mod Worker
pub mod Payload
pub mod Webhooks
pub mod Inbound
pub mod Tests
pub mod Grafana
pub mod System
pub mod Health
pub mod Metrics
pub mod Startup
