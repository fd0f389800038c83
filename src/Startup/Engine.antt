-- ===== src/Startup/Engine.antt =====
-- app/sms_relay/db.py: the engine and the session maker that the process makes once and keeps.
use sms_relay.Common.{
  ◌≡◌, refl, sym, ap, inl, inr, Bool, Option, none, some, List, [], ◌∷◌, ◌++◌, if◌then◌else◌,
  Bool-cases, Text, text,
}
use mathlib.Core.Option.{some-injective}
use sms_relay.Common.Result.{Result, ok, raise, other_error, ◌>>=◌, ok_injective}
use sms_relay.Config.{Settings}

-- `_url`
unfoldable pub database_url : Settings → Text
database_url settings = text "sqlite+aiosqlite:///" ++ settings.db_path

-- What a new connection executes.
abbrev pub pragmas : List Text
pragmas =
    text "PRAGMA journal_mode=WAL"
    ∷ text "PRAGMA synchronous=NORMAL"
    ∷ text "PRAGMA foreign_keys=ON"
    ∷ text "PRAGMA busy_timeout=5000"
    ∷ []

pub record Engine : Type 0 where
  pub url : Text
  pub on_connect : List Text

unfoldable pub new_engine : Settings → Engine
unfolding database_url
new_engine settings = record { url = database_url settings; on_connect = pragmas }

-- `_engine`, and `_sessionmaker` by the engine that it was made with.
pub record Globals : Type 0 where
  pub engine : Option Engine
  pub sessionmaker : Option Engine

module _ (makes_parent : Text → Bool) where
  -- `get_engine`, where `makes_parent` tells whether the directory of the file can be made.
  unfoldable pub get_engine : Settings → Globals → Result (Engine × Globals)
  unfolding new_engine
  get_engine settings globals = elim globals.engine [
    | some engine ↦ ok (engine, globals)
    | none ↦
        if makes_parent settings.db_path
        then ok (new_engine settings, record globals { engine = some (new_engine settings) })
        else raise other_error
  ]

  -- `get_sessionmaker`: the engine of the sessions.
  unfoldable pub get_sessionmaker : Settings → Globals → Result (Engine × Globals)
  unfolding get_engine
  get_sessionmaker settings globals = elim globals.sessionmaker [
    | some engine ↦ ok (engine, globals)
    | none ↦ get_engine settings globals >>= λ (made : Engine × Globals).
        ok (made.0, record made.1 { sessionmaker = some made.0 })
  ]

  -- The session maker stands on the engine, and every connection of the engine executes the pragmas.
  pub record IsCoherent (g : Globals) : Type 0 where
    pub guarded : (e : Engine) → g.engine ≡ some e → e.on_connect ≡ pragmas
    pub same : (e : Engine) → g.sessionmaker ≡ some e → g.engine ≡ some e

  result_of :
      {a b : Engine} {u v : Globals}
      → ◌≡◌ {A = Result (Engine × Globals)} (ok (a, u)) (ok (b, v))
      → (b ≡ a) × (v ≡ u)
  result_of k = let p = ok_injective _ _ k in (sym (ap (λ q. q.0) p), sym (ap (λ q. q.1) p))

  -- What a first session leaves for every later call.
  abbrev Serves : Engine → Globals → Type 0
  Serves e g =
      ((later : Settings)
        → (get_sessionmaker later g ≡ ok (e, g)) × (get_engine later g ≡ ok (e, g)))
      × (e.on_connect ≡ pragmas)

  sessions_served :
      (settings : Settings) (engine sessionmaker : Option Engine) {g' : Globals} {e : Engine}
      → IsCoherent (record { engine = engine; sessionmaker = sessionmaker })
      → get_sessionmaker settings (record { engine = engine; sessionmaker = sessionmaker })
        ≡ ok (e, g')
      → Serves e g'
  unfolding get_sessionmaker get_engine new_engine
  sessions_served settings none (some kept) coherent h = absurd (cc (coherent.same kept refl))
  sessions_served settings (some made) (some kept) coherent h =
      let (same, still) = result_of h in
      let known : made ≡ kept = some-injective _ _ (coherent.same kept refl) in
      let guarded = coherent.guarded made refl in
      rw (same, still, sym known) ((λ later. (refl, refl)), guarded)
  sessions_served settings (some kept) none coherent h =
      let (same, still) = result_of h in
      rw (same, still) ((λ later. (refl, refl)), coherent.guarded kept refl)
  sessions_served settings none none coherent h =
      elim (Bool-cases (makes_parent settings.db_path)) [
        | inl made ↦
            let (same, still) = result_of (rw made at h) in
            rw (same, still) ((λ later. (refl, refl)), refl)
        | inr refused ↦ absurd (cc (rw refused at h))
      ]

  -- Once a session was opened, the sessions and the engine of every later call, whatever the settings
  -- are then, are those of the one engine, whose connections enforce foreign keys.
  pub one_engine :
      (settings later : Settings) (g g' : Globals) {e : Engine}
      → IsCoherent g
      → get_sessionmaker settings g ≡ ok (e, g')
      → (get_sessionmaker later g' ≡ ok (e, g'))
        × (get_engine later g' ≡ ok (e, g'))
        × (e.on_connect ≡ pragmas)
  one_engine settings later g g' coherent h =
      let (calls, guarded) = sessions_served settings g.engine g.sessionmaker coherent h in
      ((calls later).0, (calls later).1, guarded)
