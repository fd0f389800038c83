-- ===== src/System/Keeping.antt =====
-- No message is lost or changed on its way (app/sms_relay/routes/, app/sms_relay/worker.py).
use sms_relay.Common.{
  ℕ, ◌≡◌, sym, subst, ◌⊎◌, inl, inr, Bool, true, false, not, List, [], ◌∷◌, ◌++◌, arith, Bool-cases,
  select, Any, Any-map, Pointwise,
}
use sms_relay.Config.{Settings}
use sms_relay.External.{External}
use sms_relay.Models.{Message, is_terminal}
use sms_relay.Models.Db.{Db}
use sms_relay.Models.Db.Constraints.{IsSound}
use sms_relay.Models.Lifecycle.{IsSameMessage, IsSameMessage-refl, IsSameMessage-trans}
use sms_relay.System.{Step, writes, prunes, Steps, unmoved, stepped}
use sms_relay.System.Invariant.{Step-IsSound, Write-Sound}
use sms_relay.Worker.Upkeep.{prune, is_pruned}

module _ (m : Message) where
  -- The message is stored, in a status that is terminal or not.
  abbrev pub IsStoredAs : Bool → List Message → Type 0
  IsStoredAs terminal = Any (λ n. IsSameMessage m n × (is_terminal n.status ≡ terminal))

  stored_as :
      (rows : List Message)
      → Any (λ n. IsSameMessage m n) rows
      → IsStoredAs false rows ⊎ IsStoredAs true rows
  stored_as [] a = elim a [ ]
  stored_as (n ∷ rows) (inl same) = elim (Bool-cases (is_terminal n.status)) [
    | inl over ↦ inr (inl (same, over))
    | inr waits ↦ inl (inl (same, waits))
  ]
  stored_as (n ∷ rows) (inr a) = elim (stored_as rows a) [
    | inl waits ↦ inl (inr waits)
    | inr over ↦ inr (inr over)
  ]

  Any-Pointwise :
      (rows rows' rest : List Message)
      → Pointwise IsSameMessage rows rows'
      → IsStoredAs false rows
      → Any (λ n. IsSameMessage m n) (rows' ++ rest)
  Any-Pointwise [] rows' rest h a = elim a [ ]
  Any-Pointwise (n ∷ rows) [] rest h a = elim h [ ]
  Any-Pointwise (n ∷ rows) (n' ∷ rows') rest h (inl a) = inl (IsSameMessage-trans m n n' a.0 h.0)
  Any-Pointwise (n ∷ rows) (n' ∷ rows') rest h (inr a) = inr (Any-Pointwise rows rows' rest h.1 a)

  Any-unpruned :
      (settings : Settings) (now : ℕ) (rows : List Message)
      → IsStoredAs false rows
      → IsStoredAs false (select (λ n. not (is_pruned settings now n)) rows)
  unfolding is_pruned
  Any-unpruned settings now [] a = elim a [ ]
  Any-unpruned settings now (n ∷ rows) (inl a) =
      let kept : is_pruned settings now n ≡ false = ground (arith, a.1) in rw kept (inl a)
  Any-unpruned settings now (n ∷ rows) (inr a) =
      let rest = Any-unpruned settings now rows a in
      elim (Bool-cases (is_pruned settings now n)) [
        | inl gone ↦ rw gone rest
        | inr kept ↦ rw kept (inr rest)
      ]

module _ (x : External) (settings : Settings) (m : Message) where
  Step-kept :
      {d e : Db}
      → IsSound d
      → Step x settings d e
      → IsStoredAs m false d.messages
      → IsStoredAs m false e.messages ⊎ IsStoredAs m true e.messages
  Step-kept {d} {e} sound (writes w) a =
      let (rows, rest, same, stored) = (Write-Sound x settings w sound).1 in
      stored_as m e.messages (
        subst (Any (λ n. IsSameMessage m n)) (sym stored)
          (Any-Pointwise m d.messages rows rest same a))
  Step-kept {d} sound (prunes now e) a =
      inl (rw e (unfold prune in Any-unpruned m settings now d.messages a))

  -- In one of the databases of a run, the message is stored in a terminal status.
  abbrev pub HasEnded : {d e : Db} → Steps x settings d e → Type 0
  HasEnded {d} unmoved = IsStoredAs m true d.messages
  HasEnded {e = e} (stepped run s) = HasEnded run ⊎ IsStoredAs m true e.messages

  Steps-IsSound : {d e : Db} → Steps x settings d e → IsSound d → IsSound e
  Steps-IsSound unmoved sound = sound
  Steps-IsSound (stepped run s) sound = Step-IsSound x settings s (Steps-IsSound run sound)

  -- From a sound database on, a stored message is, after any commits of requests and loops, the deletion
  -- of old rows included, still stored with all that it was handed over with and in no terminal status,
  -- unless it was, at the start or after one of the commits, in a terminal one.
  pub never_lost :
      {d e : Db} (run : Steps x settings d e)
      → IsSound d
      → Any (λ n. n ≡ m) d.messages
      → IsStoredAs m false e.messages ⊎ HasEnded run
  never_lost {d} unmoved sound a = stored_as m d.messages (
      Any-map (λ n. n ≡ m) (λ n e. subst (IsSameMessage m) (sym e) (IsSameMessage-refl m))
        d.messages a)
  never_lost (stepped run s) sound a = elim (never_lost run sound a) [
    | inr ended ↦ inr (inl ended)
    | inl waits ↦ elim (Step-kept (Steps-IsSound run sound) s waits) [
      | inl still ↦ inl still
      | inr over ↦ inr (inr over)
    ]
  ]
