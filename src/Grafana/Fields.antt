-- ===== src/Grafana/Fields.antt =====
-- The fields of the request that a group of alerts becomes (app/sms_relay/routes/grafana.py).
use sms_relay.Common.{
  ℕ, suc, ◌+◌, ◌-◌, ◌≤◌, ◌<◌, ◌≡◌, refl, ap, subst, ◌⊎◌, inl, inr, Bool, true, false, List, [], ◌∷◌,
  ◌++◌, map, arith, ltb, Bool-cases, length, All, length-append, length-take, length-map, Text,
  text, join,
}
use sms_relay.Common.Json.{Json, get}
use sms_relay.Common.Result.{ok, >>=-eq-ok, ok_injective}
use sms_relay.Common.Sort.{length-sort, All-sort}
use sms_relay.External.{External}
use sms_relay.Grafana.Alerts.{
  Alert, Entry, AlertState, affected, is_critical, alert_of, firing, resolved, priority_of,
  alert_text, entry_of, entries_of,
}
use sms_relay.Grafana.{
  identity, rank, rank_order, ordered, dump_identities, joined, left_out, group_key, max_priority,
  kept_lines, group_text, group_request,
}
use sms_relay.Grafana.Size.{length-group_text}
use sms_relay.Schemas.{is_valid_request}

-- What every checked alert has.
record IsEntry (e : Entry) : Type 0 where
  worded : 0 < length e.line
  short : length e.line ≤ 1800
  least : 1 ≤ e.priority
  most : e.priority ≤ 4

priority_of_bounds :
    (s : AlertState) (critical : Bool) → (1 ≤ priority_of s critical) × (priority_of s critical ≤ 4)
unfolding priority_of
priority_of_bounds firing critical = ground arith
priority_of_bounds resolved critical = ground arith

alert_text_worded :
    (s : AlertState) (name summary where_ : Text) → 0 < length (alert_text s name summary where_)
unfolding alert_text
alert_text_worded s name summary where_ = ground arith

entry_of-IsEntry : (x : External) (now : ℕ) (a : Alert) → IsEntry (entry_of x now a)
unfolding entry_of
entry_of-IsEntry x now a =
    let said = alert_text a.state a.name a.summary (affected x a.labels) in
    let (low, high) = priority_of_bounds a.state (is_critical (get (text "severity") a.labels)) in
    record {
      worded = omega (
        arith,
        length-take 1800 said,
        alert_text_worded a.state a.name a.summary (affected x a.labels),
      );
      short = omega (arith, length-take 1800 said);
      least = low;
      most = high;
    }

entries_of-AreEntries :
    (x : External) (clock : ℕ → ℕ) (n : ℕ) (alerts : List Json) {entries : List Entry}
    → entries_of x clock n alerts ≡ ok entries
    → All IsEntry entries × (length entries ≡ length alerts)
unfolding entries_of
entries_of-AreEntries x clock n [] h =
    subst (λ l. All IsEntry l × (length l ≡ 0)) (ok_injective _ _ h) (tt, refl)
entries_of-AreEntries x clock n (alert ∷ alerts) h =
    let (a, checked, h1) = >>=-eq-ok (alert_of x alert) _ h in
    let (rest, read, h2) = >>=-eq-ok (entries_of x clock (suc n) alerts) _ h1 in
    let (good, many) = entries_of-AreEntries x clock (suc n) alerts read in
    subst (λ l. All IsEntry l × (length l ≡ suc (length alerts))) (ok_injective _ _ h2)
      ((entry_of-IsEntry x (clock n) a, good), ap suc many)

max_priority_bounds :
    (entries : List Entry)
    → All IsEntry entries
    → 0 < length entries
    → (1 ≤ max_priority entries) × (max_priority entries ≤ 4)
unfolding max_priority
max_priority_bounds [] h some_entry = absurd (omega arith)
max_priority_bounds (e ∷ []) h some_entry = ground (arith, h.0)
max_priority_bounds (e ∷ f ∷ entries) h some_entry =
    let (low, high) = max_priority_bounds (f ∷ entries) h.1 (omega arith) in
    (omega (arith, h.0.least, low), omega (arith, h.0.most, high))

length-join : (sep line : Text) (lines : List Text) → length line ≤ length (join sep (line ∷ lines))
unfolding join
length-join sep line [] = omega arith
length-join sep line (next ∷ lines) =
    omega (arith, length-append line (sep ++ join sep (next ∷ lines)))

-- The first line is always kept, so the text of a group is not empty.
group_text_worded :
    (line : Text) (lines : List Text)
    → 0 < length line
    → length line ≤ 1800
    → 0 < length (group_text (line ∷ lines))
unfolding group_text kept_lines
group_text_worded line lines worded short =
    let first : ltb 3800 (0 + length line) ≡ false = ground arith in
    let rest = kept_lines (0 + length line + 2) lines in
    let whole = length-join (10 ∷ 10 ∷ []) line rest in
    rw first (elim (Bool-cases (ltb (suc (length rest)) (suc (length lines)))) [
      | inl cut ↦ rw cut (
          omega (
            arith,
            worded,
            whole,
            length-append (joined (line ∷ rest))
                (left_out (suc (length lines) - suc (length rest))),
          ))
      | inr all_in ↦ rw all_in (omega (arith, worded, whole))
    ])

lines_worded :
    (entries : List Entry)
    → All IsEntry entries
    → 0 < length entries
    → 0 < length (group_text (map (λ (e : Entry). e.line) entries))
lines_worded [] h some_entry = absurd (omega arith)
lines_worded (e ∷ entries) h some_entry =
    group_text_worded e.line (map (λ (k : Entry). k.line) entries) h.0.worded h.0.short

length-group_key :
    (x : External) (entries : List Entry)
    → ((body : Text) → length (x.sha256 body) ≡ 64)
    → length (group_key x entries) ≡ 78
unfolding group_key text
length-group_key x entries digest = omega (
  arith,
  length-append (text "grafana-group-")
      (x.sha256 (dump_identities (map identity (ordered entries)))),
  digest (dump_identities (map identity (ordered entries))),
)

ordered-AreEntries :
    (entries : List Entry)
    → All IsEntry entries
    → All IsEntry (ordered entries) × (length (ordered entries) ≡ length entries)
unfolding ordered
ordered-AreEntries entries good = (
  All-sort (λ a b. rank_order.le (rank a) (rank b)) IsEntry entries good,
  length-sort (λ a b. rank_order.le (rank a) (rank b)) entries,
)

-- With a hexdigest of 64 characters, the request made of 1 to 100 checked alerts has fields within the
-- bounds of the schema: a webhook is never refused for its size or its priority.
pub group_request-is_valid :
    (x : External) (clock : ℕ → ℕ) (to : Text ⊎ List Text) (alerts : List Json)
    {entries : List Entry}
    → ((body : Text) → length (x.sha256 body) ≡ 64)
    → 0 < length alerts
    → length alerts ≤ 100
    → entries_of x clock 0 alerts ≡ ok entries
    → is_valid_request (group_request x to entries) ≡ true
unfolding is_valid_request
group_request-is_valid x clock to alerts {entries} digest some_alert few read =
    let (good, many) = entries_of-AreEntries x clock 0 alerts read in
    let (low, high) = max_priority_bounds entries good (omega (arith, many)) in
    let (sorted_good, sorted_many) = ordered-AreEntries entries good in
    let worded = lines_worded (ordered entries) sorted_good (omega (arith, many, sorted_many)) in
    let lines = map (λ (e : Entry). e.line) (ordered entries) in
    let small =
      length-group_text lines
        (omega (arith, many, sorted_many, length-map (λ (e : Entry). e.line) (ordered entries))) in
    ground (arith, low, high, worded, small, length-group_key x entries digest)
