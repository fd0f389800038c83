-- ===== src/Grafana/Keys.antt =====
-- The idempotency key of a group of alerts (app/sms_relay/routes/grafana.py).
use sms_relay.Common.{ℕ, ◌≡◌, refl, sym, ap, ◌∙◌, List, [], ◌∷◌, ◌++◌, map, text}
use mathlib.Core.List.{Permᴰ}
use sms_relay.Common.Order.{sort-map, sort-perm}
use sms_relay.Common.Sort.{sort}
use sms_relay.External.{External}
use sms_relay.Grafana.Alerts.{Entry}
use sms_relay.Grafana.{Identity, identity, rank, rank_order, ordered, dump_identities, group_key}

map-map {ℓ κ ν} :
    {A : Type ℓ} {B : Type κ} {C : Type ν} (g : B → C) (f : A → B) (xs : List A)
    → map g (map f xs) ≡ map (λ x. g (f x)) xs
map-map g f [] = refl
map-map g f (x ∷ xs) = ap (◌∷◌ (g (f x))) (map-map g f xs)

abbrev identity_of_rank : ℕ × Identity → Identity
identity_of_rank r = r.1

-- The identities of the sorted entries are those of the sorted ranks.
ordered-identities :
    (entries : List Entry)
    → map identity (ordered entries) ≡ map identity_of_rank (sort rank_order.le (map rank entries))
unfolding ordered
ordered-identities entries =
    sym (map-map identity_of_rank rank (ordered entries))
    ∙ ap (map identity_of_rank) (sort-map rank_order.le rank entries)

-- Two groups whose alerts have the same priorities and the same fingerprints, start times, states and
-- reminder counts, in whatever order they stand and whatever else they say, have one key.
pub group_key-perm :
    (x : External) (a b : List Entry)
    → Permᴰ (map rank a) (map rank b)
    → group_key x a ≡ group_key x b
unfolding group_key
group_key-perm x a b p =
    let same : map identity (ordered a) ≡ map identity (ordered b) =
      ordered-identities a
      ∙ ap (map identity_of_rank) (sort-perm rank_order p)
      ∙ sym (ordered-identities b) in
    ap (λ ids. text "grafana-group-" ++ x.sha256 (dump_identities ids)) same
