-- ===== src/Common/Sort.antt =====
-- ORDER BY and `list.sort`: a stable insertion sort by a test `before a b`, "a may stand before b".
use sms_relay.Common.Tests.{if◌then◌else◌, Bool-cases}
use sms_relay.Common.Lists.{All, Any, All-take, length, take, drop}
use Prim.Native.Nat.{ℕ, zero, suc}
use mathlib.Core.Path.{◌≡◌, refl, ap, ◌∙◌}
use mathlib.Core.Logic.{◌⊎◌, inl, inr}
use mathlib.Core.Bool.{Bool, true, false}
use mathlib.Core.List.{List, [], ◌∷◌, map}
use native.Mathlib.Omega.{arith}

module _ {ℓ} {A : Type ℓ} (before : A → A → Bool) where
  unfoldable pub insert_sorted : A → List A → List A
  insert_sorted a [] = a ∷ []
  insert_sorted a (b ∷ bs) =
      let rest = insert_sorted a bs in if before a b then a ∷ b ∷ bs else b ∷ rest

  unfoldable pub sort : List A → List A
  unfolding insert_sorted
  sort [] = []
  sort (a ∷ as') = insert_sorted a (sort as')

  pub length-insert_sorted : (a : A) (bs : List A) → length (insert_sorted a bs) ≡ suc (length bs)
  unfolding insert_sorted
  length-insert_sorted a [] = refl
  length-insert_sorted a (b ∷ bs) = ground (arith, length-insert_sorted a bs)

  pub length-sort : (as' : List A) → length (sort as') ≡ length as'
  unfolding sort
  length-sort [] = refl
  length-sort (a ∷ as') = length-insert_sorted a (sort as') ∙ ap suc (length-sort as')

  -- Every element may stand before all that follow it.
  abbrev pub IsSorted : List A → Type ℓ
  IsSorted [] = Unit
  IsSorted (a ∷ as') = All (λ b. before a b ≡ true) as' × IsSorted as'

  module _ {κ} (P : A → Type κ) where
    pub All-insert_sorted : (a : A) (bs : List A) → P a → All P bs → All P (insert_sorted a bs)
    unfolding insert_sorted
    All-insert_sorted a [] p h = (p, tt)
    All-insert_sorted a (b ∷ bs) p h = ground (arith, All-insert_sorted a bs p h.1)

    pub All-sort : (as' : List A) → All P as' → All P (sort as')
    unfolding sort
    All-sort [] h = tt
    All-sort (a ∷ as') h = All-insert_sorted a (sort as') h.0 (All-sort as' h.1)

  pub IsSorted-take : (n : ℕ) (xs : List A) → IsSorted xs → IsSorted (take n xs)
  IsSorted-take zero xs h = tt
  IsSorted-take (suc n) [] h = tt
  IsSorted-take (suc n) (x ∷ xs) h =
      (All-take (λ b. before x b ≡ true) n xs h.0, IsSorted-take n xs h.1)

  pub IsSorted-drop : (n : ℕ) (xs : List A) → IsSorted xs → IsSorted (drop n xs)
  IsSorted-drop zero xs h = h
  IsSorted-drop (suc n) [] h = tt
  IsSorted-drop (suc n) (x ∷ xs) h = IsSorted-drop n xs h.1

All-before-map {ℓ κ} :
    {A : Type ℓ} {B : Type κ} (before : A → A → Bool) (after : B → B → Bool) (f : A → B)
    → ((a b : A) → before a b ≡ true → after (f a) (f b) ≡ true)
    → (a : A) (xs : List A) → All (λ b. before a b ≡ true) xs
    → All (λ b. after (f a) b ≡ true) (map f xs)
All-before-map before after f mono a [] h = tt
All-before-map before after f mono a (x ∷ xs) h =
    (mono a x h.0, All-before-map before after f mono a xs h.1)

pub IsSorted-map {ℓ κ} :
    {A : Type ℓ} {B : Type κ} (before : A → A → Bool) (after : B → B → Bool) (f : A → B)
    → ((a b : A) → before a b ≡ true → after (f a) (f b) ≡ true)
    → (xs : List A) → IsSorted before xs
    → IsSorted after (map f xs)
IsSorted-map before after f mono [] h = tt
IsSorted-map before after f mono (x ∷ xs) h =
    (All-before-map before after f mono x xs h.0, IsSorted-map before after f mono xs h.1)

module _ {ℓ κ} {A : Type ℓ} (before : A → A → Bool) (P : A → Type κ) where
  All-uninsert : (a : A) (bs : List A) → All P (insert_sorted before a bs) → P a × All P bs
  unfolding insert_sorted
  All-uninsert a [] h = h
  All-uninsert a (b ∷ bs) h = ground (arith, All-uninsert a bs)

  -- What holds of every sorted element holds of every element.
  pub All-unsort : (xs : List A) → All P (sort before xs) → All P xs
  unfolding sort
  All-unsort [] h = tt
  All-unsort (x ∷ xs) h =
      let (p, rest) = All-uninsert x (sort before xs) h in (p, All-unsort xs rest)

  Any-uninsert : (a : A) (bs : List A) → Any P (insert_sorted before a bs) → P a ⊎ Any P bs
  unfolding insert_sorted
  Any-uninsert a [] h = h
  Any-uninsert a (b ∷ bs) h = ground (arith, Any-uninsert a bs)

  pub Any-unsort : (xs : List A) → Any P (sort before xs) → Any P xs
  unfolding sort
  Any-unsort [] h = h
  Any-unsort (x ∷ xs) h = elim (Any-uninsert x (sort before xs) h) [
    | inl p ↦ inl p
    | inr rest ↦ inr (Any-unsort xs rest)
  ]

module _ {ℓ} {A : Type ℓ} (before : A → A → Bool)
    (total : (a b : A) → before a b ≡ false → before b a ≡ true)
    (trans : (a b c : A) → before a b ≡ true → before b c ≡ true → before a c ≡ true) where
  All-before :
      (a b : A) (cs : List A)
      → before a b ≡ true
      → All (λ c. before b c ≡ true) cs
      → All (λ c. before a c ≡ true) cs
  All-before a b [] h k = tt
  All-before a b (c ∷ cs) h k = (trans a b c h k.0, All-before a b cs h k.1)

  insert_sorted-IsSorted :
      (a : A) (bs : List A) → IsSorted before bs → IsSorted before (insert_sorted before a bs)
  unfolding insert_sorted
  insert_sorted-IsSorted a [] h = (tt, tt)
  insert_sorted-IsSorted a (b ∷ bs) h = elim (Bool-cases (before a b)) [
    | inl first ↦ rw first ((first, All-before a b bs first h.0), h)
    | inr later ↦ rw later (
      All-insert_sorted before (λ c. before b c ≡ true) a bs (total a b later) h.0,
      insert_sorted-IsSorted a bs h.1,
    )
  ]

  pub sort-IsSorted : (as' : List A) → IsSorted before (sort before as')
  unfolding sort
  sort-IsSorted [] = tt
  sort-IsSorted (a ∷ as') = insert_sorted-IsSorted a (sort before as') (sort-IsSorted as')
