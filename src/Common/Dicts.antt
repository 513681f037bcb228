-- ===== src/Common/Dicts.antt =====
-- `Record<string, V>`: the entries in insertion order. No key of the program is an array index or
-- the name of an inherited property, so order and look-up are those of the entries.
use mathlib.Core.Path.{◌≡◌, refl, ap}
use mathlib.Core.Logic.{◌≢◌, inl, inr}
use mathlib.Core.Option.{Option, none, some}
use mathlib.Core.List.{List, [], ◌∷◌, ◌++◌}
use native.Mathlib.Omega.{arith}
use html_inbox.Common.Tests.{if◌then◌else◌, Bool-cases}
use html_inbox.Common.Strings.{Text, text_eq, text_eq_iff, text_eq_refl}
use html_inbox.Common.Lists.{All}

abbrev pub Dict {ℓ} : Type ℓ → Type ℓ
Dict V = List (Text × V)

module _ {ℓ} {V : Type ℓ} where
  unfoldable pub lookup : Text → Dict V → Option V
  lookup k [] = none
  lookup k ((j, v) ∷ d) = if text_eq j k then some v else lookup k d

  -- `d[k] = v`
  unfoldable pub put : Text → V → Dict V → Dict V
  put k v [] = (k, v) ∷ []
  put k v ((j, w) ∷ d) = if text_eq j k then (j, v) ∷ d else (j, w) ∷ put k v d

  -- `delete d[k]`
  unfoldable pub remove : Text → Dict V → Dict V
  remove k [] = []
  remove k ((j, w) ∷ d) = if text_eq j k then remove k d else (j, w) ∷ remove k d

  abbrev pub values : Dict V → List V
  values [] = []
  values ((k, v) ∷ d) = v ∷ values d

  abbrev pub keys : Dict V → List Text
  keys [] = []
  keys ((k, v) ∷ d) = k ∷ keys d

  -- A change of every value, in place.
  abbrev pub map_values : (V → V) → Dict V → Dict V
  map_values f [] = []
  map_values f ((k, v) ∷ d) = (k, f v) ∷ map_values f d

  pub lookup-put :
      (k j : Text) (v : V) (d : Dict V)
      → lookup j (put k v d) ≡ (if text_eq k j then some v else lookup j d)
  unfolding lookup put
  lookup-put k j v [] = refl
  lookup-put k j v ((i, w) ∷ d) =
      ground (arith, text_eq_iff k j, text_eq_iff i k, text_eq_iff i j, lookup-put k j v d)

  pub lookup-put_self : (k : Text) (v : V) (d : Dict V) → lookup k (put k v d) ≡ some v
  lookup-put_self k v d = ground (arith, lookup-put k k v d, text_eq_refl k)

  pub lookup-put_other :
      (k : Text) (v : V) (d : Dict V) (j : Text) → j ≢ k → lookup j (put k v d) ≡ lookup j d
  lookup-put_other k v d j h = ground (arith, lookup-put k j v d, text_eq_iff k j)

  pub lookup-remove :
      (k j : Text) (d : Dict V) → lookup j (remove k d) ≡ (if text_eq k j then none else lookup j d)
  unfolding lookup remove
  lookup-remove k j [] = ground arith
  lookup-remove k j ((i, w) ∷ d) =
      ground (arith, text_eq_iff k j, text_eq_iff i k, text_eq_iff i j, lookup-remove k j d)

  pub lookup-map_values-some :
      (f : V → V) (k : Text) (d : Dict V) (v : V)
      → lookup k d ≡ some v
      → lookup k (map_values f d) ≡ some (f v)
  unfolding lookup
  lookup-map_values-some f k [] v e = cc
  lookup-map_values-some f k ((j, w) ∷ d) v e = ground (arith, lookup-map_values-some f k d v)

  pub lookup-map_values-none :
      (f : V → V) (k : Text) (d : Dict V) → lookup k d ≡ none → lookup k (map_values f d) ≡ none
  unfolding lookup
  lookup-map_values-none f k [] e = refl
  lookup-map_values-none f k ((j, w) ∷ d) e = ground (arith, lookup-map_values-none f k d)

module _ {ℓ} {V : Type ℓ} where
  -- What a key holds stands among the values.
  pub lookup-split :
      (k : Text) (d : Dict V) (v : V)
      → lookup k d ≡ some v
      → (front back : List V) × (values d ≡ front ++ v ∷ back)
  unfolding lookup
  lookup-split k [] v e = cc
  lookup-split k ((j, w) ∷ d) v e = elim (Bool-cases (text_eq j k)) [
    | inl here ↦ ([], values d, let same : w ≡ v = ground arith in ap (λ x. x ∷ values d) same)
    | inr later ↦
        let rest : lookup k d ≡ some v = ground arith in
        let (front, back, h) = lookup-split k d v rest in (w ∷ front, back, ap (λ xs. w ∷ xs) h)
  ]

module _ {ℓ κ} {V : Type ℓ} (P : V → Type κ) where
  pub lookup-All : (k : Text) (d : Dict V) (v : V) → All P (values d) → lookup k d ≡ some v → P v
  unfolding lookup
  lookup-All k [] v h e = cc
  lookup-All k ((j, w) ∷ d) v (p, h) e = ground (arith, lookup-All k d v h)

  pub put-All :
      (k : Text) (v : V) (d : Dict V) → P v → All P (values d) → All P (values (put k v d))
  unfolding put
  put-All k v [] p h = (p, tt)
  put-All k v ((j, w) ∷ d) p (q, h) = ground (arith, put-All k v d p h)

  pub map_values-All :
      (f : V → V) (d : Dict V) → ((v : V) → P (f v)) → All P (values (map_values f d))
  map_values-All f [] h = tt
  map_values-All f ((k, v) ∷ d) h = (h v, map_values-All f d h)
