-- ===== src/Common/Changes.antt =====
-- Changes of the entries of a dictionary, and what they leave.
use html_inbox.Common.Dicts.{Dict, lookup, put, remove, map_values, lookup-put, lookup-remove}
use html_inbox.Common.Strings.{Text, text_eq, text_eq_iff}
use html_inbox.Common.Lists.{length}
use html_inbox.Common.Tests.{if◌then◌else◌, Bool-cases, Option-cases}
use Prim.Native.Nat.{suc, ◌≤◌}
use mathlib.Core.Path.{◌≡◌, refl, sym}
use mathlib.Core.Logic.{inl, inr}
use mathlib.Core.Bool.{Bool}
use mathlib.Core.Option.{none, some}
use mathlib.Core.List.{[], ◌∷◌}
use native.Mathlib.Omega.{arith}

module _ {ℓ} {V : Type ℓ} where
  -- `for (const [id, value] of map) if (test(value)) map.delete(id)`
  unfoldable pub delete_where : (V → Bool) → Dict V → Dict V → Dict V
  delete_where test [] map = map
  delete_where test ((id, value) ∷ entries) map =
      delete_where test entries (if test value then remove id map else map)

  -- A change of what a key holds, if it holds something.
  unfoldable pub adjust : Text → (V → V) → Dict V → Dict V
  adjust id change d = elim (lookup id d) [ none ↦ d | some v ↦ put id (change v) d ]

  pub length-remove : (k : Text) (d : Dict V) → length (remove k d) ≤ length d
  unfolding remove
  length-remove k [] = omega arith
  length-remove k ((j, v) ∷ d) = ground (arith, length-remove k d)

  pub length-put : (k : Text) (v : V) (d : Dict V) → length (put k v d) ≤ suc (length d)
  unfolding put
  length-put k v [] = omega arith
  length-put k v ((j, w) ∷ d) = ground (arith, length-put k v d)

  pub length-put_known :
      (k : Text) (v w : V) (d : Dict V) → lookup k d ≡ some w → length (put k v d) ≡ length d
  unfolding put lookup
  length-put_known k v w [] e = cc
  length-put_known k v w ((j, u) ∷ d) e = ground (arith, length-put_known k v w d)

  pub length-delete_where :
      (test : V → Bool) (entries map : Dict V) → length (delete_where test entries map) ≤ length map
  unfolding delete_where
  length-delete_where test [] map = omega arith
  length-delete_where test ((k, v) ∷ entries) map = ground (
    arith,
    length-remove k map,
    length-delete_where test entries (if test v then remove k map else map),
  )

  -- What is left was there.
  pub lookup-delete_where :
      (test : V → Bool) (entries map : Dict V) (k : Text) (v : V)
      → lookup k (delete_where test entries map) ≡ some v
      → lookup k map ≡ some v
  unfolding delete_where
  lookup-delete_where test [] map k v e = e
  lookup-delete_where test ((j, w) ∷ entries) map k v e = ground (
    arith,
    lookup-remove j k map,
    lookup-delete_where test entries (if test w then remove j map else map) k v e,
  )

  pub adjust-none :
      (id : Text) (change : V → V) (d : Dict V) → lookup id d ≡ none → adjust id change d ≡ d
  unfolding adjust
  adjust-none id change d e = ground arith

  pub adjust-some :
      (id : Text) (change : V → V) (d : Dict V) (old : V)
      → lookup id d ≡ some old
      → adjust id change d ≡ put id (change old) d
  unfolding adjust
  adjust-some id change d old e = ground arith

  lookup-put_change :
      (id j : Text) (change : V → V) (d : Dict V) (s : V) {old : V}
      → lookup id d ≡ some old
      → lookup j (put id (change old) d) ≡ some s
      → (now : V) × (lookup j d ≡ some now) × (s ≡ (if text_eq id j then change now else now))
  lookup-put_change id j change d s {old} found e = elim (Bool-cases (text_eq id j)) [
    | inl same ↦
        (old, ground (arith, text_eq_iff id j), ground (arith, lookup-put id j (change old) d))
    | inr other ↦ (s, ground (arith, lookup-put id j (change old) d), ground arith)
  ]

  -- What a map holds after a change, if it is there.
  pub lookup-adjust :
      (id j : Text) (change : V → V) (d : Dict V) (s : V)
      → lookup j (adjust id change d) ≡ some s
      → (old : V) × (lookup j d ≡ some old) × (s ≡ (if text_eq id j then change old else old))
  lookup-adjust id j change d s e = elim (Option-cases (lookup id d)) [
    | inl missing ↦
        let same : lookup j d ≡ some s = ground (arith, adjust-none id change d missing) in
        (s, same, ground (arith, text_eq_iff id j))
    | inr (old, found) ↦
        lookup-put_change id j change d s found (rw (sym (adjust-some id change d old found)) e)
  ]

  pub length-adjust :
      (id : Text) (change : V → V) (d : Dict V) → length (adjust id change d) ≡ length d
  length-adjust id change d = elim (Option-cases (lookup id d)) [
    | inl missing ↦ rw (adjust-none id change d missing) refl
    | inr (old, found) ↦
        rw (adjust-some id change d old found) (length-put_known id (change old) old d found)
  ]

  pub length-map_values : (f : V → V) (d : Dict V) → length (map_values f d) ≡ length d
  length-map_values f [] = refl
  length-map_values f ((k, v) ∷ d) = ground (arith, length-map_values f d)

  -- What a map holds when everything in it has changed.
  pub map_values-lookup :
      (f : V → V) (k : Text) (d : Dict V) (s : V)
      → lookup k (map_values f d) ≡ some s
      → (old : V) × (lookup k d ≡ some old) × (s ≡ f old)
  unfolding lookup
  map_values-lookup f k [] s e = cc
  map_values-lookup f k ((j, v) ∷ d) s e = elim (Bool-cases (text_eq j k)) [
    | inl same ↦ (v, ground arith, ground arith)
    | inr other ↦
        let (old, found, it) = map_values-lookup f k d s (ground arith) in (old, ground arith, it)
  ]
