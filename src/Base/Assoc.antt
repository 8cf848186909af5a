-- ===== src/Base/Assoc.antt =====
-- Go maps with `uint64` keys as association lists.
use Prim.Native.Nat.{◌+◌, ℕ}
use mathlib.Core.Path.{◌≡◌, refl}
use mathlib.Core.Option.{Option, none, some}
use mathlib.Core.List.{List, [], ◌∷◌}
use native.Mathlib.Omega.{arith}
use tcp_info.Base.Bools.{◌==◌, if◌then◌else◌}

module _ {ℓ} {V : Type ℓ} where
  unfoldable pub lookup : ℕ → List (ℕ × V) → Option V
  lookup k [] = none
  lookup k ((i, v) ∷ kvs) = if i == k then some v else lookup k kvs

  unfoldable pub insert : ℕ → V → List (ℕ × V) → List (ℕ × V)
  insert k v [] = (k, v) ∷ []
  insert k v ((i, u) ∷ kvs) = if i == k then (k, v) ∷ kvs else (i, u) ∷ insert k v kvs

  unfoldable pub delete : ℕ → List (ℕ × V) → List (ℕ × V)
  delete k [] = []
  delete k ((i, u) ∷ kvs) = if i == k then delete k kvs else (i, u) ∷ delete k kvs

  pub lookup-insert :
      (k i : ℕ) (v : V) (kvs : List (ℕ × V))
      → lookup i (insert k v kvs) ≡ (if k == i then some v else lookup i kvs)
  unfolding lookup insert
  lookup-insert k i v [] = refl
  lookup-insert k i v ((j, u) ∷ kvs) = ground (arith, lookup-insert k i v kvs)

  pub lookup-delete :
      (k i : ℕ) (kvs : List (ℕ × V))
      → lookup i (delete k kvs) ≡ (if k == i then none else lookup i kvs)
  unfolding lookup delete
  lookup-delete k i [] = ground arith
  lookup-delete k i ((j, u) ∷ kvs) = ground (arith, lookup-delete k i kvs)

  -- No key stands twice.
  abbrev pub Distinct : List (ℕ × V) → Type ℓ
  Distinct [] = Unit
  Distinct ((k, v) ∷ kvs) = (lookup k kvs ≡ none) × Distinct kvs

  pub insert-Distinct :
      (k : ℕ) (v : V) (kvs : List (ℕ × V)) → Distinct kvs → Distinct (insert k v kvs)
  unfolding lookup insert
  insert-Distinct k v [] d = (refl, tt)
  insert-Distinct k v ((i, u) ∷ kvs) d =
      ground (arith, lookup-insert k i v kvs, insert-Distinct k v kvs d.1)

  pub delete-Distinct : (k : ℕ) (kvs : List (ℕ × V)) → Distinct kvs → Distinct (delete k kvs)
  unfolding lookup delete
  delete-Distinct k [] d = tt
  delete-Distinct k ((i, u) ∷ kvs) d =
      ground (arith, lookup-delete k i kvs, delete-Distinct k kvs d.1)

  delete-absent : (k : ℕ) (kvs : List (ℕ × V)) → lookup k kvs ≡ none → delete k kvs ≡ kvs
  unfolding lookup delete
  delete-absent k [] h = refl
  delete-absent k ((i, u) ∷ kvs) h = ground (arith, delete-absent k kvs)

  -- The sum of a number over all values.
  unfoldable pub sum_of : (V → ℕ) → List (ℕ × V) → ℕ
  sum_of f [] = 0
  sum_of f ((i, u) ∷ kvs) = f u + sum_of f kvs

  pub sum_of-insert_new :
      (f : V → ℕ) (k : ℕ) (v : V) (kvs : List (ℕ × V))
      → lookup k kvs ≡ none
      → sum_of f (insert k v kvs) ≡ f v + sum_of f kvs
  unfolding sum_of lookup insert
  sum_of-insert_new f k v [] h = refl
  sum_of-insert_new f k v ((i, u) ∷ kvs) h = ground (arith, sum_of-insert_new f k v kvs)

  pub sum_of-insert_old :
      (f : V → ℕ) (k : ℕ) (v : V) (old : V) (kvs : List (ℕ × V))
      → lookup k kvs ≡ some old
      → sum_of f (insert k v kvs) + f old ≡ f v + sum_of f kvs
  unfolding sum_of lookup insert
  sum_of-insert_old f k v old [] h = cc h
  sum_of-insert_old f k v old ((i, u) ∷ kvs) h = ground (arith, sum_of-insert_old f k v old kvs)

  pub sum_of-delete :
      (f : V → ℕ) (k : ℕ) (old : V) (kvs : List (ℕ × V))
      → Distinct kvs
      → lookup k kvs ≡ some old
      → f old + sum_of f (delete k kvs) ≡ sum_of f kvs
  unfolding sum_of lookup delete
  sum_of-delete f k old [] d h = cc h
  sum_of-delete f k old ((i, u) ∷ kvs) d h =
      ground (arith, sum_of-delete f k old kvs d.1, delete-absent k kvs)
