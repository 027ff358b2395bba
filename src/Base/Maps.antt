-- ===== src/Base/Maps.antt =====
-- Go maps with string keys, as association lists with one entry for a key.
use Prim.Native.Nat.{◌+◌}
use mathlib.Core.Path.{◌≡◌, refl, sym, ◌∙◌}
use mathlib.Core.Bool.{false}
use mathlib.Core.List.{List, [], ◌∷◌, ◌++◌, append-nil, append_assoc}
use mathlib.Core.Option.{Option, none, some}
use native.Mathlib.Omega.{arith}
use jaeger_client_go.Base.Tests.{if◌then◌else◌}
use jaeger_client_go.Base.Lists.{length}
use jaeger_client_go.Base.Text.{Bytes, bytes_eq, bytes_eq_iff}

abbrev pub Map {ℓ} : Type ℓ → Type ℓ
Map V = List (Bytes × V)

module _ {ℓ} {V : Type ℓ} where
  unfoldable pub lookup : Bytes → Map V → Option V
  lookup k [] = none
  lookup k ((j, v) ∷ m) = if bytes_eq j k then some v else lookup k m

  unfoldable pub insert : Bytes → V → Map V → Map V
  insert k v [] = (k, v) ∷ []
  insert k v ((j, w) ∷ m) = if bytes_eq j k then (k, v) ∷ m else (j, w) ∷ insert k v m

  unfoldable pub delete : Bytes → Map V → Map V
  delete k [] = []
  delete k ((j, w) ∷ m) = let rest = delete k m in if bytes_eq j k then rest else (j, w) ∷ rest

  pub lookup-insert :
      (k j : Bytes) (v : V) (m : Map V)
      → lookup j (insert k v m) ≡ (if bytes_eq k j then some v else lookup j m)
  unfolding lookup insert
  lookup-insert k j v [] = refl
  lookup-insert k j v ((i, w) ∷ m) =
      ground (arith, bytes_eq_iff k j, bytes_eq_iff i k, bytes_eq_iff i j, lookup-insert k j v m)

  pub lookup-delete :
      (k j : Bytes) (m : Map V)
      → lookup j (delete k m) ≡ (if bytes_eq k j then none else lookup j m)
  unfolding lookup delete
  lookup-delete k j [] = ground arith
  lookup-delete k j ((i, w) ∷ m) =
      ground (arith, bytes_eq_iff k j, bytes_eq_iff i k, bytes_eq_iff i j, lookup-delete k j m)

  -- A write to a new key adds one entry, and a write to an old one none.
  pub length-insert :
      (k : Bytes) (v : V) (m : Map V)
      → length (insert k v m) ≡ elim (lookup k m) [ none ↦ length m + 1 | some _ ↦ length m ]
  unfolding lookup insert
  length-insert k v [] = omega arith
  length-insert k v ((i, w) ∷ m) = ground (arith, length-insert k v m)

module _ {ℓ} {V : Type ℓ} where
  -- no key twice
  abbrev pub IsMap : Map V → Type ℓ
  IsMap [] = Unit
  IsMap ((k, v) ∷ m) = (lookup k m ≡ none) × IsMap m

  abbrev pub insert_all : Map V → Map V → Map V
  insert_all done [] = done
  insert_all done ((k, v) ∷ m) = insert_all (insert k v done) m

  abbrev Fresh : Map V → Map V → Type ℓ
  Fresh done [] = Unit
  Fresh done ((k, v) ∷ m) = (lookup k done ≡ none) × Fresh done m

  insert-fresh :
      (k : Bytes) (v : V) (m : Map V) → lookup k m ≡ none → insert k v m ≡ m ++ (k, v) ∷ []
  unfolding lookup insert
  insert-fresh k v [] h = refl
  insert-fresh k v ((i, w) ∷ m) h = ground (arith, insert-fresh k v m)

  lookup_tail :
      (k i : Bytes) (w : V) (m : Map V)
      → lookup k ((i, w) ∷ m) ≡ none
      → (bytes_eq k i ≡ false) × (lookup k m ≡ none)
  unfolding lookup
  lookup_tail k i w m h = ground (arith, bytes_eq_iff k i, bytes_eq_iff i k)

  Fresh-insert :
      (k : Bytes) (v : V) (done m : Map V)
      → lookup k m ≡ none
      → Fresh done m
      → Fresh (insert k v done) m
  Fresh-insert k v done [] h f = tt
  Fresh-insert k v done ((i, w) ∷ m) h (fi, f) =
      let (ne, more) = lookup_tail k i w m h in
      (rw (lookup-insert k i v done, ne) fi, Fresh-insert k v done m more f)

  insert_all-append : (done m : Map V) → IsMap m → Fresh done m → insert_all done m ≡ done ++ m
  insert_all-append done [] u f = sym (append-nil done)
  insert_all-append done ((k, v) ∷ m) (h, u) (fk, f) =
      insert_all-append (insert k v done) m u (Fresh-insert k v done m h f)
      ∙ rw (insert-fresh k v done fk) (append_assoc done ((k, v) ∷ []) m)

  Fresh-nil : (m : Map V) → Fresh [] m
  unfolding lookup
  Fresh-nil [] = tt
  Fresh-nil ((k, v) ∷ m) = (refl, Fresh-nil m)

  -- Reading all entries into an empty map gives the map.
  pub insert_all-nil : (m : Map V) → IsMap m → insert_all [] m ≡ m
  insert_all-nil m u = insert_all-append [] m u (Fresh-nil m)
