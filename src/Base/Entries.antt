-- ===== src/Base/Entries.antt =====
-- What holds of each value of a dictionary.
use Prim.Native.Nat.{ℕ}
use mathlib.Core.Path.{◌≡◌, subst}
use mathlib.Core.Logic.{inl, inr}
use mathlib.Core.Option.{some}
use mathlib.Core.List.{[], ◌∷◌}
use fourinarow_server.Base.Tests.{◌==◌, Bool-cases}
use fourinarow_server.Base.Maps.{Dict, lookup, remove, insert}
use fourinarow_server.Base.Lists.{All}

abbrev pub Each : {V : Type 0} → (V → Type 0) → Dict V → Type 0
Each Q = All (λ (k, v). Q v)

module _ {V : Type 0} (Q : V → Type 0) where
  pub lookup-All : (k : ℕ) (m : Dict V) → Each Q m → (v : V) → lookup k m ≡ some v → Q v
  unfolding lookup
  lookup-All k [] h v found = cc
  lookup-All k ((l, w) ∷ m) h v found = elim (Bool-cases (l == k)) [
    | inl same ↦
        let this : some w ≡ some v = (rw same at found) in let here : w ≡ v = cc in subst Q here h.0
    | inr other ↦ lookup-All k m h.1 v (rw other at found)
  ]

  pub remove-All : (k : ℕ) (m : Dict V) → Each Q m → Each Q (remove k m)
  unfolding remove
  remove-All k [] h = tt
  remove-All k ((l, w) ∷ m) h = elim (Bool-cases (l == k)) [
    | inl same ↦ rw same (remove-All k m h.1)
    | inr other ↦ rw other (h.0, remove-All k m h.1)
  ]

  pub insert-All : (k : ℕ) (v : V) (m : Dict V) → Each Q m → Q v → Each Q (insert k v m)
  unfolding insert
  insert-All k v m h q = (q, remove-All k m h)
