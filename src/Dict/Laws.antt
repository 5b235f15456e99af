-- ===== src/Dict/Laws.antt =====
-- What the operations on a dict do to lookups.
use mathlib.Core.Option
use g_io_t_edge_gateway.Prelude.{◌≡◌, refl, [], ◌∷◌, none, some, arith, Eq, ◌==◌, if◌then◌else◌}
use g_io_t_edge_gateway.Dict.{Dict, lookup, insert, erase, modify, get_or, IsDict}

module _ {ℓ κ} {K : Type ℓ} {V : Type κ} ⦃e : Eq K⦄ where
  pub lookup-insert :
      (k j : K) (v : V) (m : Dict K V)
      → lookup j (insert k v m) ≡ (if k == j then some v else lookup j m)
  unfolding insert lookup
  lookup-insert new key v [] = ground arith
  lookup-insert new key v ((i, old) ∷ rest) =
      ground
        (arith, lookup-insert new key v rest, e.beq_iff new key, e.beq_iff i new, e.beq_iff i key)

  pub lookup-erase :
      (k j : K) (m : Dict K V) → lookup j (erase k m) ≡ (if k == j then none else lookup j m)
  unfolding lookup erase
  lookup-erase k j [] = ground arith
  lookup-erase k j ((i, w) ∷ m) =
      ground (arith, e.beq_iff k j, e.beq_iff i k, e.beq_iff i j, lookup-erase k j m)

  pub lookup-modify :
      (k j : K) (f : V → V) (m : Dict K V)
      → lookup j (modify k f m) ≡ (if k == j then Option.map f (lookup j m) else lookup j m)
  unfolding lookup modify
  lookup-modify k j f [] = ground arith
  lookup-modify k j f ((i, w) ∷ m) =
      ground (arith, e.beq_iff k j, e.beq_iff i k, e.beq_iff i j, lookup-modify k j f m)

  pub get_or-lookup : (k : K) (d : V) (m : Dict K V) → get_or k d m ≡ Option.get_or (lookup k m) d
  unfolding lookup get_or
  get_or-lookup k d [] = refl
  get_or-lookup k d ((i, w) ∷ m) = ground (arith, get_or-lookup k d m)

  pub insert-IsDict : (k : K) (v : V) (m : Dict K V) → IsDict m → IsDict (insert k v m)
  unfolding lookup insert
  insert-IsDict k v [] h = (refl, tt)
  insert-IsDict k v ((i, w) ∷ m) h =
      ground (arith, e.beq_iff k i, e.beq_iff i k, lookup-insert k i v m, insert-IsDict k v m h.1)

  pub modify-IsDict : (k : K) (f : V → V) (m : Dict K V) → IsDict m → IsDict (modify k f m)
  unfolding lookup modify
  modify-IsDict k f [] h = tt
  modify-IsDict k f ((i, w) ∷ m) h = ground (arith, lookup-modify k i f m, modify-IsDict k f m h.1)

  pub erase-IsDict : (k : K) (m : Dict K V) → IsDict m → IsDict (erase k m)
  unfolding lookup erase
  erase-IsDict k [] h = tt
  erase-IsDict k ((i, w) ∷ m) h = ground (arith, lookup-erase k i m, erase-IsDict k m h.1)
