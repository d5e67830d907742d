-- ===== src/Mapping.antt =====
-- mapping.go: the pairs behind the children of a node, a slice while they are few, then a Go map.
pub mod Finds
mod Tests
use oohttp.Base.{
  ℕ, Bool, true, false, ◌&&◌, ◌||◌, not, List, [], ◌∷◌, ◌++◌, Option, none, some, ltb,
  if◌then◌else◌, length,
}

module _ {K V : Type 0} (equal : K → K → Bool) where
  -- `m[k] = v` on the pairs of a Go map, each key once.
  unfoldable pub insert : List (K × V) → K → V → List (K × V)
  insert [] k v = (k, v) ∷ []
  insert (e ∷ es) k v = if equal e.0 k then (k, v) ∷ es else e ∷ insert es k v

  -- The first pair of the key, which in a Go map is the only one.
  unfoldable pub lookup : List (K × V) → K → Option V
  lookup [] k = none
  lookup (e ∷ es) k = if equal e.0 k then some e.1 else lookup es k

  -- `for _, e := range h.s { h.m[e.key] = e.value }`
  unfoldable pub fill : List (K × V) → List (K × V) → List (K × V)
  unfolding insert
  fill m [] = m
  fill m (e ∷ es) = fill (insert m e.0 e.1) es

-- The slice and the map; `none` is the nil map.
pub record Mapping (K V : Type 0) : Type 0 where
  pub s : List (K × V)
  pub m : Option (List (K × V))

abbrev pub empty_mapping : {K V : Type 0} → Mapping K V
empty_mapping = record { s = []; m = none }

-- `maxSlice`
abbrev pub max_slice : ℕ
max_slice = 8

module _ {K V : Type 0} (equal : K → K → Bool) where
  -- `add`
  unfoldable pub add : Mapping K V → K → V → Mapping K V
  unfolding insert fill
  add h k v = elim h.m [
    | none ↦
        if ltb (length h.s) max_slice
        then record h { s = h.s ++ ((k, v) ∷ []) }
        else record { s = []; m = some (insert equal (fill equal [] h.s) k v) }
    | some m ↦ record h { m = some (insert equal m k v) }
  ]

  -- `find` on a mapping that is not nil
  unfoldable pub find : Mapping K V → K → Option V
  unfolding lookup
  find h k = elim h.m [ none ↦ lookup equal h.s k | some m ↦ lookup equal m k ]

-- `eachPair`: the pairs up to the first at which `f` returns false, in one of the orders of a map.
unfoldable pub each_pair : {K V : Type 0} → (K → V → Bool) → List (K × V) → List (K × V)
each_pair f [] = []
each_pair f (e ∷ es) = let rest = each_pair f es in if f e.0 e.1 then e ∷ rest else e ∷ []

abbrev pub pairs : {K V : Type 0} → Mapping K V → List (K × V)
pairs h = elim h.m [ none ↦ h.s | some m ↦ m ]
