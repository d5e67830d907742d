-- ===== src/Mapping/Finds.antt =====
-- `find` sees what was added, whichever representation the mapping has.
use oohttp.Base.{
  Bool, true, List, [], ◌∷◌, ◌++◌, Option, none, some, ltb, if◌then◌else◌, length, ◌≡◌, refl, ◌↔◌,
  ◌⊎◌, inl, inr, arith, Bool-cases,
}
use oohttp.Mapping.{insert, lookup, fill, Mapping, empty_mapping, max_slice, add, find}

abbrev pub or_find : {V : Type 0} → Option V → Option V → Option V
or_find none o = o
or_find (some v) o = some v

module _ {K V : Type 0} (equal : K → K → Bool)
    (decides : (a b : K) → (equal a b ≡ true) ↔ (a ≡ b)) where
  -- No key occurs twice.
  abbrev pub IsDistinct : List (K × V) → Type 0
  IsDistinct [] = Unit
  IsDistinct (e ∷ es) = (lookup equal es e.0 ≡ none) × IsDistinct es

  lookup-insert :
      (m : List (K × V)) (k j : K) (v : V)
      → lookup equal (insert equal m k v) j ≡ (if equal k j then some v else lookup equal m j)
  unfolding lookup insert
  lookup-insert [] k j v = refl
  lookup-insert (e ∷ es) k j v =
      ground (arith, decides e.0 k, decides e.0 j, decides k j, lookup-insert es k j v)

  lookup-append :
      (s : List (K × V)) (k j : K) (v : V)
      → lookup equal (s ++ ((k, v) ∷ [])) j
        ≡ or_find (lookup equal s j) (if equal k j then some v else none)
  unfolding lookup
  lookup-append [] k j v = refl
  lookup-append (e ∷ es) k j v = ground (arith, lookup-append es k j v)

  lookup-fill :
      (es m : List (K × V)) (j : K)
      → IsDistinct es
      → lookup equal (fill equal m es) j ≡ or_find (lookup equal es j) (lookup equal m j)
  unfolding lookup fill
  lookup-fill [] m j d = refl
  lookup-fill (e ∷ es) m j (fresh, d) = ground (
    arith,
    lookup-fill es (insert equal m e.0 e.1) j d,
    lookup-insert m e.0 j e.1,
    decides e.0 j,
    fresh,
  )

  append-IsDistinct :
      (s : List (K × V)) (k : K) (v : V)
      → IsDistinct s
      → lookup equal s k ≡ none
      → IsDistinct (s ++ ((k, v) ∷ []))
  unfolding lookup
  append-IsDistinct [] k v d h = (refl, tt)
  append-IsDistinct (e ∷ es) k v (fresh, d) h = (
    ground (arith, lookup-append es k e.0 v, fresh, decides e.0 k, decides k e.0),
    append-IsDistinct es k v d (ground (arith, decides e.0 k)),
  )

  -- The slice holds every key once, as it does if `add` is called for absent keys.
  abbrev pub IsProper : Mapping K V → Type 0
  IsProper h = IsDistinct h.s

  -- What an addition has to do: the new value for the new key, and no other change.
  abbrev Adds : Mapping K V → K → V → Mapping K V → Type 0
  Adds h k v h' =
      ((j : K) → find equal h' j ≡ (if equal k j then some v else find equal h j)) × IsProper h'

  slice-Adds :
      (s : List (K × V)) (k : K) (v : V)
      → IsDistinct s
      → lookup equal s k ≡ none
      → Adds (record { s = s; m = none }) k v (add equal (record { s = s; m = none }) k v)
  unfolding find add
  slice-Adds s k v d absent = elim (Bool-cases (ltb (length s) max_slice)) [
    | inl few ↦ rw few (
      (λ j. ground (arith, lookup-append s k j v, absent, decides k j)),
      append-IsDistinct s k v d absent,
    )
    | inr many ↦
        rw many
          ((λ j. ground (arith, lookup-insert (fill equal [] s) k j v, lookup-fill s [] j d)), tt)
  ]

  map-Adds :
      (s m : List (K × V)) (k : K) (v : V)
      → IsDistinct s
      → Adds (record { s = s; m = some m }) k v (add equal (record { s = s; m = some m }) k v)
  unfolding find add
  map-Adds s m k v d = ((λ j. lookup-insert m k j v), d)

  parts-Adds :
      (s : List (K × V)) (m : Option (List (K × V))) (k : K) (v : V)
      → IsDistinct s
      → find equal (record { s = s; m = m }) k ≡ none
      → Adds (record { s = s; m = m }) k v (add equal (record { s = s; m = m }) k v)
  unfolding find
  parts-Adds s none k v d absent = slice-Adds s k v d absent
  parts-Adds s (some m) k v d absent = map-Adds s m k v d

  -- After `add` of a key that is not there, `find` returns the value for it and what it returned
  -- before for every other key, in the slice, in the Go map and where the one becomes the other.
  pub find-add :
      (h : Mapping K V) (k j : K) (v : V)
      → IsProper h
      → find equal h k ≡ none
      → find equal (add equal h k v) j ≡ (if equal k j then some v else find equal h j)
  find-add h k j v d absent = (parts-Adds h.s h.m k v d absent).0 j

  pub add-IsProper :
      (h : Mapping K V) (k : K) (v : V)
      → IsProper h
      → find equal h k ≡ none
      → IsProper (add equal h k v)
  add-IsProper h k v d absent = (parts-Adds h.s h.m k v d absent).1

  -- Additions one after the other, to a mapping.
  unfoldable pub add_all : Mapping K V → List (K × V) → Mapping K V
  add_all h [] = h
  add_all h (e ∷ es) = add_all (add equal h e.0 e.1) es

  -- The keys of `es` are not in the mapping.
  abbrev AreNew : List (K × V) → Mapping K V → Type 0
  AreNew es h = (j : K) → (find equal h j ≡ none) ⊎ (lookup equal es j ≡ none)

  find-add_all_onto :
      (es : List (K × V)) (h : Mapping K V) (k : K)
      → IsProper h
      → IsDistinct es
      → AreNew es h
      → find equal (add_all h es) k ≡ or_find (find equal h k) (lookup equal es k)
  unfolding add_all lookup
  find-add_all_onto [] h k p d new = ground arith
  find-add_all_onto (e ∷ es) h k p (fresh, d) new =
      let same = (decides e.0 e.0).1 refl in
      let absent : find equal h e.0 ≡ none = ground (arith, new e.0) in
      let step = find-add h e.0 k e.1 p absent in
      ground (
        arith,
        step,
        decides e.0 k,
        fresh,
        absent,
        find-add_all_onto es (add equal h e.0 e.1) k (add-IsProper h e.0 e.1 p absent) d
            (λ j. ground (arith, new j, find-add h e.0 j e.1 p absent, decides e.0 j, fresh)),
      )

  -- A mapping to which pairs with distinct keys were added, however many, returns for every key what
  -- a search through the pairs returns.
  pub find-add_all :
      (es : List (K × V)) (k : K)
      → IsDistinct es
      → find equal (add_all empty_mapping es) k ≡ lookup equal es k
  unfolding find lookup
  find-add_all es k d = find-add_all_onto es empty_mapping k tt d (λ j. inl refl)
