-- ===== src/Headers/Lookup.antt =====
-- header.go: what a key holds after its key, or another, is changed.
use oohttp.Base.{
  ◌∷◌, [], ◌≡◌, refl, false, none, some, Bytes, List, arith, equal, equal_refl, equal-cases, inl,
  inr,
}
use oohttp.Headers.{Header, add, del, put, values_of}

pub values_of-del : (h : Header) (k : Bytes) → values_of (del h k) k ≡ none
unfolding values_of del
values_of-del [] k = refl
values_of-del (p ∷ h) k = ground (arith, values_of-del h k)

pub values_of-del_other :
    (h : Header) (k l : Bytes) → equal k l ≡ false → values_of (del h k) l ≡ values_of h l
unfolding values_of del
values_of-del_other [] k l e = refl
values_of-del_other (p ∷ h) k l e =
    let i = values_of-del_other h k l e in
    elim (equal-cases p.0 k) [
      | inl (_, q) ↦ rw q (ground (arith, equal_refl k))
      | inr (q, _) ↦ ground arith
    ]

pub values_of-put : (h : Header) (k : Bytes) (vs : List Bytes) → values_of (put h k vs) k ≡ some vs
unfolding values_of put
values_of-put [] k vs = ground (arith, equal_refl k)
values_of-put (p ∷ h) k vs = ground (arith, equal_refl k, values_of-put h k vs)

pub values_of-put_other :
    (h : Header) (k l : Bytes) (vs : List Bytes)
    → equal k l ≡ false
    → values_of (put h k vs) l ≡ values_of h l
unfolding values_of put
values_of-put_other [] k l vs e = ground arith
values_of-put_other (p ∷ h) k l vs e =
    let i = values_of-put_other h k l vs e in
    elim (equal-cases p.0 k) [
      | inl (_, q) ↦ rw q (ground (arith, equal_refl k))
      | inr (q, _) ↦ ground arith
    ]

pub values_of-add-del : (h : Header) (k v : Bytes) → values_of (add (del h k) k v) k ≡ some (v ∷ [])
unfolding add
values_of-add-del h k v = rw (values_of-del h k) (values_of-put (del h k) k (v ∷ []))
