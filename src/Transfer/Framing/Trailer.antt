-- ===== src/Transfer/Framing/Trailer.antt =====
-- The only fault that `fixTrailer` finds is a key that frames the message.
use oohttp.Base.{
  ◌≡◌, refl, ◌⊎◌, inl, inr, Bool, true, false, List, [], ◌∷◌, Option, none, some, Bytes, arith,
  Bool-cases, ◌&&◌,
}
use oohttp.Headers.{Header, del, values_of}
use oohttp.Transfer.Read.{
  TrailerState, fix_trailer, header_elements, is_framing_key, is_none, trailer_key,
  trailer_of_state, trailer_step, trailer_steps, trailer_values,
}
use oohttp.Transfer.Result.{Result, TransferError, bad_trailer_key, fail, ok}

pub data IsKeyError : TransferError → Type 0 where
  key_error : (k : Bytes) → is_framing_key k ≡ true → IsKeyError (bad_trailer_key k)

abbrev Sane : TrailerState → Type 0
Sane s = (s.err ≡ none) ⊎ ((e : TransferError) × (s.err ≡ some e) × IsKeyError e)

trailer_step-Sane : (s : TrailerState) (k : Bytes) → Sane s → Sane (trailer_step s k)
trailer_step-Sane s k h = elim (Bool-cases (is_framing_key k && is_none s.err)) [
  | inr q ↦ rw q h
  | inl q ↦ rw q (inr (bad_trailer_key k, refl, key_error k (ground arith)))
]

trailer_steps-Sane :
    (canonical : Bytes → Bytes) (s : TrailerState) (ks : List Bytes)
    → Sane s
    → Sane (trailer_steps canonical s ks)
unfolding trailer_steps
trailer_steps-Sane canonical s [] h = h
trailer_steps-Sane canonical s (k ∷ ks) h =
    trailer_steps-Sane canonical (trailer_step s (canonical k)) ks
      (trailer_step-Sane s (canonical k) h)

trailer_values-Sane :
    (canonical : Bytes → Bytes) (s : TrailerState) (vs : List Bytes)
    → Sane s
    → Sane (trailer_values canonical s vs)
unfolding trailer_values
trailer_values-Sane canonical s [] h = h
trailer_values-Sane canonical s (v ∷ vs) h =
    trailer_values-Sane canonical (trailer_steps canonical s (header_elements v)) vs
      (trailer_steps-Sane canonical s (header_elements v) h)

-- What `fixTrailer` returns.
pub data Trailed (c : Bool) : Result (Header × Option Header) → Type 0 where
  trailed : (p : Header × Option Header) → Trailed c (ok p)
  untrailed : (e : TransferError) → c ≡ true → IsKeyError e → Trailed c (fail e)

trailer_of_state-Trailed :
    (h : Header) (s : TrailerState) → Sane s → Trailed true (trailer_of_state h s)
trailer_of_state-Trailed h s (inl q) = rw q (trailed _)
trailer_of_state-Trailed h s (inr (e, q, k)) = rw q (untrailed e refl k)

fix_trailer-cases :
    (canonical : Bytes → Bytes) (h : Header) (c : Bool) (o : Option (List Bytes))
    → values_of h trailer_key ≡ o
    → Trailed c (fix_trailer canonical h c)
unfolding fix_trailer
fix_trailer-cases canonical h c none e = rw (fix_trailer, e) (trailed _)
fix_trailer-cases canonical h false (some vv) e = rw (fix_trailer, e) (trailed _)
fix_trailer-cases canonical h true (some vv) e =
    rw (fix_trailer, e)
      (trailer_of_state-Trailed (del h trailer_key)
        (trailer_values canonical (record { err = none; trailer = [] }) vv)
        (trailer_values-Sane canonical (record { err = none; trailer = [] }) vv (inl refl)))

pub fix_trailer-Trailed :
    (canonical : Bytes → Bytes) (h : Header) (c : Bool) → Trailed c (fix_trailer canonical h c)
fix_trailer-Trailed canonical h c = fix_trailer-cases canonical h c (values_of h trailer_key) refl
