-- ===== src/TypedMessage/Codec.antt =====
-- The codec of vectors, forth and back.
use native.Mathlib.Nat.{mul-mod_left, mul-div_cancel}
use lock_free_ring_buffer.Prelude.{
  ℕ, ◌*◌, ◌/◌, ◌%◌, ◌<◌, ◌≡◌, refl, sym, ap, ap₂, ◌∙◌, List, [], ◌∷◌, ◌++◌, some, length, take,
  drop, arith, take-append, drop-append, length-append, eq→==,
}
use lock_free_ring_buffer.TypedMessage.{encode_vector, chunks, decode_vector}

-- Every value has `sizeof_t` bytes.
abbrev pub EachSized : ℕ → List (List ℕ) → Type 0
EachSized sizeof_t [] = Unit
EachSized sizeof_t (x ∷ xs) = (length x ≡ sizeof_t) × EachSized sizeof_t xs

length-encode_vector :
    (sizeof_t : ℕ) (xs : List (List ℕ))
    → EachSized sizeof_t xs
    → length (encode_vector xs) ≡ length xs * sizeof_t
unfolding encode_vector
length-encode_vector sizeof_t [] e = omega arith
length-encode_vector sizeof_t (x ∷ xs) e =
    omega (arith, length-append x (encode_vector xs), length-encode_vector sizeof_t xs e.1, e.0)

chunks-encode_vector :
    (sizeof_t : ℕ) (xs : List (List ℕ))
    → EachSized sizeof_t xs
    → chunks sizeof_t (length xs) (encode_vector xs) ≡ xs
unfolding chunks encode_vector
chunks-encode_vector sizeof_t [] e = refl
chunks-encode_vector sizeof_t (x ∷ xs) e =
    ap₂ ◌∷◌ (ap (λ n. take n (x ++ encode_vector xs)) (sym e.0) ∙ take-append x (encode_vector xs))
      (ap (chunks sizeof_t (length xs))
          (ap (λ n. drop n (x ++ encode_vector xs)) (sym e.0) ∙ drop-append x (encode_vector xs))
        ∙ chunks-encode_vector sizeof_t xs e.1)

count_lem : (n sizeof_t : ℕ) → 0 < sizeof_t → n * sizeof_t / sizeof_t ≡ n
count_lem n sizeof_t h = mul-div_cancel n h

-- What the vector codec encodes it decodes to the same values, if each has the bytes of its type.
pub decode-encode_vector :
    (sizeof_t : ℕ) (xs : List (List ℕ))
    → 0 < sizeof_t
    → EachSized sizeof_t xs
    → decode_vector sizeof_t (encode_vector xs) ≡ some xs
unfolding decode_vector
decode-encode_vector sizeof_t xs h e = rw (length-encode_vector sizeof_t xs e) (
    rw (eq→== (length xs * sizeof_t % sizeof_t) 0 (mul-mod_left (length xs) sizeof_t)) (
      ap some (
        ap (λ n. chunks sizeof_t n (encode_vector xs)) (count_lem (length xs) sizeof_t h)
        ∙ chunks-encode_vector sizeof_t xs e)))
