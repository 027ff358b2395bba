-- ===== src/Custom/Priority/Bitmap.antt =====
-- The bitmap as a set of indices.
use jaeger_client_go.Base.{
  ℕ, zero, suc, ◌+◌, ◌/◌, ◌%◌, ◌^◌, ◌<◌, ◌==◌, ◌||◌, ◌&&◌, bit_and, bit_or, ◌≡◌, refl, ap, ◌∙◌,
  Bool, false, if◌then◌else◌, List, [], ◌∷◌, some, get_elem?, set, length, length-set, arith,
}
use jaeger_client_go.Base.Bits.{test_bit-zero, test_bit-bit_or, test_bit-pow, mask_lem}
use jaeger_client_go.Custom.Priority.{
  is_sampler_retryable, mark_sampler_finished, zeros, new_bitmap,
}

-- The bitmap holds the indices for which `finished` says yes, as far as it goes.
abbrev pub Represents : List ℕ → (ℕ → Bool) → Type 0
Represents bitmap finished =
    (j : ℕ) → j / 64 < length bitmap → is_sampler_retryable bitmap j ≡ some (finished j)

get_elem?-set :
    (xs : List ℕ) (i j v : ℕ)
    → i < length xs
    → get_elem? (set xs i v) j ≡ (if j == i then some v else get_elem? xs j)
get_elem?-set [] i j v h = absurd (omega arith)
get_elem?-set (x ∷ xs) zero zero v h = refl
get_elem?-set (x ∷ xs) zero (suc j) v h = ground arith
get_elem?-set (x ∷ xs) (suc i) zero v h = ground arith
get_elem?-set (x ∷ xs) (suc i) (suc j) v h = get_elem?-set xs i j v (omega arith) ∙ ground arith

in_range : (xs : List ℕ) (i : ℕ) → i < length xs → (v : ℕ) × (get_elem? xs i ≡ some v)
in_range [] i h = absurd (omega arith)
in_range (x ∷ xs) zero h = (x, refl)
in_range (x ∷ xs) (suc i) h = in_range xs i (omega arith)

-- a bit of the word that a mark writes
marked_word :
    (v i j : ℕ)
    → (bit_and (bit_or v (2 ^ i)) (2 ^ j) == 2 ^ j) ≡ ((j == i) || (bit_and v (2 ^ j) == 2 ^ j))
marked_word v i j =
    mask_lem (bit_or v (2 ^ i)) j
    ∙ ground (arith, test_bit-bit_or j v (2 ^ i), test_bit-pow i j, mask_lem v j)

-- the same index, from the word and the bit
same_index : (i j : ℕ) → (j == i) ≡ ((j / 64 == i / 64) && (j % 64 == i % 64))
same_index i j = ground arith

-- A mark of an index in range adds it to the set, and keeps the size.
pub mark-Represents :
    (bitmap : List ℕ) (finished : ℕ → Bool) (i : ℕ)
    → Represents bitmap finished
    → i / 64 < length bitmap
    → (bitmap' : List ℕ) × (mark_sampler_finished bitmap i ≡ some bitmap')
      × (length bitmap' ≡ length bitmap)
      × Represents bitmap' (λ j. j == i || finished j)
unfolding mark_sampler_finished is_sampler_retryable
mark-Represents bitmap finished i rep within =
    let (v, found) = in_range bitmap (i / 64) within in
    let word = bit_or v (2 ^ (i % 64)) in
    (
      set bitmap (i / 64) word,
      ground (arith, found),
      length-set bitmap (i / 64) word,
      λ j inside. ground (
        arith,
        found,
        get_elem?-set bitmap (i / 64) (j / 64) word within,
        rep j (rw (length-set bitmap (i / 64) word) at inside),
        same_index i j,
        marked_word v (i % 64) (j % 64),
      ),
    )

zeros_lem : (n j : ℕ) → j < n → get_elem? (zeros n) j ≡ some 0
zeros_lem zero j h = absurd (omega arith)
zeros_lem (suc n) zero h = refl
zeros_lem (suc n) (suc j) h = zeros_lem n j (omega arith)

pub length-zeros : (n : ℕ) → length (zeros n) ≡ n
length-zeros zero = refl
length-zeros (suc n) = ap suc (length-zeros n)

zero_word : (j : ℕ) → (bit_and 0 (2 ^ j) == 2 ^ j) ≡ false
zero_word j = mask_lem 0 j ∙ test_bit-zero j

-- A new bitmap is empty.
pub new_bitmap-Represents : (count : ℕ) → Represents (new_bitmap count) (λ j. false)
unfolding new_bitmap is_sampler_retryable
new_bitmap-Represents count j inside = ground (
  arith,
  zeros_lem (1 + count / 64) (j / 64) (rw (length-zeros (1 + count / 64)) at inside),
  zero_word (j % 64),
)
