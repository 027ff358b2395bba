-- ===== src/Propagation/Binary/Numbers.antt =====
-- A number that is written is read back.
use native.Mathlib.Nat.{pow-suc}
use jaeger_client_go.Base.{
  ℕ, zero, suc, ◌+◌, ◌*◌, ◌/◌, ◌%◌, ◌^◌, ◌<◌, ◌≡◌, refl, ap, ◌∙◌, [], ◌∷◌, ◌++◌, append_assoc, some,
  length, length-append, take-append, drop-append, Bytes, arith,
}
use jaeger_client_go.Outcome.{ok}
use jaeger_client_go.Propagation.Binary.{be_bytes, read_be, read_number, grow_and_copy}

pub length-be_bytes : (n v : ℕ) → length (be_bytes n v) ≡ n
unfolding be_bytes
length-be_bytes zero v = refl
length-be_bytes (suc n) v =
    omega
      (arith, length-append (be_bytes n (v / 256)) ((v % 256) ∷ []), length-be_bytes n (v / 256))

read_be-be_bytes :
    (n k v : ℕ) (rest : Bytes)
    → v < 256 ^ n
    → read_be (n + k) 0 (be_bytes n v ++ rest) ≡ read_be k v rest
unfolding be_bytes
read_be-be_bytes zero k v rest h =
    let e : v ≡ 0 = omega arith in let z : zero + k ≡ k = omega arith in rw (e, z)
read_be-be_bytes (suc n) k v rest h =
    let e = pow-suc 256 n in
    let shift : suc n + k ≡ n + suc k = omega arith in
    let whole : v / 256 * 256 + v % 256 ≡ v = omega arith in
    rw (shift, append_assoc (be_bytes n (v / 256)) ((v % 256) ∷ []) rest)
      (read_be-be_bytes n (suc k) (v / 256) ((v % 256) ∷ rest) (omega arith)
        ∙ (unfold read_be in ap (λ a. read_be k a rest) whole))

pub read_number-be_bytes :
    (n v : ℕ) (rest : Bytes) → v < 256 ^ n → read_number n (be_bytes n v ++ rest) ≡ ok (v, rest)
unfolding read_number
read_number-be_bytes n v rest h =
    let z : n + 0 ≡ n = omega arith in
    let e = read_be-be_bytes n 0 v rest h in
    let e' : read_be n 0 (be_bytes n v ++ rest) ≡ some (v, rest) = rw z at e in rw (e', read_number)

pub grow_and_copy-append :
    (s rest : Bytes) → length s < 2 ^ 31 → grow_and_copy (length s) (s ++ rest) ≡ ok (s, rest)
unfolding grow_and_copy
grow_and_copy-append s rest h = ground (
  arith,
  take-append s rest (length s) refl,
  drop-append s rest (length s) refl,
  length-append s rest,
)
