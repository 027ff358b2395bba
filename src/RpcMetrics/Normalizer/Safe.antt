-- ===== src/RpcMetrics/Normalizer/Safe.antt =====
-- What `Normalize` makes of a name.
use jaeger_client_go.Base.{
  ℕ, zero, suc, ◌+◌, ◌≡◌, refl, sym, ap, ◌∙◌, Bool-cases, inl, inr, if◌then◌else◌, [], ◌∷◌, ◌++◌,
  Option, none, some, Bytes, length, set, map, set-append, length-append, append_assoc, append-nil,
  arith,
}
use mathlib.Core.Path.{subst}
use jaeger_client_go.RpcMetrics.Normalizer.{
  SimpleNameNormalizer, safe_byte, make, copy_upto, normalize_byte, normalize_loop, normalize,
}

length-make : (n : ℕ) → length (make n) ≡ n
unfolding make
length-make zero = refl
length-make (suc n) = ap suc (length-make n)

copy_upto-append :
    (seen rest dst : Bytes)
    → length dst ≡ length seen + length rest
    → (tail : Bytes) × (copy_upto (length seen) dst (seen ++ rest) ≡ seen ++ tail)
      × (length tail ≡ length rest)
unfolding copy_upto
copy_upto-append [] rest dst h = (dst, refl, omega arith)
copy_upto-append (b ∷ seen) rest [] h = absurd (omega arith)
copy_upto-append (b ∷ seen) rest (d ∷ dst) h =
    let (tail, e, l) = copy_upto-append seen rest dst (omega arith) in (tail, ap (λ t. b ∷ t) e, l)

map-snoc : (f : ℕ → ℕ) (xs : Bytes) (b : ℕ) → map f (xs ++ b ∷ []) ≡ map f xs ++ f b ∷ []
map-snoc f [] b = refl
map-snoc f (x ∷ xs) b = ap (λ t. f x ∷ t) (map-snoc f xs b)

length-map : (f : ℕ → ℕ) (xs : Bytes) → length (map f xs) ≡ length xs
length-map f [] = refl
length-map f (x ∷ xs) = ap suc (length-map f xs)

module _ (n : SimpleNameNormalizer) where
  -- a byte in its safe form
  abbrev pub safe : ℕ → ℕ
  safe b = if safe_byte n b then b else n.replacement

  -- The result so far, after the bytes `seen`, with as many to come as in `rest`.
  abbrev Done : Bytes → Bytes → Option Bytes → Type 0
  Done seen rest none = map safe seen ≡ seen
  Done seen rest (some r) =
      (tail : Bytes) × (r ≡ map safe seen ++ tail) × (length tail ≡ length rest)

  -- writing the next byte
  set_next :
      (seen rest : Bytes) (b c : ℕ) (r : Bytes)
      → Done seen (b ∷ rest) (some r)
      → c ≡ safe b
      → Done (seen ++ b ∷ []) rest (some (set r (length seen) c))
  set_next seen rest b c r ([], e, l) h = absurd (omega arith)
  set_next seen rest b c r (t ∷ tail, e, l) h = (
    tail,
    ap (λ x. set x (length seen) c) e
        ∙ (set-append (map safe seen) tail t c (length seen) (sym (length-map safe seen))
            ∙ (ap (λ x. map safe seen ++ x ∷ tail) h
                ∙ (sym (append_assoc (map safe seen) (safe b ∷ []) tail)
                    ∙ ap (λ x. x ++ tail) (sym (map-snoc safe seen b))))),
    omega arith,
  )

  normalize_byte-Done :
      (seen rest : Bytes) (b : ℕ) (ret_me : Option Bytes)
      → Done seen (b ∷ rest) ret_me
      → Done (seen ++ b ∷ []) rest (normalize_byte n (seen ++ b ∷ rest) ret_me (length seen) b)
  unfolding normalize_byte
  normalize_byte-Done seen rest b (some r) d = elim (Bool-cases (safe_byte n b)) [
    | inl e ↦ rw (e, normalize_byte) (set_next seen rest b b r d (rw e refl))
    | inr e ↦ rw (e, normalize_byte) (set_next seen rest b n.replacement r d (rw e refl))
  ]
  normalize_byte-Done seen rest b none d = elim (Bool-cases (safe_byte n b)) [
    | inl e ↦ rw (e, normalize_byte) (map-snoc safe seen b ∙ rw e (ap (λ x. x ++ b ∷ []) d))
    | inr e ↦
        let (tail, q, l) =
          copy_upto-append seen (b ∷ rest) (make (length (seen ++ b ∷ rest)))
            (length-make _ ∙ length-append seen (b ∷ rest)) in
        rw (e, normalize_byte)
          (set_next seen rest b n.replacement _ (tail, q ∙ ap (λ x. x ++ tail) (sym d), l)
            (rw e refl))
  ]

  normalize_loop-Done :
      (rest name seen : Bytes) (ret_me : Option Bytes) (i : ℕ)
      → name ≡ seen ++ rest
      → i ≡ length seen
      → Done seen rest ret_me
      → Done name [] (normalize_loop n name ret_me i rest)
  unfolding normalize_loop
  normalize_loop-Done [] name seen ret_me i p q d =
      subst (λ x. Done x [] ret_me) (sym (append-nil seen) ∙ sym p) d
  normalize_loop-Done (b ∷ rest) name seen ret_me i p q d =
      normalize_loop-Done rest name (seen ++ b ∷ []) (normalize_byte n name ret_me i b) (suc i)
        (p ∙ sym (append_assoc seen (b ∷ []) rest))
        (ap suc q ∙ (omega (arith, length-append seen (b ∷ []))))
        (subst (λ (x : Bytes × ℕ). Done (seen ++ b ∷ []) rest (normalize_byte n x.0 ret_me x.1 b))
          (λ k. (sym p k, sym q k)) (normalize_byte-Done seen rest b ret_me d))

  Done-normalize :
      (name : Bytes) (ret_me : Option Bytes)
      → Done name [] ret_me
      → map safe name ≡ elim ret_me [ none ↦ name | some r ↦ r ]
  Done-normalize name none d = d
  Done-normalize name (some r) ([], e, l) = sym (append-nil (map safe name)) ∙ sym e
  Done-normalize name (some r) (t ∷ tail, e, l) = absurd (omega arith)

  -- Whatever the safe sets are, Normalize gives the name with each byte that is in none of them
  -- replaced, and every other byte in its place.
  pub normalize-map : (name : Bytes) → normalize n name ≡ map safe name
  unfolding normalize
  normalize-map name = sym (
      Done-normalize name (normalize_loop n name none 0 name)
        (normalize_loop-Done name name [] none 0 refl refl refl))
