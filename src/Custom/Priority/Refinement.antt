-- ===== src/Custom/Priority/Refinement.antt =====
-- The bitmap implements a set of delegates whose decision is final.
use jaeger_client_go.Base.{
  ℕ, zero, suc, ◌+◌, ◌*◌, ◌/◌, ◌<◌, ◌≤◌, ◌==◌, ◌||◌, not, ◌≡◌, refl, sym, ap, ◌∙◌, Bool, true,
  false, if◌then◌else◌, List, [], Option, some, length, arith, Bool-cases, inl, inr,
}
use jaeger_client_go.Sampler.{SamplingDecision}
use jaeger_client_go.Custom.Priority.{is_sampler_retryable, mark_sampler_finished, ask_delegates}
use jaeger_client_go.Custom.Priority.Bitmap.{Represents, mark-Represents}

pick_true :
    {A : Type 0} (b : Bool) (x y : A) → b ≡ true → elim b as (λ _. A) [ true ↦ x | false ↦ y ] ≡ x
pick_true true x y h = refl
pick_true false x y h = absurd (ground (arith, h))

module _ {Num W : Type 0} (ask : ℕ → W → W × SamplingDecision Num) where
  -- the set of the finished delegates after a delegate is asked
  unfoldable pub finish : ℕ → (ℕ → Bool) → W → ℕ → Bool
  finish index finished w j =
      if (ask index w).1.retryable then finished j else j == index || finished j

  -- Ask the delegates that are not finished, in order, up to one that samples. Those whose decision
  -- is not retryable are finished.
  unfoldable pub ask_set : ℕ → ℕ → (ℕ → Bool) → Bool → W → (ℕ → Bool) × W × SamplingDecision Num
  ask_set zero index finished retryable w =
      (finished, w, record { sample = false; retryable = retryable; tags = [] })
  ask_set (suc n) index finished retryable w = elim (finished index) [
    | true ↦ ask_set n (suc index) finished retryable w
    | false ↦
        let (w', decision) = ask index w in
        elim decision.sample [
          | true ↦ (finish index finished w, w', decision)
          | false ↦
              ask_set n (suc index) (finish index finished w) (retryable || decision.retryable) w'
        ]
  ]

  abbrev pub Agrees :
      List ℕ
      → Option (List ℕ × W × SamplingDecision Num)
      → (ℕ → Bool) × W × SamplingDecision Num
      → Type 0
  Agrees bitmap result asked =
      (bitmap' : List ℕ) × (result ≡ some (bitmap', asked.1, asked.2))
      × (length bitmap' ≡ length bitmap)
      × Represents bitmap' asked.0

  empty_lem :
      (index : ℕ) (bitmap : List ℕ) (retryable : Bool) (w : W)
      → ask_delegates ask 0 index bitmap retryable w
        ≡ some (bitmap, w, record { sample = false; retryable = retryable; tags = [] })
  unfolding ask_delegates
  empty_lem index bitmap retryable w = refl

  skipped_lem :
      (n index : ℕ) (bitmap : List ℕ) (retryable : Bool) (w : W)
      → is_sampler_retryable bitmap index ≡ some true
      → ask_delegates ask (suc n) index bitmap retryable w
        ≡ ask_delegates ask n (suc index) bitmap retryable w
  unfolding ask_delegates
  skipped_lem n index bitmap retryable w h = ground (arith, h)

  -- the marked bitmap of a delegate that is asked
  abbrev marked : ℕ → List ℕ → W → Option (List ℕ)
  marked index bitmap w =
      if not (ask index w).1.retryable then mark_sampler_finished bitmap index else some bitmap

  sampled_lem :
      (n index : ℕ) (bitmap bitmap' : List ℕ) (retryable : Bool) (w : W)
      → is_sampler_retryable bitmap index ≡ some false
      → marked index bitmap w ≡ some bitmap'
      → (ask index w).1.sample ≡ true
      → ask_delegates ask (suc n) index bitmap retryable w
        ≡ some (bitmap', (ask index w).0, (ask index w).1)
  unfolding ask_delegates
  sampled_lem n index bitmap bitmap' retryable w h m s = ground (arith, h, m, s)

  asked_lem :
      (n index : ℕ) (bitmap bitmap' : List ℕ) (retryable : Bool) (w : W)
      → is_sampler_retryable bitmap index ≡ some false
      → marked index bitmap w ≡ some bitmap'
      → (ask index w).1.sample ≡ false
      → ask_delegates ask (suc n) index bitmap retryable w
        ≡ ask_delegates ask n
            (suc index)
            bitmap'
            (retryable || (ask index w).1.retryable)
            (ask index w).0
  unfolding ask_delegates
  asked_lem n index bitmap bitmap' retryable w h m s = ground (arith, h, m, s)

  finish_lem :
      (index : ℕ) (finished : ℕ → Bool) (w : W) (j : ℕ)
      → finish index finished w j
        ≡ (if (ask index w).1.retryable then finished j else j == index || finished j)
  unfolding finish
  finish_lem index finished w j = refl

  skipped_set :
      (n index : ℕ) (finished : ℕ → Bool) (retryable : Bool) (w : W)
      → finished index ≡ true
      → ask_set (suc n) index finished retryable w ≡ ask_set n (suc index) finished retryable w
  unfolding ask_set
  skipped_set n index finished retryable w h = rw (h, ask_set) refl

  sampled_set :
      (n index : ℕ) (finished : ℕ → Bool) (retryable : Bool) (w : W)
      → finished index ≡ false
      → (ask index w).1.sample ≡ true
      → ask_set (suc n) index finished retryable w
        ≡ (finish index finished w, (ask index w).0, (ask index w).1)
  unfolding ask_set
  sampled_set n index finished retryable w h s =
      rw (h, ask_set) (pick_true (ask index w).1.sample _ _ s)

  asked_set :
      (n index : ℕ) (finished : ℕ → Bool) (retryable : Bool) (w : W)
      → finished index ≡ false
      → (ask index w).1.sample ≡ false
      → ask_set (suc n) index finished retryable w
        ≡ ask_set n
            (suc index)
            (finish index finished w)
            (retryable || (ask index w).1.retryable)
            (ask index w).0
  unfolding ask_set
  asked_set n index finished retryable w h s = rw (h, s, ask_set) refl

  marked_again :
      (index : ℕ) (bitmap : List ℕ) (w : W)
      → (ask index w).1.retryable ≡ true
      → marked index bitmap w ≡ some bitmap
  marked_again index bitmap w h = ground (arith, h)

  marked_final :
      (index : ℕ) (bitmap : List ℕ) (w : W)
      → (ask index w).1.retryable ≡ false
      → marked index bitmap w ≡ mark_sampler_finished bitmap index
  marked_final index bitmap w h = ground (arith, h)

  marked_lem :
      (index : ℕ) (bitmap : List ℕ) (finished : ℕ → Bool) (w : W)
      → Represents bitmap finished
      → index / 64 < length bitmap
      → (bitmap' : List ℕ) × (marked index bitmap w ≡ some bitmap')
        × (length bitmap' ≡ length bitmap)
        × Represents bitmap' (finish index finished w)
  marked_lem index bitmap finished w rep inside = elim (Bool-cases (ask index w).1.retryable) [
    | inl again ↦ (
      bitmap,
      marked_again index bitmap w again,
      refl,
      λ j i. rep j i ∙ ap some (sym (finish_lem index finished w j ∙ rw again refl)),
    )
    | inr final ↦
        let (bitmap', m, size, rep') = mark-Represents bitmap finished index rep inside in
        (
          bitmap',
          marked_final index bitmap w final ∙ m,
          size,
          λ j i. rep' j i ∙ ap some (sym (finish_lem index finished w j ∙ rw final refl)),
        )
  ]

  empty-Agrees :
      (index : ℕ) (bitmap : List ℕ) (finished : ℕ → Bool) (retryable : Bool) (w : W)
      → Represents bitmap finished
      → Agrees bitmap
          (ask_delegates ask 0 index bitmap retryable w)
          (ask_set 0 index finished retryable w)
  unfolding ask_set
  empty-Agrees index bitmap finished retryable w rep =
      (bitmap, empty_lem index bitmap retryable w, refl, rep)

  -- On a bitmap that represents a set and has room for all delegates, the loop of `trySampling`
  -- does not panic. It gives the world and the decision that asking by the set gives, and a bitmap
  -- of the same size that represents the set after that.
  pub ask_delegates-Agrees :
      (n index : ℕ) (bitmap : List ℕ) (finished : ℕ → Bool) (retryable : Bool) (w : W)
      → Represents bitmap finished
      → index + n ≤ 64 * length bitmap
      → Agrees bitmap
          (ask_delegates ask n index bitmap retryable w)
          (ask_set n index finished retryable w)
  ask_delegates-Agrees zero index bitmap finished retryable w rep room =
      empty-Agrees index bitmap finished retryable w rep
  ask_delegates-Agrees (suc n) index bitmap finished retryable w rep room =
      let inside : index / 64 < length bitmap = omega arith in
      let here : is_sampler_retryable bitmap index ≡ some (finished index) = rep index inside in
      elim (Bool-cases (finished index)) [
        | inl skipped ↦
            rw
              (
                skipped_lem n index bitmap retryable w (here ∙ ap some skipped),
                skipped_set n index finished retryable w skipped,
              )
              (ask_delegates-Agrees n (suc index) bitmap finished retryable w rep (omega arith))
        | inr asked ↦
            let (bitmap', m, size, rep') = marked_lem index bitmap finished w rep inside in
            elim (Bool-cases (ask index w).1.sample) [
              | inl yes_sample ↦
                  rw
                    (
                      sampled_lem n index bitmap bitmap' retryable w (here ∙ ap some asked) m
                          yes_sample,
                      sampled_set n index finished retryable w asked yes_sample,
                    )
                    (bitmap', refl, size, rep')
              | inr none_yet ↦
                  let (last, e, size', rep'') =
                    ask_delegates-Agrees n (suc index) bitmap' (finish index finished w)
                      (retryable || (ask index w).1.retryable) (ask index w).0 rep' (omega arith) in
                  rw
                    (
                      asked_lem n index bitmap bitmap' retryable w (here ∙ ap some asked) m
                          none_yet,
                      asked_set n index finished retryable w asked none_yet,
                    )
                    (last, e, size' ∙ size, rep'')
            ]
      ]
