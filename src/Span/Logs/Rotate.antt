-- ===== src/Span/Logs/Rotate.antt =====
-- The in-place rotation of span.go is the rotation of a list.
use mathlib.Core.List.{concat-ne-nil, cons-ne-nil}
use jaeger_client_go.Base.{
  ℕ, zero, suc, ◌+◌, ◌<◌, ◌≡◌, ◌≢◌, refl, List, [], ◌∷◌, ◌++◌, append-nil, append_assoc, some,
  length, get_elem?, set, length-append, get_elem?-append, set-append, arith,
}
use jaeger_client_go.Span.Logs.{swap, rotate_loop, rotate_log_buffer}

module _ {A : Type 0} where
  swap_lem :
      (d m r : List A) (x y : A) (i j : ℕ)
      → i ≡ length d
      → j ≡ length d + 1 + length m
      → swap (d ++ x ∷ (m ++ y ∷ r)) i j ≡ d ++ y ∷ (m ++ x ∷ r)
  unfolding swap
  swap_lem d m r x y i j hi hj =
      let second : get_elem? (d ++ x ∷ (m ++ y ∷ r)) j ≡ some y =
        rw (← append_assoc d (x ∷ m) (y ∷ r))
          (get_elem?-append (d ++ x ∷ m) r y j (omega (arith, length-append d (x ∷ m)))) in
      let writes : set (set (d ++ x ∷ (m ++ y ∷ r)) i y) j x ≡ d ++ y ∷ (m ++ x ∷ r) =
        rw (set-append d (m ++ y ∷ r) x y i hi, ← append_assoc d (y ∷ m) (y ∷ r))
          (rw (set-append (d ++ y ∷ m) r y x j (omega (arith, length-append d (y ∷ m))))
            (append_assoc d (y ∷ m) (x ∷ r))) in
      ground (arith, get_elem?-append d (m ++ y ∷ r) x i hi, second, writes)

  -- What the loop still has to move: nothing, or something to swap with.
  abbrev Ready : List A → List A → List A → Type 0
  Ready [] q r = q ≡ []
  Ready (x ∷ p) q r = r ≢ []

  Ready-nil : (p r : List A) → r ≢ [] → Ready p [] r
  Ready-nil [] r h = refl
  Ready-nil (x ∷ p) r h = h

  module _ (d p q r buf : List A) (x y : A) (first middle next : ℕ)
      (eb : buf ≡ d ++ ((x ∷ p) ++ (q ++ (y ∷ r)))) (ef : first ≡ length d)
      (em : middle ≡ first + length (x ∷ p)) (en : next ≡ middle + length q) where
    -- one exchange of the loop
    swap_step : swap buf first next ≡ d ++ y ∷ (p ++ (q ++ x ∷ r))
    swap_step =
        rw (eb, ← append_assoc p q (y ∷ r))
          (rw (swap_lem d (p ++ q) r x y first next ef (omega (arith, length-append p q)))
            (simp append_assoc))

    length_step : length buf ≡ length d + 1 + length p + length q + 1 + length r
    length_step = rw eb (
        omega (
          arith,
          length-append d (x ∷ (p ++ (q ++ y ∷ r))),
          length-append p (q ++ y ∷ r),
          length-append q (y ∷ r),
        ))

  -- `q` holds what was swapped out of the front since `middle` was last moved.
  rotate_loop_lem :
      (fuel : ℕ) (d p q r buf : List A) (first middle next : ℕ)
      → length p + length q + length r < fuel
      → Ready p q r
      → buf ≡ d ++ (p ++ (q ++ r))
      → first ≡ length d
      → middle ≡ first + length p
      → next ≡ middle + length q
      → rotate_loop fuel buf first middle next ≡ some (d ++ (r ++ (q ++ p)))
  unfolding rotate_loop
  rotate_loop_lem zero d p q r buf first middle next lt ready eb ef em en = absurd (omega arith)
  rotate_loop_lem (suc fuel) d [] q r buf first middle next lt ready eb ef em en =
      rw (eb, ready, append-nil) (ground arith)
  rotate_loop_lem (suc fuel) d (x ∷ p) q [] buf first middle next lt ready eb ef em en =
      absurd (ready refl)
  rotate_loop_lem (suc fuel) d (x ∷ p) q (y ∷ []) buf first middle next lt ready eb ef em en =
      let more = length-append q (x ∷ []) in
      let ih : rotate_loop fuel (swap buf first next) (first + 1) middle middle
          ≡ some ((d ++ y ∷ []) ++ ((q ++ x ∷ []) ++ p)) =
        rotate_loop_lem fuel (d ++ y ∷ []) p [] (q ++ x ∷ []) (swap buf first next) (first + 1)
          middle middle (omega arith) (Ready-nil p _ (concat-ne-nil x q))
          (rw (swap_step d p q [] buf x y first middle next eb ef em en) (simp append_assoc))
          (omega (arith, length-append d (y ∷ []))) (omega arith) (omega arith) in
      ground (
        arith,
        ih,
        length_step d p q [] buf x y first middle next eb ef em en,
        append_assoc d (y ∷ []) ((q ++ x ∷ []) ++ p),
        append_assoc q (x ∷ []) p,
      )
  rotate_loop_lem (suc fuel) d (x ∷ []) q (y ∷ z ∷ r) buf first middle next lt ready eb ef em en =
      let more = length-append q (x ∷ []) in
      let ih : rotate_loop fuel (swap buf first next) (first + 1) (next + 1) (next + 1)
          ≡ some ((d ++ y ∷ []) ++ ((z ∷ r) ++ (q ++ x ∷ []))) =
        rotate_loop_lem fuel (d ++ y ∷ []) (q ++ x ∷ []) [] (z ∷ r) (swap buf first next)
          (first + 1) (next + 1) (next + 1) (omega arith)
          (Ready-nil (q ++ x ∷ []) (z ∷ r) (cons-ne-nil z r))
          (rw (swap_step d [] q (z ∷ r) buf x y first middle next eb ef em en) (simp append_assoc))
          (omega (arith, length-append d (y ∷ []))) (omega arith) (omega arith) in
      ground (
        arith,
        ih,
        length_step d [] q (z ∷ r) buf x y first middle next eb ef em en,
        append_assoc d (y ∷ []) ((z ∷ r) ++ (q ++ x ∷ [])),
      )
  rotate_loop_lem (suc fuel) d (x ∷ v ∷ p) q (y ∷ z ∷ r) buf first middle next lt ready eb ef em
        en =
      let more = length-append q (x ∷ []) in
      let ih : rotate_loop fuel (swap buf first next) (first + 1) middle (next + 1)
          ≡ some ((d ++ y ∷ []) ++ ((z ∷ r) ++ ((q ++ x ∷ []) ++ v ∷ p))) =
        rotate_loop_lem fuel (d ++ y ∷ []) (v ∷ p) (q ++ x ∷ []) (z ∷ r) (swap buf first next)
          (first + 1) middle (next + 1) (omega arith) (cons-ne-nil z r)
          (rw (swap_step d (v ∷ p) q (z ∷ r) buf x y first middle next eb ef em en)
            (simp append_assoc))
          (omega (arith, length-append d (y ∷ []))) (omega arith) (omega arith) in
      ground (
        arith,
        ih,
        length_step d (v ∷ p) q (z ∷ r) buf x y first middle next eb ef em en,
        append_assoc d (y ∷ []) ((z ∷ r) ++ ((q ++ x ∷ []) ++ v ∷ p)),
        append_assoc q (x ∷ []) (v ∷ p),
      )

  -- `rotateLogBuffer(buf, pos)` moves the first `pos` records behind the others, in place and with
  -- their order kept, for every position inside the buffer; its loop ends.
  pub rotate_log_buffer_lem :
      (p r : List A) → r ≢ [] → rotate_log_buffer (p ++ r) (length p) ≡ some (r ++ p)
  unfolding rotate_log_buffer
  rotate_log_buffer_lem p r h =
      rotate_loop_lem (length (p ++ r) + 1) [] p [] r (p ++ r) 0 (length p) (length p)
        (omega (arith, length-append p r)) (Ready-nil p r h) refl (omega arith) (omega arith)
        (omega arith)
