-- ===== src/Tracer/Parent.antt =====
-- Which of the references of a new span is its parent.
use jaeger_client_go.Base.{
  ◌==◌, ◌&&◌, ◌||◌, not, ◌≡◌, refl, Bool, true, false, if◌then◌else◌, List, [], ◌∷◌, ◌++◌,
  append-nil, append_assoc, Option, none, some, arith,
}
use jaeger_client_go.SpanContext.{SpanContext, is_valid, is_debug_id_container_only, empty_context}
use jaeger_client_go.Span.{self_ref, Reference}
use jaeger_client_go.Tracer.{
  SpanReference, is_empty_reference, Lookup, no_lookup, is_child_of, take_reference,
  take_references, find_parent,
}

-- The context of a reference that may be the parent: it is a Jaeger context, it is not empty, and
-- the reference is no self reference.
abbrev pub eligible : SpanReference → Option SpanContext
eligible ref = elim ref.referenced_context [
  | none ↦ none
  | some c ↦ if is_empty_reference c then none else elim ref.type [ self_ref ↦ none | _ ↦ some c ]
]

abbrev pub first_child : List SpanReference → Option SpanContext
first_child [] = none
first_child (r ∷ rs) = elim (eligible r) [
  | none ↦ first_child rs
  | some c ↦ if is_child_of r.type then some c else first_child rs
]

abbrev pub last_eligible : Option SpanContext → List SpanReference → Option SpanContext
last_eligible acc [] = acc
last_eligible acc (r ∷ rs) = last_eligible (elim (eligible r) [ none ↦ acc | some c ↦ some c ]) rs

-- the valid contexts among those of the eligible references
abbrev pub valid_references : List SpanReference → List Reference
valid_references [] = []
valid_references (r ∷ rs) = elim (eligible r) [
  | none ↦ valid_references rs
  | some c ↦
      if is_valid c
      then record { type = r.type; context = c } ∷ valid_references rs
      else valid_references rs
]

abbrev pub or_empty : Option SpanContext → SpanContext
or_empty o = elim o [ none ↦ empty_context | some c ↦ c ]

-- the parent, before any reference is read as no parent
abbrev pub chosen : List SpanReference → Option SpanContext
chosen refs = elim (first_child refs) [ none ↦ last_eligible none refs | some c ↦ some c ]

round_references :
    (l : Lookup) (r : SpanReference)
    → (take_reference l r).references ≡ l.references ++ valid_references (r ∷ [])
unfolding take_reference
round_references l r = ground (arith, append-nil l.references)

round_parent :
    (l : Lookup) (r : SpanReference)
    → l.has_parent ≡ false
    → ((take_reference l r).parent ≡ elim (eligible r) [ none ↦ l.parent | some c ↦ c ])
      × ((take_reference l r).has_parent
          ≡ elim (first_child (r ∷ [])) [ none ↦ false | some c ↦ true ])
unfolding take_reference
round_parent l r h = ground arith

kept_round :
    (l : Lookup) (r : SpanReference)
    → l.has_parent ≡ true
    → ((take_reference l r).parent ≡ l.parent) × ((take_reference l r).has_parent ≡ true)
unfolding take_reference
kept_round l r h = ground arith

kept :
    (l : Lookup) (refs : List SpanReference)
    → l.has_parent ≡ true
    → ((take_references l refs).parent ≡ l.parent) × ((take_references l refs).has_parent ≡ true)
unfolding take_references
kept l [] h = (refl, h)
kept l (r ∷ rs) h = ground (arith, kept_round l r h, kept (take_reference l r) rs)

take_references_parent :
    (l : Lookup) (acc : Option SpanContext) (refs : List SpanReference)
    → l.has_parent ≡ false
    → l.parent ≡ or_empty acc
    → ((take_references l refs).parent
        ≡ or_empty (elim (first_child refs) [ none ↦ last_eligible acc refs | some c ↦ some c ]))
      × ((take_references l refs).has_parent
          ≡ elim (first_child refs) [ none ↦ false | some c ↦ true ])
unfolding take_references
take_references_parent l acc [] h e = (e, h)
take_references_parent l acc (r ∷ rs) h e = ground (
  arith,
  round_parent l r h,
  kept (take_reference l r) rs,
  take_references_parent (take_reference l r) (elim (eligible r) [ none ↦ acc | some c ↦ some c ])
      rs,
)

take_references_references :
    (l : Lookup) (refs : List SpanReference)
    → (take_references l refs).references ≡ l.references ++ valid_references refs
unfolding take_references
take_references_references l [] = rw append-nil refl
take_references_references l (r ∷ rs) = ground (
  arith,
  round_references l r,
  take_references_references (take_reference l r) rs,
  append_assoc l.references (valid_references (r ∷ [])) (valid_references rs),
)

abbrev NotEmpty : Option SpanContext → Type 0
NotEmpty o = elim o [ none ↦ Unit {0} | some c ↦ is_empty_reference c ≡ false ]

eligible-NotEmpty : (r : SpanReference) → NotEmpty (eligible r)
eligible-NotEmpty r = ground arith

last_eligible-NotEmpty :
    (acc : Option SpanContext) (refs : List SpanReference)
    → NotEmpty acc
    → NotEmpty (last_eligible acc refs)
last_eligible-NotEmpty acc [] h = h
last_eligible-NotEmpty acc (r ∷ rs) h =
    last_eligible-NotEmpty (elim (eligible r) [ none ↦ acc | some c ↦ some c ]) rs
      (ground (arith, eligible-NotEmpty r))

empty-IsEmpty : is_empty_reference empty_context ≡ true
unfolding is_empty_reference is_valid is_debug_id_container_only jaeger_client_go.Base.bytes_eq
empty-IsEmpty = refl

-- For any list of references: the parent is the context of the first eligible ChildOf reference,
-- and without one that of the last eligible reference; there is a parent exactly if there is an
-- eligible reference. The references of the span are the eligible ones with a valid context, in
-- order.
pub find_parent_lem :
    (refs : List SpanReference)
    → ((find_parent refs).parent ≡ or_empty (chosen refs))
      × ((find_parent refs).has_parent ≡ elim (chosen refs) [ none ↦ false | some c ↦ true ])
      × ((find_parent refs).references ≡ valid_references refs)
unfolding find_parent
find_parent_lem refs = ground (
  arith,
  take_references_parent no_lookup none refs refl refl,
  take_references_references no_lookup refs,
  last_eligible-NotEmpty none refs tt,
  empty-IsEmpty,
)
