-- ===== src/Conversion/Jaeger/Typed.antt =====
-- The tags that are built for the thrift format.
use jaeger_client_go.Base.{
  ℕ, ◌+◌, ◌≤◌, ◌≡◌, refl, sym, List, [], ◌∷◌, Option, none, some, Bytes, length, length-take, arith,
}
use jaeger_client_go.Conversion.{
  Value, string, bytes, nil_bytes, span_kind, int, int8, int16, int32, int64, uint, uint8, uint16,
  uint32, uint64, float32, float64, bool, other, Tag, truncate_string,
}
use jaeger_client_go.Conversion.Jaeger.{
  type_string, type_double, type_bool, type_long, type_binary, ThriftTag, str_tag, build_tag,
  build_tags,
}

length-truncate_string : (v : Bytes) (n : ℕ) → length (truncate_string v n) ≤ n
unfolding truncate_string
length-truncate_string v n = ground (arith, length-take n v)

abbrev is_some {ℓ} : {A : Type ℓ} → Option A → ℕ
is_some none = 0
is_some (some _) = 1

abbrev size : Option Bytes → ℕ
size none = 0
size (some v) = length v

module _ {Num : Type 0} where
  -- the field that the type of a tag names
  abbrev holds_its_type : ThriftTag Num → ℕ
  holds_its_type t = elim t.v_type [
    | type_string ↦ is_some t.v_str
    | type_double ↦ is_some t.v_double
    | type_bool ↦ is_some t.v_bool
    | type_long ↦ is_some t.v_long
    | type_binary ↦ is_some t.v_binary
  ]

  -- the number of values that a tag should hold: a nil slice of bytes is none
  abbrev values : Value Num → ℕ
  values value = elim value [ nil_bytes ↦ 0 | v ↦ 1 ]

  -- Exactly one field holds a value, the one that the type names, or none does for a nil slice of
  -- bytes; and text and bytes have at most `n` bytes.
  pub record IsTyped (n : ℕ) (value : Value Num) (t : ThriftTag Num) : Type 0 where
    pub named : holds_its_type t ≡ values value
    pub alone :
        is_some t.v_str
          + (is_some t.v_double + (is_some t.v_bool + (is_some t.v_long + is_some t.v_binary)))
        ≡ values value
    pub short : (size t.v_str ≤ n) × (size t.v_binary ≤ n)

  str_tag-IsTyped :
      (value : Value Num) (key v : Bytes) (n : ℕ)
      → values value ≡ 1
      → IsTyped n value (str_tag key (truncate_string v n))
  str_tag-IsTyped value key v n e = record {
    named = sym e;
    alone = sym e;
    short = (length-truncate_string v n, omega arith);
  }

  build_value-IsTyped :
      (show : Value Num → Bytes) (key : Bytes) (value : Value Num) (n : ℕ)
      → IsTyped n value (build_tag show (record { key = key; value = value }) n)
  unfolding build_tag
  build_value-IsTyped show key (string v) n = str_tag-IsTyped (string v) key v n refl
  build_value-IsTyped show key (bytes v) n = record {
    named = refl;
    alone = refl;
    short = (omega arith, length-truncate_string v n);
  }
  build_value-IsTyped show key nil_bytes n = record {
    named = refl;
    alone = refl;
    short = (omega arith, omega arith);
  }
  build_value-IsTyped show key (int v) n = record {
    named = refl;
    alone = refl;
    short = (omega arith, omega arith);
  }
  build_value-IsTyped show key (int8 v) n = record {
    named = refl;
    alone = refl;
    short = (omega arith, omega arith);
  }
  build_value-IsTyped show key (int16 v) n = record {
    named = refl;
    alone = refl;
    short = (omega arith, omega arith);
  }
  build_value-IsTyped show key (int32 v) n = record {
    named = refl;
    alone = refl;
    short = (omega arith, omega arith);
  }
  build_value-IsTyped show key (int64 v) n = record {
    named = refl;
    alone = refl;
    short = (omega arith, omega arith);
  }
  build_value-IsTyped show key (uint v) n = record {
    named = refl;
    alone = refl;
    short = (omega arith, omega arith);
  }
  build_value-IsTyped show key (uint8 v) n = record {
    named = refl;
    alone = refl;
    short = (omega arith, omega arith);
  }
  build_value-IsTyped show key (uint16 v) n = record {
    named = refl;
    alone = refl;
    short = (omega arith, omega arith);
  }
  build_value-IsTyped show key (uint32 v) n = record {
    named = refl;
    alone = refl;
    short = (omega arith, omega arith);
  }
  build_value-IsTyped show key (uint64 v) n = record {
    named = refl;
    alone = refl;
    short = (omega arith, omega arith);
  }
  build_value-IsTyped show key (float32 v) n = record {
    named = refl;
    alone = refl;
    short = (omega arith, omega arith);
  }
  build_value-IsTyped show key (float64 v) n = record {
    named = refl;
    alone = refl;
    short = (omega arith, omega arith);
  }
  build_value-IsTyped show key (bool v) n = record {
    named = refl;
    alone = refl;
    short = (omega arith, omega arith);
  }
  build_value-IsTyped show key (span_kind v) n =
      str_tag-IsTyped (span_kind v) key (show (span_kind v)) n refl
  build_value-IsTyped show key (other v) n = str_tag-IsTyped (other v) key (show (other v)) n refl

  build_value-key :
      (show : Value Num → Bytes) (key : Bytes) (value : Value Num) (n : ℕ)
      → (build_tag show (record { key = key; value = value }) n).key ≡ key
  unfolding build_tag
  build_value-key show key value n =
      elim value as (λ v. (build_tag show (record { key = key; value = v }) n).key ≡ key) [
        | string v ↦ refl
        | bytes v ↦ refl
        | nil_bytes ↦ refl
        | span_kind v ↦ refl
        | int v ↦ refl
        | int8 v ↦ refl
        | int16 v ↦ refl
        | int32 v ↦ refl
        | int64 v ↦ refl
        | uint v ↦ refl
        | uint8 v ↦ refl
        | uint16 v ↦ refl
        | uint32 v ↦ refl
        | uint64 v ↦ refl
        | float32 v ↦ refl
        | float64 v ↦ refl
        | bool v ↦ refl
        | other v ↦ refl
      ]

  -- Tag by tag: the same key, and the values of the right type.
  abbrev pub AreTyped : ℕ → List (Tag Num) → List (ThriftTag Num) → Type 0
  AreTyped n [] [] = Unit
  AreTyped n (tag ∷ tags) (t ∷ ts) = (t.key ≡ tag.key) × IsTyped n tag.value t × AreTyped n tags ts
  AreTyped n _ _ = ⊥

  -- There is one tag for each tag, in the same order, with the same key. It holds exactly one
  -- value, in the field that its type names, or none if the value was a nil slice of bytes; and it
  -- has no text and no bytes longer than the limit.
  pub build_tags-AreTyped :
      (show : Value Num → Bytes) (tags : List (Tag Num)) (n : ℕ)
      → AreTyped n tags (build_tags show tags n)
  unfolding build_tags build_tag
  build_tags-AreTyped show [] n = tt
  build_tags-AreTyped show (tag ∷ tags) n = (
    build_value-key show tag.key tag.value n,
    build_value-IsTyped show tag.key tag.value n,
    build_tags-AreTyped show tags n,
  )
