-- ===== src/Config/Tags.antt =====
-- The tags of a configuration that come from JAEGER_TAGS.
use jaeger_client_go.Base.{
  ℕ, zero, suc, ◌≡◌, refl, sym, false, List, [], ◌∷◌, Option, none, some, Bytes, codes, bytes_eq,
  get_elem?, arith,
}
use mathlib.Core.Path.{subst}
use mathlib.Core.Option.{some-injective}
use jaeger_client_go.SpanContext.Hex.{split}
use jaeger_client_go.SpanContext.Hex.RoundTrip.{Lacks}
use jaeger_client_go.Config.Pairs.{split_once, parse_tag, parse_pairs, parse_tags}
use jaeger_client_go.Config.{
  env_ok, env_panic, Configuration, Environment, override, tags_from_env, from_env,
}

split_once-Lacks : (sep : ℕ) (s : Bytes) → Lacks sep s → (split_once sep s).1 ≡ none
unfolding split_once
split_once-Lacks sep [] h = refl
split_once-Lacks sep (c ∷ s) (hc, h) = ground (arith, hc, split_once-Lacks sep s h)

parse_tag-Lacks : (getenv : Bytes → Bytes) (p : Bytes) → Lacks b'=' p → parse_tag getenv p ≡ none
unfolding parse_tag
parse_tag-Lacks getenv p h = ground (arith, split_once-Lacks b'=' p h)

parse_pairs-Lacks :
    (getenv : Bytes → Bytes) (pairs : List Bytes) (i : ℕ) (p : Bytes)
    → get_elem? pairs i ≡ some p
    → Lacks b'=' p
    → parse_pairs getenv pairs ≡ none
unfolding parse_pairs
parse_pairs-Lacks getenv [] i p e h = absurd (ground (arith, e))
parse_pairs-Lacks getenv (q ∷ pairs) zero p e h =
    ground (arith, parse_tag-Lacks getenv q (subst (Lacks b'=') (sym (some-injective q p e)) h))
parse_pairs-Lacks getenv (q ∷ pairs) (suc i) p e h =
    ground (arith, parse_pairs-Lacks getenv pairs i p e h)

module _ {Num : Type 0} (E : Environment Num) where
  tags_from_env_panics :
      (c : Configuration Num) (i : ℕ) (p : Bytes)
      → bytes_eq (E.getenv (codes "JAEGER_TAGS")) [] ≡ false
      → get_elem? (split (E.getenv (codes "JAEGER_TAGS")) b',') i ≡ some p
      → Lacks b'=' p
      → tags_from_env E c ≡ env_panic
  unfolding tags_from_env parse_tags
  tags_from_env_panics c i p set e h =
      rw (set, parse_pairs-Lacks E.getenv (split (E.getenv (codes "JAEGER_TAGS")) b',') i p e h)
        refl

  pub unset :
      {A C : Type 0} (name : Bytes) (parse : Bytes → Option A) (store : A → C → C) (c : C)
      → E.getenv name ≡ []
      → override E name parse store c ≡ env_ok c
  unfolding override bytes_eq
  unset name parse store c e = rw e refl

  -- If JAEGER_TAGS is set to a text with a part between commas that has no equals sign, and no
  -- other variable that is read before it is set, FromEnv panics, whatever the configuration is.
  pub from_env_panics :
      (c : Configuration Num) (i : ℕ) (p : Bytes)
      → E.getenv (codes "JAEGER_SERVICE_NAME") ≡ []
      → E.getenv (codes "JAEGER_RPC_METRICS") ≡ []
      → E.getenv (codes "JAEGER_DISABLED") ≡ []
      → bytes_eq (E.getenv (codes "JAEGER_TAGS")) [] ≡ false
      → get_elem? (split (E.getenv (codes "JAEGER_TAGS")) b',') i ≡ some p
      → Lacks b'=' p
      → from_env E c ≡ env_panic
  unfolding from_env
  from_env_panics c i p name rpc disabled set e h =
      rw
        (
          unset (codes "JAEGER_SERVICE_NAME") (λ e. some e) _ c name,
          unset (codes "JAEGER_RPC_METRICS") E.parse_bool _ c rpc,
          unset (codes "JAEGER_DISABLED") E.parse_bool _ c disabled,
          tags_from_env_panics c i p set e h,
        )
        refl
