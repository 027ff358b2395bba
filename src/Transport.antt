-- ===== src/Transport.antt =====
-- transport.go: the interface of a sender of spans, and what its users rely on.
pub mod Udp
pub mod Http
use jaeger_client_go.Base.{ℕ, zero, suc, ◌+◌, ◌≡◌, Bool, if◌then◌else◌}

-- What a call to a transport gives: the number of spans it sent or lost, and whether it failed.
pub record Sent : Type 0 where
  pub count : ℕ
  pub failed : Bool

-- `Append` and `Flush` of a transport with states `State`.
pub record Transport (Span State : Type 0) : Type 0 where
  pub append : State → Span → State × Sent
  pub flush : State → State × Sent

-- A transport that keeps count: each span is in its buffer until it is in the count of a call.
pub record IsCounting {Span State : Type 0} (T : Transport Span State) : Type 0 where
  pub buffered : State → ℕ
  pub append_counts :
      (s : State) (x : Span) → buffered s + 1 ≡ buffered (T.append s x).0 + (T.append s x).1.count
  pub flush_counts : (s : State) → buffered s ≡ buffered (T.flush s).0 + (T.flush s).1.count
