-- ===== src/Utils.antt =====
-- utils/httputil.go: the HTTP client with a deadline that proxyReq of web/api/v1/api.go uses for its requests.
pub mod Laws
use promeproxy.Common.{
  ℕ, String, ◌⊎◌, inl, inr, Bool, true, Option, none, some, List, [], ◌∷◌, ℤ, pos, ◌+ℤ◌,
}

-- What the code uses of package net: net.DialTimeout with the network, the address and the timeout, and
-- SetDeadline of a connection, which answers an error or none; times and durations in nanoseconds. `C` stands for
-- connections, and `E` for errors.
pub record Net (C E : Type 0) : Type 0 where
  pub dial_timeout : String → String → ℕ → C ⊎ E
  pub set_deadline : C → ℤ → Option E

-- What is done to a connection.
pub data ConnAction (C : Type 0) : Type 0 where
  opened closed : C → ConnAction C
  limited : C → ℤ → ConnAction C

-- http.Transport, as far as NewDeadlineRoundTripper sets it: Dial gives the connection or the error, after what it
-- did to connections; its first argument is the time when it starts.
pub record Transport (C E : Type 0) : Type 0 where
  pub disable_keep_alives : Bool
  pub dial : ℤ → String → String → List (ConnAction C) × (C ⊎ E)

module _ {C E : Type 0} where
  -- the end of Dial, with the answer of SetDeadline
  unfoldable pub with_deadline : C → ℤ → Option E → List (ConnAction C) × (C ⊎ E)
  with_deadline c deadline none = (opened c ∷ limited c deadline ∷ [], inl c)
  with_deadline c deadline (some err) = (opened c ∷ closed c ∷ [], inr err)

module _ {C E : Type 0} (net : Net C E) where
  -- Dial once net.DialTimeout has answered, with the deadline
  unfoldable pub after_dial : ℤ → C ⊎ E → List (ConnAction C) × (C ⊎ E)
  unfolding with_deadline
  after_dial deadline (inr err) = ([], inr err)
  after_dial deadline (inl c) = with_deadline c deadline (net.set_deadline c deadline)

  -- NewDeadlineRoundTripper
  unfoldable pub new_deadline_round_tripper : ℕ → Transport C E
  unfolding after_dial
  new_deadline_round_tripper timeout = record {
    disable_keep_alives = true;
    dial =
        λ start netw addr. after_dial (start +ℤ pos timeout) (net.dial_timeout netw addr timeout);
  }

  -- NewClientForTimeOut, with NewClient: a client is its transport, and the error is always nil. The timeout is 3
  -- seconds.
  unfoldable pub new_client_for_timeout : Transport C E
  unfolding new_deadline_round_tripper
  new_client_for_timeout = new_deadline_round_tripper 3_000_000_000
