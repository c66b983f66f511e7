-- ===== src/Session/Timeout.antt =====
-- session/timeout.go: the time that each operation may take. Durations are int64 values, and a
-- challenge duration is a uint64 that the client chooses.
use dst_go.Base.{ℕ, ◌+◌, ◌*◌, ◌^◌, ◌≤◌, ◌<◌, ◌≡◌, Duration, i64, second, arith}

abbrev pub processing_time : Duration
processing_time = 5 * second

pub record TimeoutConfig : Type 0 where
  pub on_chain_tx : Duration
  pub response : Duration

-- `time.Duration(challegeDurSecs) * time.Second`
abbrev pub challenge_dur : ℕ → Duration
challenge_dur secs = i64 (i64 secs * second)

module _ (t : TimeoutConfig) where
  open t use {on_chain_tx, response}

  unfoldable pub propose_ch : ℕ → Duration
  propose_ch challenge_dur_secs = i64 (
      i64 (
        i64 (i64 (2 * response) + i64 (3 * on_chain_tx))
        + i64 (2 * challenge_dur challenge_dur_secs))
      + processing_time)

  unfoldable pub resp_ch_proposal_accept : ℕ → Duration
  unfolding propose_ch
  resp_ch_proposal_accept challenge_dur_secs = propose_ch challenge_dur_secs

  unfoldable pub resp_ch_proposal_reject : Duration
  resp_ch_proposal_reject = i64 (response + processing_time)

  unfoldable pub ch_update : Duration
  ch_update = i64 (response + processing_time)

  unfoldable pub resp_ch_update : Duration
  resp_ch_update = i64 (response + processing_time)

  unfoldable pub register : ℕ → Duration
  register challenge_dur_secs =
      i64 (i64 (on_chain_tx + challenge_dur challenge_dur_secs) + processing_time)

  unfoldable pub settle : ℕ → Duration
  settle challenge_dur_secs =
      i64 (i64 (i64 (2 * on_chain_tx) + challenge_dur challenge_dur_secs) + processing_time)

  -- The sum that `propose_ch` stands for, over the integers.
  abbrev pub propose_ch_sum : ℕ → ℕ
  propose_ch_sum secs = 2 * response + 3 * on_chain_tx + 2 * (secs * second) + processing_time

  -- As long as the sum that proposing a channel stands for fits an int64, no timeout wraps: proposing
  -- and accepting a proposal, registering, settling, updating, and the responses to an update or a
  -- rejected proposal take the times they name. Registering takes no longer than settling, and
  -- neither settling nor updating longer than proposing.
  pub propose_ch_exact :
      (secs : ℕ)
      → propose_ch_sum secs < 2 ^ 63
      → (propose_ch secs ≡ propose_ch_sum secs)
        × (register secs ≡ on_chain_tx + secs * second + processing_time)
        × (settle secs ≡ 2 * on_chain_tx + secs * second + processing_time)
        × (register secs ≤ settle secs)
        × (settle secs ≤ propose_ch secs)
        × (ch_update ≤ propose_ch secs)
        × (resp_ch_proposal_accept secs ≡ propose_ch_sum secs)
        × (ch_update ≡ response + processing_time)
        × (resp_ch_update ≡ response + processing_time)
        × (resp_ch_proposal_reject ≡ response + processing_time)
  unfolding propose_ch register settle ch_update resp_ch_proposal_accept resp_ch_update
      resp_ch_proposal_reject
  propose_ch_exact secs h = omega arith

  -- A challenge duration that takes the sum past the int64 range, by less than the range, gives a
  -- negative timeout: the context of the proposal has expired before the proposal is sent.
  pub propose_ch_negative :
      (secs : ℕ)
      → 2 ^ 63 ≤ propose_ch_sum secs
      → propose_ch_sum secs < 2 ^ 64
      → 2 ^ 63 ≤ propose_ch secs
  unfolding propose_ch
  propose_ch_negative secs h k = omega arith
