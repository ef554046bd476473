-- ===== src/Handler/Replay.antt =====
-- About on_chain_event of handler/src/dispatch.rs: commitments that come again.
use stroemnet.Common.{
  map_err-ok, ℕ, ◌≡◌, refl, sym, ◌∙◌, ap, inl, inr, Bool, true, ◌||◌, some, none, [], ◌∷◌, bytes_eq,
  nat_eq, Result, ok, err, map_err, arith, ◌==◌, is_some, Option-cases, Bool-cases, beq_refl,
  if◌then◌else◌, ok_inj,
}
use stroemnet.Protocol.Channel.{ChannelId, channel_eq, try_from}
use stroemnet.Protocol.V1.{CommitmentV1, commitment_eq, commitment_beq_iff, commitment}
use stroemnet.Protocol.Clock.{ChainClock}
use stroemnet.Tracker.Record.{SwapTracker, SwapRecord, get_swap}
use stroemnet.Tracker.Commit.{set_init_commitment, set_counter_commitment}
use stroemnet.Tracker.History.{fresh_record, set_init_commitment-ok, set_counter_commitment-ok}
use stroemnet.Handler.Mirror.{handle_internal_commitment}
use stroemnet.Handler.Config.{Handler, HandlerError, Outside, invalid_state, swap_tracker}
use stroemnet.Handler.Dispatch.{
  transmit_reveal, is_counter, handle_external_commitment, on_chain_event, after_write,
  commitment_effects, counter_effects,
}

-- The check of handle_external_commitment for a commitment that it has seen.
abbrev pub is_seen : SwapRecord → CommitmentV1 → Bool
is_seen r c = (r.init_commitment == c) || is_counter r c || r.init_commitment.source == c.source

-- The tracker has seen the commitment.
abbrev pub Knows : SwapTracker → CommitmentV1 → Type 0
Knows t c = (r : SwapRecord) × (get_swap t c.swap_id ≡ some r) × (is_seen r c ≡ true)

is_seen_counter :
    (r : SwapRecord) (c : CommitmentV1) → r.counter_commitment ≡ some c → is_seen r c ≡ true
unfolding is_counter
is_seen_counter r c h = ground (arith, commitment_beq_iff c c)

module _ {F : Type 0} (now : ℕ) (t : SwapTracker) (c : CommitmentV1) where
  abbrev pub external : Result (HandlerError F) SwapTracker
  external = handle_external_commitment now t c

  pub external-none :
      get_swap t c.swap_id ≡ none
      → external ≡ map_err swap_tracker (set_init_commitment now t c.swap_id c)
  unfolding handle_external_commitment
  external-none e = rw (handle_external_commitment, e) refl

  pub external-some :
      (r : SwapRecord)
      → get_swap t c.swap_id ≡ some r
      → external ≡ (
          if is_seen r c then ok t else map_err swap_tracker (set_counter_commitment t c.swap_id c))
  unfolding handle_external_commitment
  external-some r e = rw (handle_external_commitment, e) refl

  external-Knows : (t' : SwapTracker) → external ≡ ok t' → Knows t' c
  external-Knows t' e = elim (Option-cases (get_swap t c.swap_id)) [
    | inl missing ↦
        let made : set_init_commitment now t c.swap_id c ≡ ok t' =
          map_err-ok swap_tracker _ (sym (external-none missing) ∙ e) in
        (
          fresh_record now c,
          ground (
            arith,
            (set_init_commitment-ok t c.swap_id now c made).1 c.swap_id,
            beq_refl c.swap_id,
          ),
          ground (arith, commitment_beq_iff c c),
        )
    | inr (r, at) ↦ elim (Bool-cases (is_seen r c)) [
      | inl seen ↦
          let same : t ≡ t' = ok_inj (sym (external-some r at ∙ (rw seen refl)) ∙ e) in
          (r, rw (← same) at, seen)
      | inr fresh ↦
          let made : set_counter_commitment t c.swap_id c ≡ ok t' =
            map_err-ok swap_tracker _ (sym (external-some r at ∙ (rw fresh refl)) ∙ e) in
          let (q, at', _, _, _, w) = set_counter_commitment-ok t c.swap_id c made in
          (
            record q { counter_commitment = some c },
            ground (arith, w c.swap_id, beq_refl c.swap_id),
            is_seen_counter (record q { counter_commitment = some c }) c refl,
          )
    ]
  ]

module _ {F : Type 0} (now : ℕ) (t : SwapTracker) (c : CommitmentV1) where
  Knows-external : Knows t c → external {F = F} now t c ≡ ok t
  Knows-external (r, at, seen) = external-some now t c r at ∙ (rw seen refl)

-- A commitment that the tracker has taken once changes it no more.
external_twice :
    {F : Type 0} (now : ℕ) (t t' : SwapTracker) (c : CommitmentV1)
    → external {F = F} now t c ≡ ok t'
    → external {F = F} now t' c ≡ ok t'
external_twice now t t' c e = Knows-external now t' c (external-Knows now t c t' e)

module _ {F : Type 0} (o : Outside F) (h : Handler F) where
  internal_locked :
      (now : ℕ) (clock : ChainClock) (t : SwapTracker) (c : CommitmentV1) (channel : ChannelId)
      (r : SwapRecord)
      → get_swap t c.swap_id ≡ some r
      → (is_some r.counter_commitment || is_some r.resolution) ≡ true
      → handle_internal_commitment o h now clock t c channel ≡ err (invalid_state c.swap_id)
  unfolding handle_internal_commitment
  internal_locked now clock t c channel r at past = rw (handle_internal_commitment, at, past) refl

  -- A commitment event that comes again gives the same effects and leaves the tracker as it is,
  -- broadcast included. The tracker took the event the first time.
  on_chain_event_twice :
      (now : ℕ) (clock : ChainClock) (source : ChannelId) (c : CommitmentV1) (t t' : SwapTracker)
      → handle_external_commitment {F = F} now t c ≡ ok t'
      → on_chain_event o h now clock source (commitment c) t'
        ≡ on_chain_event o h now clock source (commitment c) t
  unfolding on_chain_event after_write
  on_chain_event_twice now clock source c t t' e = rw (e, external_twice now t t' c e) refl

  -- A commitment event of a swap that is locked or resolved has no effect but the signal to
  -- reveal. The tracker has seen the commitment, and its destination is a channel.
  on_chain_event_locked :
      (now : ℕ) (clock : ChainClock) (source destination : ChannelId) (c : CommitmentV1)
      (t : SwapTracker) (r : SwapRecord)
      → get_swap t c.swap_id ≡ some r
      → (is_some r.counter_commitment || is_some r.resolution) ≡ true
      → is_seen r c ≡ true
      → try_from c.destination ≡ ok destination
      → on_chain_event o h now clock source (commitment c) t ≡ (t, ok (transmit_reveal c ∷ []))
  unfolding on_chain_event after_write commitment_effects counter_effects
  on_chain_event_locked now clock source destination c t r at past seen parsed =
      let quiet : commitment_effects o h now clock source c t ≡ ok (transmit_reveal c ∷ []) =
        ground (arith, parsed, internal_locked now clock t c destination r at past) in
      rw (Knows-external {F = F} now t c (r, at, seen)) (ap (λ e. (t, e)) quiet)
