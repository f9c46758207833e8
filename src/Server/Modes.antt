-- ===== src/Server/Modes.antt =====
-- What a stream mode of the client means to the store.
use plan_vault_libp2p.Prelude.{
  ℕ, ◌^◌, ◌<◌, ◌≤◌, ◌≡◌, refl, ◌⊎◌, inl, inr, [], none, some, Bool, true, false, Bytes, Slice,
  if◌then◌else◌, arith,
}
use plan_vault_libp2p.Protos.{OpenFeedReq, StreamMode}
use plan_vault_libp2p.Store.Options.{
  StreamOpts, tail, keys_only, skip_first, from_head, from_genesis, from_index,
}
use plan_vault_libp2p.Server.Options.{new_stream_opts, max_entries}

-- The flags that a mode sets.
abbrev skips : StreamMode → Bool
skips StreamMode.after_entry = true
skips StreamMode.after_head = true
skips _ = false

abbrev at_head : StreamMode → Bool
at_head StreamMode.after_head = true
at_head _ = false

abbrev at_genesis : StreamMode → Bool
at_genesis StreamMode.from_genesis = true
at_genesis _ = false

abbrev by_index : StreamMode → Bool
by_index StreamMode.from_index = true
by_index _ = false

-- The client's own start is kept in these modes.
abbrev seeks : StreamMode → Bool
seeks StreamMode.from_genesis = false
seeks StreamMode.after_head = false
seeks StreamMode.from_index = false
seeks _ = true

pub record Fits (req : OpenFeedReq) (opts : StreamOpts) : Type 0 where
  pub seek : opts.seek ≡ (if seeks req.stream_mode then req.seek_entry_id else some [])
  pub keys : keys_only opts ≡ req.send_entry_ids_only
  pub skip : skip_first opts ≡ skips req.stream_mode
  pub head : from_head opts ≡ at_head req.stream_mode
  pub genesis : from_genesis opts ≡ at_genesis req.stream_mode
  pub index : from_index opts ≡ by_index req.stream_mode
  pub limit :
      (0 < req.max_entries_to_send
        → req.max_entries_to_send < 2 ^ 31
        → opts.max ≡ req.max_entries_to_send)
      × (req.max_entries_to_send ≡ 0 ⊎ 2 ^ 31 ≤ req.max_entries_to_send → opts.max ≡ tail)

max_entries_lem :
    (i : ℕ) → (0 < i → i < 2 ^ 31 → max_entries i ≡ i) × (i ≡ 0 ⊎ 2 ^ 31 ≤ i → max_entries i ≡ tail)
max_entries_lem i = (λ pos small. ground arith, λ none_given. ground arith)

abbrev Outcome : OpenFeedReq → Type 0
Outcome req =
    ((req.stream_mode ≡ StreamMode.dont_stream) × (new_stream_opts req ≡ none))
    ⊎ ((opts : StreamOpts) × (new_stream_opts req ≡ some opts) × Fits req opts)

abbrev request : Bytes → StreamMode → Slice → ℕ → Bool → OpenFeedReq
request uri m seek i b = record {
  feed_uri = uri;
  stream_mode = m;
  seek_entry_id = seek;
  max_entries_to_send = i;
  send_entry_ids_only = b;
}

by_mode :
    (uri : Bytes) (m : StreamMode) (seek : Slice) (i : ℕ) (b : Bool)
    → Outcome (request uri m seek i b)
unfolding new_stream_opts keys_only skip_first from_head from_genesis from_index
by_mode uri StreamMode.dont_stream seek i b = inl (refl, refl)
by_mode uri StreamMode.from_genesis seek i true = inr (
  _,
  refl,
  record {
    seek = refl;
    keys = refl;
    skip = refl;
    head = refl;
    genesis = refl;
    index = refl;
    limit = max_entries_lem i;
  },
)
by_mode uri m seek i true = inr (
  _,
  refl,
  record {
    seek = refl;
    keys = refl;
    skip = refl;
    head = refl;
    genesis = refl;
    index = refl;
    limit = max_entries_lem i;
  },
)
by_mode uri m seek i false = inr (
  _,
  refl,
  record {
    seek = refl;
    keys = refl;
    skip = refl;
    head = refl;
    genesis = refl;
    index = refl;
    limit = max_entries_lem i;
  },
)

-- DontStream gives no options. Every other mode gives options whose flags, read back by the
-- store's tests, are the ones of the mode and of SendEntryIDsOnly, no flag standing for another;
-- the start is the client's or empty, as the mode has it; and the limit is the client's if it is
-- positive as an int32, and otherwise the greatest uint64.
pub new_stream_opts_lem :
    (req : OpenFeedReq)
    → ((req.stream_mode ≡ StreamMode.dont_stream) × (new_stream_opts req ≡ none))
      ⊎ ((opts : StreamOpts) × (new_stream_opts req ≡ some opts) × Fits req opts)
new_stream_opts_lem req =
    by_mode req.feed_uri req.stream_mode req.seek_entry_id req.max_entries_to_send
      req.send_entry_ids_only
