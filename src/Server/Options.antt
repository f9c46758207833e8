-- ===== src/Server/Options.antt =====
-- newStreamOpts of server/server.go.
use Prim.Native.Nat.{bit_or}
use plan_vault_libp2p.Prelude.{ℕ, ◌^◌, [], Option, none, some, Slice, ltb, leb, if◌then◌else◌}
use plan_vault_libp2p.Protos.{OpenFeedReq, StreamMode}
use plan_vault_libp2p.Store.Options.{
  StreamOpts, tail, opt_none, opt_keys_only, opt_skip_first, opt_from_head, opt_from_genesis,
  opt_from_index,
}

-- The int32 `i` as its pattern: a negative limit, and zero, mean no limit.
abbrev pub max_entries : ℕ → ℕ
max_entries i = let max = (if ltb i (2 ^ 31) then i else 0) in if leb max 0 then tail else max

-- The switch on the mode: where to start, and skipFirst, fromHead, fromGenesis and fromIndex.
record Chosen : Type 0 where
  start : Slice
  skip : ℕ
  head : ℕ
  genesis : ℕ
  index : ℕ

abbrev plain : Slice → Chosen
plain start = record {
  start = start;
  skip = opt_none;
  head = opt_none;
  genesis = opt_none;
  index = opt_none;
}

choose : StreamMode → Slice → Option Chosen
choose StreamMode.dont_stream start = none
choose StreamMode.from_genesis start =
    some (record (plain (some [])) { genesis = opt_from_genesis })
choose StreamMode.at_entry start = some (plain start)
choose StreamMode.after_entry start = some (record (plain start) { skip = opt_skip_first })
choose StreamMode.after_head start =
    some (record (plain (some [])) { skip = opt_skip_first; head = opt_from_head })
choose StreamMode.from_index start = some (record (plain (some [])) { index = opt_from_index })
choose (StreamMode.other n) start = some (plain start)

unfoldable pub new_stream_opts : OpenFeedReq → Option StreamOpts
unfolding choose
new_stream_opts req = elim (choose req.stream_mode req.seek_entry_id) [
  | none ↦ none
  | some ch ↦ some (record {
    seek = ch.start;
    max = max_entries req.max_entries_to_send;
    flags =
        bit_or
          (bit_or
            (bit_or (bit_or (if req.send_entry_ids_only then opt_keys_only else opt_none) ch.skip)
              ch.head)
            ch.genesis)
          ch.index;
  })
]
