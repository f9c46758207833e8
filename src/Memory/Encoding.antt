-- ===== src/Memory/Encoding.antt =====
-- An encoding of entries, and a hash that keeps the first 32 bytes. Messages of another shape than
-- an entry of a client are refused, as `Proto` allows.
use plan_vault_libp2p.Prelude.{
  ℕ, zero, ◌≡◌, refl, sym, ap, ap₂, ◌∙◌, [], ◌∷◌, ◌++◌, Option, none, some, Bytes, Slice, Result,
  ok, err, ok-injective, length, take, drop, take-append_left, drop-append_left,
}
use plan_vault_libp2p.Prelude.Errors.{external}
use plan_vault_libp2p.Protos.{Msg, MsgOp, EntryHeader, ReqStatus, ReqErr, empty_msg, empty_header}
use plan_vault_libp2p.Interfaces.{Proto, Hash, wire, wire_slice}
use plan_vault_libp2p.Store.Keys.Layout.{fit, length-fit}

-- An entry with an ID, a URI and a body, and nothing else.
abbrev pub plain_entry : Slice → Bytes → Slice → Msg
plain_entry id uri body = record empty_msg {
  entry_header = some (record empty_header { entry_id = id; feed_uri = uri });
  body = body;
}

abbrev pub refused {ℓ} : {A : Type ℓ} → Result A
refused = err (external [])

pack_body : Bytes → Bytes → Slice → Result Bytes
pack_body id uri none = refused
pack_body id uri (some b) = ok (length id ∷ (id ++ (length uri ∷ (uri ++ b))))

pack_header : Slice → Slice → Slice → Bytes → Bytes → Slice → Result Bytes
pack_header (some id) none none [] uri b = pack_body id uri b
pack_header _ _ _ _ _ _ = refused

unfoldable pub pack :
    MsgOp → ℕ → Option EntryHeader → Slice → Option ReqStatus → Option ReqErr → Result Bytes
unfolding pack_header pack_body
pack MsgOp.feed_entry zero (some h) b none none =
    pack_header h.entry_id h.member_id h.parent_id h.entry_codec h.feed_uri b
pack _ _ _ _ _ _ = refused

unpack_rest : Bytes → Bytes → Result Msg
unpack_rest id [] = refused
unpack_rest id (n ∷ rest) =
    ok (plain_entry (wire_slice (some id)) (take n rest) (wire_slice (some (drop n rest))))

unfoldable pub unpack : Bytes → Result Msg
unfolding unpack_rest
unpack [] = refused
unpack (n ∷ rest) = unpack_rest (take n rest) (drop n rest)

unpack-pack_body :
    (id uri : Bytes) (body : Slice) (b : Bytes)
    → pack_body id uri body ≡ ok b
    → unpack b ≡ ok (plain_entry (wire_slice (some id)) uri (wire_slice body))
unfolding pack_body unpack unpack_rest
unpack-pack_body id uri none b h = cc
unpack-pack_body id uri (some v) b h =
    ap unpack (sym (ok-injective h))
    ∙ ap₂ unpack_rest (take-append_left (length id) id _ refl)
        (drop-append_left (length id) id _ refl)
    ∙ ap₂ (λ (u w : Bytes). ok (plain_entry (wire_slice (some id)) u (wire_slice (some w))))
        (take-append_left (length uri) uri v refl) (drop-append_left (length uri) uri v refl)

unpack-pack_header :
    (a m p : Slice) (codec uri : Bytes) (body : Slice) (b : Bytes)
    → pack_header a m p codec uri body ≡ ok b
    → unpack b
      ≡ ok (
          wire (record empty_msg {
            entry_header = some (record {
              entry_id = a;
              member_id = m;
              parent_id = p;
              entry_codec = codec;
              feed_uri = uri;
            });
            body = body;
          }))
unfolding pack_header
unpack-pack_header (some id) none none [] uri body b h = unpack-pack_body id uri body b h
unpack-pack_header _ _ _ _ _ _ _ h = cc

pub unpack-pack :
    (op : MsgOp) (req : ℕ) (hd : Option EntryHeader) (body : Slice) (st : Option ReqStatus)
    (e : Option ReqErr) (b : Bytes)
    → pack op req hd body st e ≡ ok b
    → unpack b
      ≡ ok (
          wire (record {
            op = op;
            req_id = req;
            entry_header = hd;
            body = body;
            status = st;
            req_err = e;
          }))
unfolding pack
unpack-pack MsgOp.feed_entry zero (some h) body none none b e =
    unpack-pack_header h.entry_id h.member_id h.parent_id h.entry_codec h.feed_uri body b e
unpack-pack _ _ _ _ _ _ _ e = cc

pub marshal : Msg → Result Bytes
marshal m = pack m.op m.req_id m.entry_header m.body m.status m.req_err

pub unpack-marshal : (m : Msg) (b : Bytes) → marshal m ≡ ok b → unpack b ≡ ok (wire m)
unfolding marshal
unpack-marshal m b h = unpack-pack m.op m.req_id m.entry_header m.body m.status m.req_err b h

unfoldable pub encoding : Proto
unfolding marshal pack pack_header pack_body unpack unpack_rest
encoding = record { marshal = marshal; unmarshal = unpack; unmarshal-marshal = unpack-marshal }

unfoldable pub cut_hash : Hash
cut_hash = record { sum256 = fit 32; length-sum256 = length-fit 32 }
