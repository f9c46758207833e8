-- ===== src/Log/Once.antt =====
-- The log only grows, by one entry for each request that is accepted, and never has two entries at
-- one place.
use plan_vault_libp2p.Prelude.{
  ℕ, suc, Option-cases, inl, inr, ◌+◌, ◌≡◌, refl, sym, ap, ◌∙◌, List, [], ◌∷◌, ◌++◌, append-nil,
  append_assoc, none, some, true, false, Bytes, Bytes_eq, ok, err, panics, All, All-append_one,
  length, length-append, arith,
}
use plan_vault_libp2p.Prelude.ByteStrings.{bytes_beq_iff}
use plan_vault_libp2p.Interfaces.{Proto, Hash}
use plan_vault_libp2p.Log.{
  Posted, is_at, same_id, find, view, Label, quiet, answered, read, Does, stays, posts, refuses,
  breaks, reads, Runs,
}
use plan_vault_libp2p.Interfaces.{Badger}
use plan_vault_libp2p.Log.Writers.{System, Reach, channel_of}
use plan_vault_libp2p.Log.Refinement.{Represents, writers_refine, get-view}
use plan_vault_libp2p.Prelude.Errors.{key_not_found}
use plan_vault_libp2p.Protos.{Msg}
use plan_vault_libp2p.Store.Entries
use plan_vault_libp2p.Store.Keys.{entry_key}
use plan_vault_libp2p.Log.Places.{same_id_iff, absent_split}

-- No later entry is at the place of an earlier one.
abbrev Distinct : List Posted → Type 0
Distinct [] = Unit
Distinct (p ∷ log) = All (λ (q : Posted). is_at p.channel p.id q ≡ false) log × Distinct log

-- The requests that were answered with an arrival key.
abbrev accepted : List Label → ℕ
accepted [] = 0
accepted (answered q (ok key) ∷ ls) = suc (accepted ls)
accepted (_ ∷ ls) = accepted ls

accepted-append :
    (ls : List Label) (l : Label) → accepted (ls ++ l ∷ []) ≡ accepted ls + accepted (l ∷ [])
accepted-append [] l = omega arith
accepted-append (answered q (ok key) ∷ ls) l = omega (arith, accepted-append ls l)
accepted-append (answered q (err e) ∷ ls) l = accepted-append ls l
accepted-append (answered q panics ∷ ls) l = accepted-append ls l
accepted-append (quiet ∷ ls) l = accepted-append ls l
accepted-append (read uri id r ∷ ls) l = accepted-append ls l

same_id_sym : (a b : Bytes) → same_id a b ≡ true → same_id b a ≡ true
same_id_sym a b h = (same_id_iff b a).1 (sym ((same_id_iff a b).0 h))

is_at_sym : (p q : Posted) → is_at p.channel p.id q ≡ false → is_at q.channel q.id p ≡ false
is_at_sym p q h = ground (
  arith,
  h,
  bytes_beq_iff q.channel p.channel,
  bytes_beq_iff p.channel q.channel,
  same_id_sym p.id q.id,
)

Distinct-append :
    (log : List Posted) (p : Posted)
    → Distinct log
    → find p.channel p.id log ≡ none
    → Distinct (log ++ p ∷ [])
Distinct-append [] p d absent = (tt, tt)
Distinct-append (q ∷ log) p d absent =
    let (other, later) = absent_split p q log absent in
    (
      All-append_one (λ (r : Posted). is_at q.channel q.id r ≡ false) log p d.0
          (is_at_sym p q other),
      Distinct-append log p d.1 later,
    )

pub find-append_old :
    (c id b : Bytes) (log more : List Posted)
    → find c id log ≡ some b
    → find c id (log ++ more) ≡ some b
unfolding find
find-append_old c id b [] more h = cc
find-append_old c id b (p ∷ log) more h = ground (arith, find-append_old c id b log more)

module _ (P : Proto) (H : Hash) where
  -- How `now` comes from `log` by the replies `ls`.
  pub record Grown (log : List Posted) (ls : List Label) (now : List Posted) : Type 0 where
    pub new : List Posted
    pub is_longer : now ≡ log ++ new
    pub one_each : length new ≡ accepted ls
    pub distinct : Distinct now

  Grown-quiet :
      (log mid : List Posted) (ls : List Label) (l : Label)
      → Grown log ls mid
      → accepted (l ∷ []) ≡ 0
      → Grown log (ls ++ l ∷ []) mid
  Grown-quiet log mid ls l g silent = record {
    new = g.new;
    is_longer = g.is_longer;
    one_each = omega (arith, g.one_each, accepted-append ls l, silent);
    distinct = g.distinct;
  }

  Grown-append :
      (log mid : List Posted) (ls : List Label) (l : Label) (p : Posted)
      → Grown log ls mid
      → find p.channel p.id mid ≡ none
      → accepted (l ∷ []) ≡ 1
      → Grown log (ls ++ l ∷ []) (mid ++ p ∷ [])
  Grown-append log mid ls l p g absent loud = record {
    new = g.new ++ p ∷ [];
    is_longer = ap (λ (k : List Posted). k ++ p ∷ []) g.is_longer ∙ append_assoc log g.new (p ∷ []);
    one_each = omega (arith, g.one_each, accepted-append ls l, loud, length-append g.new (p ∷ []));
    distinct = Distinct-append mid p g.distinct absent;
  }

  Does-Grown :
      (log mid now : List Posted) (ls : List Label) (l : Label)
      → Grown log ls mid
      → Does P H mid l now
      → Grown log (ls ++ l ∷ []) now
  Does-Grown log mid now ls l g stays = Grown-quiet log mid ls quiet g refl
  Does-Grown log mid now ls l g (posts q id bytes has packs absent) =
      Grown-append log mid ls _ _ g absent refl
  Does-Grown log mid now ls l g (refuses q e) = Grown-quiet log mid ls _ g refl
  Does-Grown log mid now ls l g (breaks q) = Grown-quiet log mid ls _ g refl
  Does-Grown log mid now ls l g (reads uri id) = Grown-quiet log mid ls _ g refl

  Runs-Grown :
      (log now : List Posted) (ls : List Label)
      → Distinct log
      → Runs P H log ls now
      → Grown log ls now
  Runs-Grown log now ls d Runs.done = record {
    new = [];
    is_longer = sym (append-nil log);
    one_each = refl;
    distinct = d;
  }
  Runs-Grown log now ls d (Runs.later before last) =
      Does-Grown log _ now _ _ (Runs-Grown log _ _ d before) last

module _ (B : Badger) (P : Proto) (H : Hash) where
  -- Writers that run, in whatever order they begin and commit, on a database that holds a log
  -- without two entries at one place, leave one that holds a log of which the old one is the
  -- beginning, with as many new entries as there were replies with an arrival key, and still no
  -- two at one place.
  pub one_entry_each :
      (log : List Posted) (s t : System B P H) (ls : List Label)
      → Represents B P H log s.db
      → Distinct log
      → Reach B P H s ls t
      → (now : List Posted) × Represents B P H now t.db × Grown P H log ls now
  one_entry_each log s t ls rep d run =
      let (now, runs, rep') = writers_refine B P H log s t ls rep run in
      (now, rep', Runs-Grown P H log now ls d runs)

  view_kept :
      (uri id : Bytes) (log new : List Posted) (m : Msg)
      → view P H log uri id ≡ ok m
      → view P H (log ++ new) uri id ≡ ok m
  view_kept uri id log new m h = elim (Option-cases (find (H.sum256 uri) id log)) [
    | inl missing ↦ absurd_view (rw (missing, view) at h)
    | inr (b, there) ↦
        rw (find-append_old (H.sum256 uri) id b log new there, view) (rw (there, view) at h)
  ]
    where
      absurd_view : err key_not_found ≡ ok m → view P H (log ++ new) uri id ≡ ok m
      absurd_view e = cc

  -- An entry that Get reads in a feed at one moment is what it reads there at every later one,
  -- whatever writers ran in between, on a database that holds a log without two entries at one
  -- place.
  pub reads_are_stable :
      (log : List Posted) (s t : System B P H) (ls : List Label) (uri id : Bytes) (m : Msg)
      → Represents B P H log s.db
      → Distinct log
      → Reach B P H s ls t
      → Entries.get B P (entry_key (channel_of B P H uri) id) s.db ≡ ok m
      → Entries.get B P (entry_key (channel_of B P H uri) id) t.db ≡ ok m
  reads_are_stable log s t ls uri id m rep d run here =
      let (now, rep', g) = one_entry_each log s t ls rep d run in
      get-view B P H now t.db uri id rep'
      ∙ ap (λ (l : List Posted). view P H l uri id) g.is_longer
      ∙ view_kept uri id log g.new m (sym (get-view B P H log s.db uri id rep) ∙ here)
