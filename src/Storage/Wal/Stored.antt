-- ===== src/Storage/Wal/Stored.antt =====
-- The files of a log (internal/storage/wal.go) hold the entries that were appended, and `Replay`
-- gives them back.
use monsoon.Prelude.{
  ℕ, suc, ◌≤◌, Option, some, List, [], ◌∷◌, ◌++◌, ◌≡◌, arith, length, append-nil, append_assoc,
}
use monsoon.Bytes.{Bytes}
use monsoon.GoMap.{Map, lookup, insert, nat_eq}
use monsoon.Storage.Record.{Entry, encode}
use monsoon.Storage.Record.Replay.{encode_all, encode_all-cons, IsTorn, apply_all}
use monsoon.Storage.Wal.{open_file, Wal, content, replay}
use monsoon.Storage.Wal.Segments.{
  Chain, end, Chain-append, end-append, segment_paths-Chain, insert_behind, lookup_behind, HoldsAll,
  IsTorn-nil, replay_segments-HoldsAll,
}

-- A directory whose files hold the entries `es`, perhaps with a torn record at the very end.
pub record Stored (dir : Map ℕ Bytes) (es : List Entry) : Type 0 where
  pub older : Map ℕ Bytes
  pub id : ℕ
  pub current : Bytes
  pub torn : Bytes
  pub older_entries : List Entry
  pub last : List Entry
  pub dir_is : dir ≡ older ++ (id, current ++ torn) ∷ []
  pub chain : Chain 0 older
  pub above : end 0 older ≤ id
  pub held : HoldsAll older older_entries
  pub encoded : encode_all last ≡ some current
  pub entries_are : es ≡ older_entries ++ last
  pub is_torn : IsTorn torn

-- A log that is open for appending and holds the entries `es`.
pub record Holds (w : Wal) (es : List Entry) : Type 0 where
  pub older : Map ℕ Bytes
  pub current : Bytes
  pub older_entries : List Entry
  pub last : List Entry
  pub dir_is : w.dir ≡ older ++ (w.segment_id, current) ∷ []
  pub chain : Chain 0 older
  pub above : end 0 older ≤ w.segment_id
  pub held : HoldsAll older older_entries
  pub encoded : encode_all last ≡ some current
  pub entries_are : es ≡ older_entries ++ last
  pub file_is : w.file ≡ open_file w.segment_id
  pub offset_is : w.offset ≡ length current

-- What is written behind a log that holds `es`: whole records, and a torn one.
pub Stored-more :
    {w : Wal} {es : List Entry} (h : Holds w es) (dir : Map ℕ Bytes) (raw torn : Bytes)
    (more : List Entry)
    → dir ≡ h.older ++ (w.segment_id, raw ++ torn) ∷ []
    → encode_all (h.last ++ more) ≡ some raw
    → IsTorn torn
    → Stored dir (es ++ more)
Stored-more {w} h dir raw torn more d enc t = record {
  older = h.older;
  id = w.segment_id;
  current = raw;
  torn = torn;
  older_entries = h.older_entries;
  last = h.last ++ more;
  dir_is = d;
  chain = h.chain;
  above = h.above;
  held = h.held;
  encoded = enc;
  entries_are = rw h.entries_are (append_assoc h.older_entries h.last more);
  is_torn = t;
}

unfoldable pub Holds-Stored : {w : Wal} {es : List Entry} → Holds w es → Stored w.dir es
Holds-Stored {w} h = record {
  older = h.older;
  id = w.segment_id;
  current = h.current;
  torn = [];
  older_entries = h.older_entries;
  last = h.last;
  dir_is = rw append-nil h.dir_is;
  chain = h.chain;
  above = h.above;
  held = h.held;
  encoded = h.encoded;
  entries_are = h.entries_are;
  is_torn = IsTorn-nil;
}

-- `Replay` gives the callback the entries in the order in which they were appended.
pub replay-Stored :
    {S E : Type 0} (apply : Entry → S → S × Option E) (w : Wal) (s : S) {es : List Entry}
    → Stored w.dir es
    → replay apply w s ≡ apply_all apply es s
unfolding replay
replay-Stored apply w s h =
    rw
      (
        h.dir_is,
        segment_paths-Chain 0 _ (Chain-append 0 h.id (h.current ++ h.torn) h.older h.chain h.above),
        h.entries_are,
      )
      (replay_segments-HoldsAll apply h.id h.last s h.held h.encoded h.is_torn)

pub encode_all-append :
    (es : List Entry) (e : Entry) {raw buf : Bytes}
    → encode_all es ≡ some raw
    → encode e ≡ some buf
    → encode_all (es ++ e ∷ []) ≡ some (raw ++ buf)
unfolding encode_all
encode_all-append [] e {buf} h k = rw k (ground (arith, append-nil buf))
encode_all-append (x ∷ es) e h k =
    let (r, rest, enc, encs, joined) = encode_all-cons x es h in
    rw (enc, encode_all-append es e encs k, joined, append_assoc r rest _)

-- the last of the files in order, and a next one
module _ (id : ℕ) (raw : Bytes) (older : Map ℕ Bytes) (chain : Chain 0 older)
    (above : end 0 older ≤ id) where
  abbrev pub files : Map ℕ Bytes
  files = older ++ (id, raw) ∷ []

  pub content_last : content id files ≡ raw
  content_last =
      rw (content, lookup_behind id ((id, raw) ∷ []) 0 older chain above)
        (unfold lookup in ground arith)

  pub insert_last : (v : Bytes) → insert id v files ≡ older ++ (id, v) ∷ []
  insert_last v =
      rw (insert_behind id v ((id, raw) ∷ []) 0 older chain above) (unfold insert in ground arith)

  pub Chain-files : Chain 0 files
  Chain-files = Chain-append 0 id raw older chain above

  pub end-files : end 0 files ≤ suc id
  end-files = omega (arith, end-append 0 id raw older)

  pub content_next : content (suc id) files ≡ []
  content_next =
      rw (content, lookup_behind (suc id) ((id, raw) ∷ []) 0 older chain (omega (arith, above)))
        (unfold lookup in ground arith)

  pub insert_next : (v : Bytes) → insert (suc id) v files ≡ files ++ (suc id, v) ∷ []
  insert_next v =
      rw (insert_behind (suc id) v ((id, raw) ∷ []) 0 older chain (omega (arith, above)))
        (unfold insert in ground (arith, append_assoc older ((id, raw) ∷ []) ((suc id, v) ∷ [])))
